-- ===== src/Proxy/Failing.antt =====
-- crates/zaphyl/src/main.rs, `fail_to_proxy`: the status of a request that failed, and
-- crates/zaphyl/src/metrics.rs, `record`: the class under which a status is counted.
use zaphyl.Prelude.{ℕ, ◌≢◌, ◌≡◌, ◌↔◌, refl, ◌&&◌, arith, leb, ◌==◌, if◌then◌else◌}
use zaphyl.Str.{Str, lit}

-- The types of Pingora's errors that the code tells apart.
pub data ErrorType : Type 0 where
  http_status : ℕ → ErrorType
  connect_timed_out read_timed_out write_timed_out tls_handshake_timed_out : ErrorType
  write_error read_error connection_closed : ErrorType
  other : ErrorType

pub data ErrorSource : Type 0 where
  upstream downstream internal unset : ErrorSource

-- A client that is gone gets no status.
pub downstream_code : ErrorType → ℕ
downstream_code write_error = 0
downstream_code read_error = 0
downstream_code connection_closed = 0
downstream_code other = 400
downstream_code (http_status code) = 400
downstream_code connect_timed_out = 400
downstream_code read_timed_out = 400
downstream_code write_timed_out = 400
downstream_code tls_handshake_timed_out = 400

pub source_code : ErrorSource → ErrorType → ℕ
unfolding downstream_code
source_code upstream e = 502
source_code downstream e = downstream_code e
source_code internal e = 500
source_code unset e = 500

pub error_code : ErrorType → ErrorSource → ℕ
unfolding source_code
error_code (http_status code) source = code
error_code connect_timed_out source = 504
error_code read_timed_out source = 504
error_code write_timed_out source = 504
error_code tls_handshake_timed_out source = 504
error_code write_error source = source_code source write_error
error_code read_error source = source_code source read_error
error_code connection_closed source = source_code source connection_closed
error_code other source = source_code source other

abbrev pub IsTimeout : ErrorType → Type 0
IsTimeout (http_status code) = ⊥
IsTimeout connect_timed_out = Unit
IsTimeout read_timed_out = Unit
IsTimeout write_timed_out = Unit
IsTimeout tls_handshake_timed_out = Unit
IsTimeout write_error = ⊥
IsTimeout read_error = ⊥
IsTimeout connection_closed = ⊥
IsTimeout other = ⊥

-- A failure that does not carry a status of its own is reported as 504 exactly if it is a timeout.
pub error_code-IsTimeout :
    (e : ErrorType) (source : ErrorSource)
    → ((code : ℕ) → e ≢ http_status code)
    → (error_code e source ≡ 504) ↔ IsTimeout e
unfolding error_code source_code downstream_code
error_code-IsTimeout (http_status code) source h = absurd (h code refl)
error_code-IsTimeout connect_timed_out source h = (λ _. tt, λ _. refl)
error_code-IsTimeout read_timed_out source h = (λ _. tt, λ _. refl)
error_code-IsTimeout write_timed_out source h = (λ _. tt, λ _. refl)
error_code-IsTimeout tls_handshake_timed_out source h = (λ _. tt, λ _. refl)
error_code-IsTimeout write_error upstream h = (λ k. omega arith, λ f. absurd f)
error_code-IsTimeout write_error downstream h = (λ k. omega arith, λ f. absurd f)
error_code-IsTimeout write_error internal h = (λ k. omega arith, λ f. absurd f)
error_code-IsTimeout write_error unset h = (λ k. omega arith, λ f. absurd f)
error_code-IsTimeout read_error upstream h = (λ k. omega arith, λ f. absurd f)
error_code-IsTimeout read_error downstream h = (λ k. omega arith, λ f. absurd f)
error_code-IsTimeout read_error internal h = (λ k. omega arith, λ f. absurd f)
error_code-IsTimeout read_error unset h = (λ k. omega arith, λ f. absurd f)
error_code-IsTimeout connection_closed upstream h = (λ k. omega arith, λ f. absurd f)
error_code-IsTimeout connection_closed downstream h = (λ k. omega arith, λ f. absurd f)
error_code-IsTimeout connection_closed internal h = (λ k. omega arith, λ f. absurd f)
error_code-IsTimeout connection_closed unset h = (λ k. omega arith, λ f. absurd f)
error_code-IsTimeout other upstream h = (λ k. omega arith, λ f. absurd f)
error_code-IsTimeout other downstream h = (λ k. omega arith, λ f. absurd f)
error_code-IsTimeout other internal h = (λ k. omega arith, λ f. absurd f)
error_code-IsTimeout other unset h = (λ k. omega arith, λ f. absurd f)

-- The label that `record` counts under.
pub status_class : ℕ → Str
status_class status =
    if status == 0
    then lit "none"
    else if leb 100 status && leb status 199
    then lit "1xx"
    else if leb 200 status && leb status 299
    then lit "2xx"
    else if leb 300 status && leb status 399
    then lit "3xx"
    else if leb 400 status && leb status 499
    then lit "4xx"
    else if leb 500 status && leb status 599
    then lit "5xx"
    else lit "other"
