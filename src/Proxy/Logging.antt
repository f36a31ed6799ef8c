-- ===== src/Proxy/Logging.antt =====
-- crates/zaphyl/src/main.rs, `logging`, and crates/zaphyl/src/metrics.rs: the line that a finished request
-- leaves, and the counters of the classes of statuses.
use zaphyl.HashMap.Laws.{get-insert}
use zaphyl.Str.Laws.{str_eq→eq}
use zaphyl.Prelude.{
  ◌≡◌, arith, inl, inr, Bool-cases, ℕ, ◌+◌, Option, List, [], ◌∷◌, ◌++◌, unwrap_or, if◌then◌else◌,
}
use zaphyl.Str.{Str, lit, str_eq}
use zaphyl.HashMap
use zaphyl.HashMap.{HashMap}
use zaphyl.Config.Validate.{show_uint}
use zaphyl.Proxy.{header_text}
use zaphyl.Proxy.Forwarding.{RequestHeader}
use zaphyl.Proxy.Failing.{status_class}

-- The counters that have been used, by the label.
abbrev pub Counters : Type 0
Counters = HashMap ℕ

unfoldable pub count : Str → Counters → ℕ
count class requests = unwrap_or (HashMap.get class requests) 0

unfoldable pub count_status : ℕ → Counters → Counters
unfolding count
count_status status requests =
    HashMap.insert (status_class status) (count (status_class status) requests + 1) requests

unfoldable pub log_line : RequestHeader → ℕ → ℕ → Str
log_line request status duration_ms =
    lit "method="
    ++ (request.method
        ++ (lit " host="
            ++ (unwrap_or (header_text (lit "host") request.headers) (lit "-")
                ++ (lit " path="
                    ++ (request.path
                        ++ (lit " status="
                            ++ (show_uint status
                                ++ (lit " dur_ms=" ++ (show_uint duration_ms ++ 0xa ∷ [])))))))))

-- The status that was written, if a response was.
unfoldable pub logging : RequestHeader → Option ℕ → ℕ → Counters → Str × Counters
unfolding log_line count_status
logging request written duration_ms requests =
    let status = unwrap_or written 0 in
    (log_line request status duration_ms, count_status status requests)

-- The statuses of one class.
abbrev in_class : Str → List ℕ → ℕ
in_class class [] = 0
in_class class (status ∷ statuses) =
    (if str_eq (status_class status) class then 1 else 0) + in_class class statuses

-- The counters after a number of responses.
pub counted : List ℕ → Counters → Counters
counted [] requests = requests
counted (status ∷ statuses) requests = counted statuses (count_status status requests)

count-count_status :
    (class : Str) (status : ℕ) (requests : Counters)
    → count class (count_status status requests)
      ≡ (if str_eq (status_class status) class then 1 else 0) + count class requests
unfolding count count_status
count-count_status class status requests = elim (Bool-cases (str_eq (status_class status) class)) [
  | inl e ↦
      rw
        (
          get-insert (status_class status) class (count (status_class status) requests + 1)
              requests,
          e,
        )
        (rw (str_eq→eq (status_class status) class e) (omega arith))
  | inr e ↦
      rw
        (
          get-insert (status_class status) class (count (status_class status) requests + 1)
              requests,
          e,
        )
        (omega arith)
]

-- The counter of each class stands at what it was, and one more for each response of the class.
pub count-counted :
    (class : Str) (statuses : List ℕ) (requests : Counters)
    → count class (counted statuses requests) ≡ count class requests + in_class class statuses
unfolding counted
count-counted class [] requests = omega arith
count-counted class (status ∷ statuses) requests =
    let ih = count-counted class statuses (count_status status requests) in
    let step = count-count_status class status requests in omega arith
