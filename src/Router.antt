-- ===== src/Router.antt =====
-- crates/zaphyl-core/src/router.rs: targets, routes and the router. The atomics that a target and a
-- route hold are cells of a memory, named by their number, since clones of a target share its flag.
use zaphyl.Prelude.{
  ℕ, zero, suc, ◌+◌, ◌%◌, ◌^◌, Bool, true, false, ◌&&◌, Option, none, some, List, [], ◌∷◌, ◌++◌,
  map, ◌==◌, if◌then◌else◌, length, get_elem?, find, is_empty, and_then, unwrap_or, is_some_and,
}
use zaphyl.Str.{Str, lit, str_eq, trim_end_matches, strip_prefix, starts_with, eq_ignore_ascii_case}
use zaphyl.HashMap.{HashMap}
pub mod Paths
pub mod Matching
pub mod Balance
pub mod Interleaved
pub mod Health

-- The atomics: `AtomicBool` flags and `AtomicUsize` counters, and the next free cell of each kind.
pub record Memory : Type 0 where
  pub flags : ℕ → Bool
  pub counters : ℕ → ℕ
  pub free_flag : ℕ
  pub free_counter : ℕ

abbrev pub update {ℓ} : {A : Type ℓ} → (ℕ → A) → ℕ → A → ℕ → A
update f cell v k = if k == cell then v else f k

pub store_flag : ℕ → Bool → Memory → Memory
store_flag cell b m = record m { flags = update m.flags cell b }

-- `fetch_add(1)` on an `AtomicUsize` of 64 bits: the old value, and the wrapped sum in the cell.
unfoldable pub fetch_add : ℕ → Memory → ℕ × Memory
fetch_add cell m = (
  m.counters cell,
  record m { counters = update m.counters cell ((m.counters cell + 1) % 2 ^ 64) },
)

pub record Target : Type 0 where
  pub address : Str
  pub tls : Bool
  pub sni : Str
  pub h2 : Bool
  pub healthy : ℕ

unfoldable pub new_target : Str → Bool → Str → Memory → Target × Memory
new_target address tls sni m = (
  record { address = address; tls = tls; sni = sni; h2 = false; healthy = m.free_flag },
  record m { flags = update m.flags m.free_flag true; free_flag = m.free_flag + 1 },
)

unfoldable pub with_h2 : Bool → Target → Target
with_h2 h2 t = record t { h2 = h2 }

unfoldable pub is_healthy : Memory → Target → Bool
is_healthy m t = m.flags t.healthy

unfoldable pub health_handle : Target → ℕ
health_handle t = t.healthy

-- A static root is the text of its directory.
pub record Route : Type 0 where
  pub host : Option Str
  pub path_prefix : Option Str
  pub targets : List Target
  pub strip_prefix : Bool
  pub request_headers : List (Str × Str)
  pub response_headers : List (Str × Str)
  pub static_dir : Option Str
  pub id : ℕ
  pub next : ℕ

unfoldable pub new_route : Option Str → Option Str → List Target → Memory → Route × Memory
new_route host path_prefix targets m = (
  record {
    host = host;
    path_prefix = path_prefix;
    targets = targets;
    strip_prefix = false;
    request_headers = [];
    response_headers = [];
    static_dir = none;
    id = 0;
    next = m.free_counter;
  },
  record m { counters = update m.counters m.free_counter 0; free_counter = m.free_counter + 1 },
)

unfoldable pub with_id : ℕ → Route → Route
with_id id r = record r { id = id }

unfoldable pub with_static : Str → Route → Route
with_static dir r = record r { static_dir = some dir }

unfoldable pub with_strip_prefix : Bool → Route → Route
with_strip_prefix strip r = record r { strip_prefix = strip }

unfoldable pub with_headers : List (Str × Str) → List (Str × Str) → Route → Route
with_headers request_headers response_headers r = record r {
  request_headers = request_headers;
  response_headers = response_headers;
}

unfoldable pub rewrite_path : Route → Str → Option Str
rewrite_path r path =
    if r.strip_prefix
    then and_then r.path_prefix (λ prefix.
      let rest = unwrap_or (strip_prefix (trim_end_matches b'/' prefix) path) path in
      some (if is_empty rest then lit "/" else rest))
    else none

-- The rounds of the scan that are left, and behind them the fallback. A missing element would be a
-- panic of the indexing, which does not occur below the count.
unfoldable pub next_from : ℕ → Route → Memory → Option Target × Memory
unfolding fetch_add is_healthy
next_from zero r m =
    let (n, m') = fetch_add r.next m in (get_elem? r.targets (n % length r.targets), m')
next_from (suc rounds) r m =
    let (n, m') = fetch_add r.next m in
    elim (get_elem? r.targets (n % length r.targets)) [
      | none ↦ (none, m')
      | some t ↦ elim (is_healthy m' t) [ true ↦ (some t, m') | false ↦ next_from rounds r m' ]
    ]

-- A call that no other thread overlaps; `next_target_among` lets others run between its steps.
unfoldable pub next_target : Route → Memory → Option Target × Memory
unfolding next_from
next_target r m = if length r.targets == 0 then (none, m) else next_from (length r.targets) r m

-- The match on what is left of the path behind the prefix.
unfoldable pub ends_segment : Option Str → Bool
unfolding starts_with
ends_segment none = false
ends_segment (some []) = true
ends_segment (some (c ∷ rest)) = starts_with (lit "/") (c ∷ rest)

unfoldable pub path_under_prefix : Str → Str → Bool
unfolding ends_segment
path_under_prefix path prefix =
    let base = trim_end_matches b'/' prefix in
    if is_empty base then true else ends_segment (strip_prefix base path)

unfoldable pub host_matches : Route → Option Str → Bool
host_matches r host = elim r.host [
  | none ↦ true
  | some expected ↦ is_some_and host (λ h. eq_ignore_ascii_case h expected)
]

unfoldable pub path_matches : Route → Str → Bool
unfolding path_under_prefix
path_matches r path = elim r.path_prefix [
  | none ↦ true
  | some prefix ↦ path_under_prefix path prefix
]

unfoldable pub matches : Route → Option Str → Str → Bool
unfolding host_matches path_matches
matches r host path = host_matches r host && path_matches r path

pub record Router : Type 0 where
  pub routes : List Route

unfoldable pub match_route : Router → Option Str → Str → Option Route
match_route router host path = find (λ r. matches r host path) router.routes

unfoldable pub probes_of : List Route → List (Str × ℕ)
probes_of [] = []
probes_of (r ∷ rs) = map (λ t. (t.address, health_handle t)) r.targets ++ probes_of rs

unfoldable pub health_probes : Router → List (Str × ℕ)
unfolding probes_of health_handle
health_probes router = probes_of router.routes
