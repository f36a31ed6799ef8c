-- ===== src/Tls.antt =====
-- crates/zaphyl/src/tls.rs, `ReloadCache`: a value that is parsed from a file, and parsed again when the
-- file's modification time has changed.
pub mod Current
pub mod Provider
use zaphyl.Prelude.{ℕ, Bool, true, false, Option, none, some, ◌==◌, if◌then◌else◌}

-- The value that is kept, with the modification time it was read at.
abbrev pub Cached : Type 0 → Type 0
Cached T = Option (ℕ × T)

abbrev pub new : {T : Type 0} → Cached T
new = none

abbrev pub keep_loaded : {T : Type 0} → ℕ → Option T → Cached T → Option T × Cached T
keep_loaded mtime none cached = (none, cached)
keep_loaded mtime (some value) cached = (some value, some (mtime, value))

abbrev pub get_at : {T : Type 0} → ℕ → Option T → Cached T → Option T × Cached T
get_at mtime loaded none = keep_loaded mtime loaded none
get_at mtime loaded (some (cached_mtime, value)) =
    if cached_mtime == mtime
    then (some value, some (cached_mtime, value))
    else keep_loaded mtime loaded (some (cached_mtime, value))

-- The file's modification time, if it is there, and what loading gives.
unfoldable pub get : {T : Type 0} → Option ℕ → Option T → Cached T → Option T × Cached T
get none loaded cached = (none, cached)
get (some mtime) loaded cached = get_at mtime loaded cached
