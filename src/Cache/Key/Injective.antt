-- ===== src/Cache/Key/Injective.antt =====
-- Different hosts, paths or canonical codings give different keys.
use zaphyl.Prelude.{false, ◌≡◌, sym, ◌∙◌, Option, ◌∷◌, ◌++◌, append_assoc}
use zaphyl.Str.{Str, contains}
use zaphyl.Str.Laws.{append-cons_unique}
use zaphyl.Cache.Key.{normalize_accept_encoding, key, unit_separator}

-- Two requests share a key only if they have the same host, the same path and query, and the same
-- canonical codings, for hosts that hold no slash, paths that begin with one, and neither with a
-- unit separator.
pub key_injective :
    (host host' path path' : Str) (h h' : Option Str)
    → contains b'/' host ≡ false
    → contains b'/' host' ≡ false
    → contains unit_separator (host ++ b'/' ∷ path) ≡ false
    → contains unit_separator (host' ++ b'/' ∷ path') ≡ false
    → key host (b'/' ∷ path) h ≡ key host' (b'/' ∷ path') h'
    → (host ≡ host') × (path ≡ path') × (normalize_accept_encoding h ≡ normalize_accept_encoding h')
unfolding key
key_injective host host' path path' h h' plain plain' clean clean' e =
    let (whole, codings) =
      append-cons_unique unit_separator (host ++ b'/' ∷ path) (host' ++ b'/' ∷ path') _ _ clean
        clean'
        (append_assoc host (b'/' ∷ path) _ ∙ e ∙ sym (append_assoc host' (b'/' ∷ path') _)) in
    let (hosts, paths) = append-cons_unique b'/' host host' path path' plain plain' whole in
    (hosts, paths, codings)
