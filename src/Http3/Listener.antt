-- ===== src/Http3/Listener.antt =====
-- crates/zaphyl/src/http3.rs, `serve`: what the listener for HTTP/3 is set to, if it comes up. Whether the
-- settings for TLS are taken, and whether the address can be bound, is told by the libraries.
use zaphyl.Prelude.{
  ℕ, ◌^◌, ◌-◌, Bool, Option, none, some, List, [], ◌∷◌, if◌then◌else◌, Result, ok, err,
}
use zaphyl.Str.{Str, lit}

pub record Settings : Type 0 where
  pub alpn_protocols : List Str
  pub max_early_data_size : ℕ

abbrev pub settings : Settings
settings = record { alpn_protocols = lit "h3" ∷ []; max_early_data_size = 2 ^ 32 - 1 }

-- The certificate has to be there at the start, though it is read again for each handshake.
unfoldable pub serve : {C : Type 0} → Option C → Bool → Bool → Result Str Settings
serve none takes binds = err (lit "failed to load HTTP/3 certificate")
serve (some certificate) takes binds =
    if takes then if binds then ok settings else err (lit "bind") else err (lit "tls")
