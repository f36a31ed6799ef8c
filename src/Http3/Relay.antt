-- ===== src/Http3/Relay.antt =====
-- crates/zaphyl/src/http3.rs, `proxy_request`: what is done with the response of the upstream. The body
-- goes to the client chunk by chunk, through an encoder where one was chosen.
pub mod Kept
use zaphyl.Prelude.{ℕ, Bool, Option, none, some, List}
use zaphyl.Str.{Str}
use zaphyl.Router.{Route}
use zaphyl.Cache.Store.{ResponseCache, DiskTier}
use zaphyl.Proxy.{HeaderMap, ResponseHeader}
use zaphyl.Proxy.Forwarding.{Http}
use zaphyl.Http3.{Encoding}
use zaphyl.Http3.Cached.{store_response}
use zaphyl.Http3.Request.{relayed, encoding_for, encoded_head}

-- What the client gets: the head, the coding of the body, and the chunks before they are encoded.
pub record Relayed : Type 0 where
  pub head : ResponseHeader
  pub encoding : Option Encoding
  pub chunks : List (List ℕ)

module _ (http : Http) (is_zero_float : Str → Bool) {D : Type 0} (disk : Option (DiskTier D))
    (compression_level : Option ℕ) (cache_max_body : ℕ) where
  -- The whole body has come, and has been sent, by `now`.
  unfoldable pub relay :
      Option Str
      → Route
      → HeaderMap
      → ℕ
      → ResponseHeader
      → List (List ℕ)
      → ResponseCache × D
      → Relayed × (ResponseCache × D)
  relay cache_key route request now response chunks cache =
      let r = relayed http route response in
      let encoding = encoding_for is_zero_float compression_level request r in
      (
        record { head = encoded_head encoding r; encoding = encoding; chunks = chunks },
        store_response disk cache_key cache_max_body now r chunks cache,
      )
