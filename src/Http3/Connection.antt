-- ===== src/Http3/Connection.antt =====
-- crates/zaphyl/src/http3.rs, `handle_connection`: one connection, whose requests may come before its
-- handshake is done. A request reads the flag of the handshake once, at its start.
pub mod Replay
use zaphyl.Prelude.{
  ℕ, ◌*◌, Bool, true, false, not, Option, none, some, List, [], ◌∷◌, unwrap_or, Result, ok, err,
}
use zaphyl.Str.{Str}
use zaphyl.Proxy.Forwarding.{RequestHeader}
use zaphyl.Proxy.Filter.Phase.{Outside}
use zaphyl.Http3.Request.{Outcome, World, Arrival, Front, proxy_request}

abbrev pub default_max_header_bytes : ℕ
default_max_header_bytes = 64 * 1024

-- `.max_field_section_size`, from the limits.
abbrev pub max_header_bytes : Option ℕ → ℕ
max_header_bytes limit = unwrap_or limit default_max_header_bytes

-- What accepting a connection gives: early data, as the client resumes a session, or the end of a full
-- handshake, which may fail.
pub data Accepted : Type 0 where
  early_data : Accepted
  full_handshake : Result Str (Unit {0}) → Accepted

-- The flag that the requests of the connection share.
unfoldable pub handshake_flag : Accepted → Result Str Bool
handshake_flag early_data = ok false
handshake_flag (full_handshake (ok done)) = ok true
handshake_flag (full_handshake (err e)) = err e

module _ (o : Outside) where
  -- A request as it is resolved.
  pub record Message : Type 0 where
    pub request : RequestHeader
    pub host : Option Str
    pub chunks : List (List ℕ)
    pub now : ℕ

  abbrev pub arrival : o.ip.IpAddr → Bool → Message → Arrival o
  arrival client_ip handshake_done m = record {
    request = m.request;
    host = m.host;
    client_ip = client_ip;
    is_early = not handshake_done;
    chunks = m.chunks;
    now = m.now;
  }

  module _ (D : Type 0) where
    -- The log has the requests so far, the last one first, each with what the fronts share as it
    -- came; and what came of it, with what they share behind it.
    pub record Connection : Type 0 where
      pub handshake_done : Bool
      pub world : World D
      pub log : List ((Arrival o × World D) × (Result Str Outcome × World D))

    module _ (f : Front o D) (client_ip : o.ip.IpAddr) where
      unfoldable pub serve : Message → Connection → Connection
      serve m c =
          let a = arrival client_ip c.handshake_done m in
          let (result, world) = proxy_request o D f a c.world in
          record c { world = world; log = ((a, c.world), (result, world)) ∷ c.log }

      -- The handshake ends; a request is served; other connections change what they share.
      pub data Step (c : Connection) : Connection → Type 0 where
        completes : Step c (record c { handshake_done = true })
        serves : (m : Message) → Step c (serve m c)
        elsewhere : (w : World D) → Step c (record c { world = w })

      -- The states of a connection that was accepted with this flag.
      pub data Reach (flag : Bool) (w : World D) : Connection → Type 0 where
        start : Reach flag w (record { handshake_done = flag; world = w; log = [] })
        later : {c c' : Connection} → Reach flag w c → Step c c' → Reach flag w c'
