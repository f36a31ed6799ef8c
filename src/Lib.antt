-- ===== src/Lib.antt =====
-- Zaphyl, a reverse proxy: its core components, modelled from their Rust sources.
--
-- The proxy reads a configuration (crates/zaphyl-config), builds a router from it, and answers each
-- request in the phases that the framework Pingora calls (crates/zaphyl/src/main.rs): guards by client
-- and size, static files, plugins, the response cache, the choice of an upstream, and the filters on
-- what is sent and what comes back. The state machines behind the phases are in crates/zaphyl-core.
--
-- Files and the code they model:
--   Prelude, Str, HashMap   shared lemmas; the operations of Rust's str and HashMap that the code calls
--   RateLimit               crates/zaphyl-core/src/ratelimit.rs: RateLimiter::new, check
--   Access                  crates/zaphyl-core/src/access.rs: AccessControl::parse, is_empty, allows
--   Challenge               crates/zaphyl-core/src/acme.rs: ChallengeStore::insert, remove, response_for
--   Router                  crates/zaphyl-core/src/router.rs: Target, Route, Router and their methods
--   Router/Interleaved      the scan of Route::next_target, with other threads between its accesses
--   Router/Health           crates/zaphyl/src/main.rs: spawn_health_prober
--   Cache/Policy, Cache/Key crates/zaphyl-core/src/cache.rs: request_cacheable, response_ttl,
--                           if_none_match_satisfied, normalize_accept_encoding, ResponseCache::key
--   Cache/Store             crates/zaphyl-core/src/cache.rs: ResponseCache::new, lookup, get, put
--   Cache/Disk              the same file: DiskStore; in Format the codec of its files
--   Config/Types, Validate  crates/zaphyl-config/src/lib.rs: the tables, Config::validate
--   Config/Sites, Load      crates/zaphyl-config/src/sites.rs and lib.rs: SiteConfig, Config::load
--   Proxy                   crates/zaphyl/src/main.rs: RequestCtx, stored_ttl, is_uncacheable_header
--   Proxy/Body, Storing     request_body_filter, upstream_response_filter,
--                           upstream_response_body_filter
--   Proxy/Building, Guards  build_router; request_filter up to the limit on the declared length
--   Proxy/Filter            serve_cache_hit, try_serve_static; in Plugins try_run_plugins, in Caching the
--                           cache and the revalidation, in Phase request_filter as a whole
--   Proxy/Forwarding        upstream_peer, upstream_request_filter, response_filter
--   Proxy/Failing, Logging  fail_to_proxy, logging; crates/zaphyl/src/metrics.rs: record
--   Static                  crates/zaphyl-core/src/static_files.rs: StaticDir::resolve
--   Upstream                crates/zaphyl/src/upstream.rs: revalidate, fetch
--   Plugin                  crates/zaphyl-plugin/src/lib.rs: PluginHost, Plugin in Host, PluginChain;
--                           crates/zaphyl/src/plugins.rs: Plugins::build, chain, run
--   Http3                   crates/zaphyl/src/http3.rs: negotiate_encoding, accepts_coding,
--                           accumulate_cache_body, is_safe_method; in Serving response_head and the
--                           answers from files and the cache, in Cached the reading and storing, in
--                           Upload the request for the upstream, in Request proxy_request up to there,
--                           in Relay what it does with the response, in Connection handle_connection,
--                           in Encoder BodyEncoder, in Listener the settings of serve
--   Cli                     crates/zaphyl/src/cli.rs: detect_kind, is_local, write_site_toml and the
--                           commands that add, remove, enable and disable a site; in Commands the
--                           commands as a whole and the listing; Fields describes the lines of TOML
--                           that are written, on its own
--   Tls                     crates/zaphyl/src/tls.rs: ReloadCache; in Provider DynamicCert, and
--                           DynamicCertResolver of crates/zaphyl/src/http3.rs
--   Acme                    crates/zaphyl/src/acme.rs: needs_renewal, renewal_loop's decision, and the
--                           authorizations of run_order; in Order run_order, obtain, AcmeRunner::start
--                           and a round of renewal_loop
--   HttpFront               crates/zaphyl/src/http_front.rs: respond, redirect_to_https
--   Start                   crates/zaphyl/src/main.rs: in Front config_path_from_args and the front that
--                           spawn_http_front starts, in Bound wait_bound, in Listeners
--                           ZaphylProxy::new and what is handed to HTTP/3, in Main resolve_tls,
--                           build_server and main
--   Examples                concrete values at which the theorems are applied
--
-- A text is the list of its code points; a hash map is an association list. Counters and sizes are
-- natural numbers with the wrap-around of their width written out where the code can reach it; atomics
-- are cells of an explicit memory, and a mutex makes an operation one step. Router models Route::next_target as a call that no other
-- overlaps; in Router/Interleaved any other step can come before each of its increments and reads. Times are milliseconds, where
-- nothing else is said. An expiry beyond the last SystemTime, whose sum panics in Rust, is never stored
-- with a response of an upstream (in_range); that of a revalidated entry is taken without this bound.
-- A start runs the front for plain HTTP first, if its address can be bound, and the authority is told
-- by the front that runs as the order is placed. A file that cannot be written may be left in any state.
-- Fuel is that of Route::next_target, whose scan has as many rounds as the route has targets,
-- of the printing of a number, which has twenty rounds for the digits of 64 bits, and of wait_bound,
-- whose rounds take 20 milliseconds at least and stop behind three seconds.
--
-- Arguments of the model: the networks of ipnet and std::net (IpLib), the TOML parsers (Toml, Parsers),
-- the parsers of the crate http (Http) and the statuses it can send, the file system (FileSystem, Files,
-- the outcome of a write), the hash that names the files of the cache, the HTTP client (Client), the
-- WebAssembly runtime (Wasm), the compressors (Codec), the readers of PEM files of BoringSSL (Pem) and of
-- rustls (Rustls), what a certificate
-- authority answers (Authority), what a probe can reach. Proxy/Filter/Phase gathers those of a request in
-- one record, Outside, and Start/Machine those of a start in another.
-- Not modelled: the QUIC and TLS handshakes, the parsing of certificates and the signing of requests to
-- the authority, which are those of libraries; the threads themselves, whose steps are modelled one by
-- one; the sizes of reads and writes on sockets; all messages; the vendored pingora-proxy. A reply counts
-- as written: an error of the connection to the client ends a request and changes nothing else.
pub mod Prelude
pub mod Str
pub mod HashMap
pub mod RateLimit
pub mod Access
pub mod Challenge
pub mod Router
pub mod Cache
pub mod Config
pub mod Proxy
pub mod Static
pub mod Upstream
pub mod Plugin
pub mod Http3
pub mod Cli
pub mod Tls
pub mod HttpFront
pub mod Acme
pub mod Start
pub mod Examples
