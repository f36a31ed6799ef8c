-- ===== src/Start/Front.antt =====
-- crates/zaphyl/src/main.rs, `spawn_http_front` and `config_path_from_args`: the front for plain HTTP that
-- a configuration asks for, and the file of the configuration that the arguments name.
use zaphyl.Prelude.{ℕ, ◌||◌, Option, none, some, List, [], ◌∷◌, unwrap_or, if◌then◌else◌}
use zaphyl.Str.{Str, lit, str_eq}
use zaphyl.Config.Types.{SocketAddr, Config, HttpRedirectConfig, AcmeConfig}
use zaphyl.HttpFront.{NonChallenge, redirect_to_https, not_found}

abbrev pub any_interface : SocketAddr
any_interface = record { ip = 0 ∷ 0 ∷ 0 ∷ 0 ∷ []; port = 80 }

abbrev pub challenge_front :
    Option SocketAddr → Option AcmeConfig → Option (SocketAddr × NonChallenge)
challenge_front env none = none
challenge_front env (some acme) = some (unwrap_or env any_interface, not_found)

abbrev pub front_of :
    ℕ
    → Option SocketAddr
    → Option AcmeConfig
    → Option HttpRedirectConfig
    → Option (SocketAddr × NonChallenge)
front_of https_port env acme (some http) = some (http.listen, redirect_to_https https_port)
front_of https_port env acme none = challenge_front env acme

-- The address of the environment, if it is set and is one.
unfoldable pub http_front : Config → Option SocketAddr → Option (SocketAddr × NonChallenge)
http_front config env = front_of config.listen.port env config.acme config.http

abbrev pub value_of : List Str → Option Str
value_of [] = none
value_of (value ∷ args) = some value

unfoldable pub find_config : List Str → Option Str
find_config [] = none
find_config (arg ∷ args) =
    let rest = find_config args in
    if str_eq arg (lit "--config") || str_eq arg (lit "-c") then value_of args else rest

-- The first argument is the program.
unfoldable pub config_path_from_args : List Str → Option Str
unfolding find_config
config_path_from_args [] = none
config_path_from_args (program ∷ args) = find_config args
