-- ===== src/Examples/Configuration.antt =====
-- A configuration with one route and certificates from ACME, and managed sites.
use zaphyl.Prelude.{true, false, refl, none, some, [], ◌∷◌}
use zaphyl.Str.{Str, lit}
use zaphyl.Config.Types.{AcmeConfig, RouteConfig, Config}
use zaphyl.Config.Sites.{upstream_of, SiteKind, SiteTls, SiteConfig, site_route}
use zaphyl.Config.Validate.{refuse, validate}
use zaphyl.Config.Validate.Sound.{IsRoute, IsValid, validate-IsValid}
use zaphyl.Config.Load.{site_domains, merge}
use zaphyl.Config.Load.Merge.{site_route-not-IsRoute, merge-IsValid}

abbrev backend : RouteConfig
backend = record {
  host = none;
  path = some (lit "/api");
  upstream = lit "10.0.0.1:80" ∷ [];
  root = none;
  tls = false;
  strip_prefix = true;
  request_headers = [];
  response_headers = [];
  grpc = false;
  plugins = [];
}

abbrev pub certificates : AcmeConfig
certificates = record {
  domains = lit "a.example" ∷ [];
  email = lit "ops@a.example";
  directory = lit "https://acme.example";
  cache_dir = lit "./acme";
  renew_before_days = 30;
  check_interval_seconds = 60;
}

abbrev pub main : Config
main = record {
  listen = record { ip = []; port = 443 };
  worker_threads = none;
  shutdown_grace_seconds = none;
  tls = none;
  acme = some certificates;
  metrics = none;
  rate_limit = none;
  health_check = none;
  limits = none;
  access = none;
  compression = none;
  cache = none;
  plugins = none;
  http3 = none;
  http = none;
  response_headers = [];
  routes = backend ∷ [];
}

abbrev pub static_site : SiteConfig
static_site = record {
  domain = lit "b.example";
  root = lit "/srv/b";
  kind = SiteKind.static;
  tls = SiteTls.auto;
  app = none;
  php_fpm = none;
  enabled = true;
}

abbrev app_site : SiteConfig
app_site = record {
  domain = lit "c.example";
  root = lit "/srv/c";
  kind = SiteKind.app;
  tls = SiteTls.auto;
  app = some (lit "127.0.0.1:9000");
  php_fpm = none;
  enabled = true;
}

validate-IsValid_example : IsValid main
unfolding validate refuse zaphyl.Str.trim zaphyl.Str.rsplit_once zaphyl.Str.parse_uint
    zaphyl.Str.starts_with
validate-IsValid_example = validate-IsValid main refl

merge-IsValid_example : IsValid (merge main (static_site ∷ []))
unfolding site_domains upstream_of zaphyl.Config.Sites.tls_domain zaphyl.Str.trim validate refuse
    zaphyl.Str.rsplit_once zaphyl.Str.parse_uint zaphyl.Str.starts_with
merge-IsValid_example =
    merge-IsValid main (static_site ∷ []) (refl, tt) ((λ e. cc), tt) (validate-IsValid main refl)

site_route-not-IsRoute_example : ¬ IsRoute (site_route app_site)
unfolding upstream_of
site_route-not-IsRoute_example = site_route-not-IsRoute app_site (λ e. cc)
