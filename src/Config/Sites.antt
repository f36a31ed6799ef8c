-- ===== src/Config/Sites.antt =====
-- crates/zaphyl-config/src/sites.rs: one managed site, and the route and domain that it contributes.
use zaphyl.Prelude.{Bool, true, false, Option, none, some, List, [], ◌∷◌, if◌then◌else◌}
use zaphyl.Str.{Str}
use zaphyl.Config.Types.{RouteConfig}

pub data SiteKind : Type 0 where
  static php app : SiteKind

pub data SiteTls : Type 0 where
  auto off : SiteTls

abbrev pub default_enabled : Bool
default_enabled = true

pub record SiteConfig : Type 0 where
  pub domain : Str
  pub root : Str
  pub kind : SiteKind
  pub tls : SiteTls
  pub app : Option Str
  pub php_fpm : Option Str
  pub enabled : Bool

-- `match (self.kind, &self.app)`.
unfoldable pub upstream_of : SiteKind → Option Str → List Str
upstream_of SiteKind.app (some upstream) = upstream ∷ []
upstream_of _ _ = []

-- The route of a site that is enabled.
unfoldable pub site_route : SiteConfig → RouteConfig
unfolding upstream_of
site_route site = record {
  host = some site.domain;
  path = none;
  upstream = upstream_of site.kind site.app;
  root = some site.root;
  tls = false;
  strip_prefix = false;
  request_headers = [];
  response_headers = [];
  grpc = false;
  plugins = [];
}

unfoldable pub to_route : SiteConfig → Option RouteConfig
unfolding site_route
to_route site = if site.enabled then some (site_route site) else none

abbrev pub wants_tls : SiteTls → Bool
wants_tls auto = true
wants_tls off = false

unfoldable pub tls_domain : SiteConfig → Option Str
tls_domain site =
    if site.enabled then if wants_tls site.tls then some site.domain else none else none
