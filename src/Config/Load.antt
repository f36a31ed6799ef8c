-- ===== src/Config/Load.antt =====
-- crates/zaphyl-config/src/lib.rs, `Config::load` and `Config::from_toml`: the main file, then the
-- site files in the order of their paths. The TOML parsers and the file system are arguments: `files`
-- holds, for each `*.toml` of the sites directory in sorted order, its path, and its text or the error
-- of reading it.
use zaphyl.Prelude.{
  Bool, true, false, Option, none, some, List, [], ◌∷◌, ◌++◌, if◌then◌else◌, any, Result, ok, err,
  try,
}
use zaphyl.Str.{Str, lit, str_eq}
use zaphyl.Config.Types.{AcmeConfig, RouteConfig, Config, ConfigError, invalid}
use zaphyl.Config.Validate.{validate}
use zaphyl.Config.Sites.{SiteConfig, to_route, tls_domain}
pub mod Merge

-- The parsers that the crate `toml` derives.
pub record Toml : Type 0 where
  pub parse_config : Str → Result ConfigError Config
  pub parse_site : Str → Result ConfigError SiteConfig

abbrev pub push_some : Option Str → List Str → List Str
push_some none xs = xs
push_some (some x) xs = x ∷ xs

abbrev pub push_route : Option RouteConfig → List RouteConfig → List RouteConfig
push_route none rs = rs
push_route (some r) rs = r ∷ rs

-- `if !acme.domains.contains(&d) { acme.domains.push(d) }`, for each domain.
pub add_domains : List Str → List Str → List Str
add_domains domains [] = domains
add_domains domains (d ∷ ds) =
    add_domains (if any (λ x. str_eq x d) domains then domains else domains ++ d ∷ []) ds

abbrev pub merge_acme : Option AcmeConfig → List Str → Option AcmeConfig
merge_acme none ds = none
merge_acme (some acme) ds = some (record acme { domains = add_domains acme.domains ds })

-- The routes and the domains of the sites, in order.
pub site_routes : List SiteConfig → List RouteConfig
site_routes [] = []
site_routes (site ∷ sites) = push_route (to_route site) (site_routes sites)

unfoldable pub site_domains : List SiteConfig → List Str
site_domains [] = []
site_domains (site ∷ sites) = push_some (tls_domain site) (site_domains sites)

pub merge : Config → List SiteConfig → Config
unfolding site_routes site_domains add_domains
merge config sites = record config {
  routes = site_routes sites ++ config.routes;
  acme = merge_acme config.acme (site_domains sites);
}

abbrev pub cannot_read : Str → Str → ConfigError
cannot_read path e = invalid (lit "cannot read " ++ (path ++ (lit ": " ++ e)))

module _ (toml : Toml) where
  pub from_toml : Str → Result ConfigError Config
  from_toml input = try (toml.parse_config input) (λ config. try (validate config) (λ _. ok config))

  -- A site file that cannot be read, or does not parse, ends the loading.
  pub load_sites : List (Str × Result Str Str) → Result ConfigError (List SiteConfig)
  load_sites [] = ok []
  load_sites ((path, err e) ∷ files) = err (cannot_read path e)
  load_sites ((path, ok body) ∷ files) =
      try (toml.parse_site body) (λ site. try (load_sites files) (λ sites. ok (site ∷ sites)))

  unfoldable pub load :
      Str → Result Str Str → List (Str × Result Str Str) → Result ConfigError Config
  unfolding from_toml load_sites merge
  load main (err e) files = err (cannot_read main e)
  load main (ok text) files =
      try (from_toml text) (λ config. try (load_sites files) (λ sites. ok (merge config sites)))
