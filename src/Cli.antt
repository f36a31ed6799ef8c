-- ===== src/Cli.antt =====
-- crates/zaphyl/src/cli.rs: the commands on managed sites, without what they print. The file system is
-- as it is when a command starts; what a command writes or removes is part of its result. Paths, the
-- parsing of addresses and TOML are arguments.
pub mod Quoted
pub mod Written
pub mod Commands
pub mod Fields
use zaphyl.Prelude.{
  Bool, true, false, not, ◌&&◌, ◌||◌, Option, none, some, List, [], ◌∷◌, ◌++◌, ◌==◌, if◌then◌else◌,
  is_some, unwrap_or, ℕ, Result, ok, err,
}
use zaphyl.Str.{Str, lit, str_eq, ends_with}
use zaphyl.Config.Sites.{SiteConfig, SiteKind, static, php, app, SiteTls, auto, off}

-- `s.replace(c, by)` for a single character.
unfoldable pub replace : ℕ → Str → Str → Str
replace c by [] = []
replace c by (d ∷ s) = let rest = replace c by s in if d == c then by ++ rest else d ∷ rest

abbrev pub quote : ℕ
quote = 0x22

abbrev pub backslash : ℕ
backslash = 0x5c

unfoldable pub toml_escape : Str → Str
unfolding replace
toml_escape s =
    replace quote (backslash ∷ quote ∷ []) (replace backslash (backslash ∷ backslash ∷ []) s)

abbrev pub kind_str : SiteKind → Str
kind_str static = lit "static"
kind_str php = lit "php"
kind_str app = lit "app"

-- `name = "value"` and the end of the line.
abbrev pub quoted_line : Str → Str → Str
quoted_line name value = name ++ (lit " = " ++ quote ∷ (value ++ quote ∷ 0xa ∷ []))

abbrev pub optional_line : Str → Option Str → Str
optional_line name none = []
optional_line name (some value) = quoted_line name (toml_escape value)

unfoldable pub write_site_toml : Str → Str → SiteKind → Bool → Option Str → Option Str → Str
unfolding toml_escape
write_site_toml domain root kind tls_off upstream fpm =
    quoted_line (lit "domain") (toml_escape domain)
    ++ (quoted_line (lit "root") (toml_escape root)
        ++ (quoted_line (lit "type") (kind_str kind)
            ++ (quoted_line (lit "tls") (if tls_off then lit "off" else lit "auto")
                ++ (optional_line (lit "app") upstream ++ optional_line (lit "php_fpm") fpm))))

pub record SiteAddOpts (P : Type 0) : Type 0 where
  pub root : Option P
  pub app : Option Str
  pub force_php : Bool
  pub force_static : Bool
  pub no_tls : Bool
  pub force : Bool

pub record Files (P : Type 0) : Type 0 where
  pub join : P → Str → P
  pub show : P → Str
  pub of_text : Str → P
  pub exists : P → Bool
  pub is_dir : P → Bool
  pub read : P → Option Str
  -- Whether the operation succeeds.
  pub create_dir_all : P → Bool
  pub write : P → Str → Bool
  pub remove_file : P → Bool

pub record Parsers : Type 0 where
  pub is_ip : Str → Bool
  pub from_toml : Str → Option SiteConfig

-- What a command has done to the file of a site.
pub data Done (P : Type 0) : Type 0 where
  failure : Done P
  written : P → Str → Done P
  removed : P → Done P

unfoldable pub is_local : Parsers → Str → Bool
is_local parsers domain =
    str_eq domain (lit "localhost")
    || ends_with (lit ".local") domain
    || ends_with (lit ".test") domain
    || parsers.is_ip domain

abbrev pub is_php : SiteKind → Bool
is_php php = true
is_php static = false
is_php app = false

module _ (parsers : Parsers) {P : Type 0} (fs : Files P) where
  unfoldable pub detect_kind : P → SiteKind
  detect_kind root =
      if fs.exists (fs.join root (lit "composer.json")) && fs.is_dir (fs.join root (lit "public"))
      then php
      else if fs.exists (fs.join root (lit "index.php"))
      then php
      else static

  abbrev pub kind_for : SiteAddOpts P → P → SiteKind
  kind_for opts root =
      if is_some opts.app
      then app
      else if opts.force_php
      then php
      else if opts.force_static
      then static
      else detect_kind root

  abbrev pub served_root : SiteKind → P → P
  served_root kind root =
      if is_php kind && fs.is_dir (fs.join root (lit "public"))
      then fs.join root (lit "public")
      else root

  abbrev pub site_file : P → Str → P
  site_file sites_dir domain = fs.join sites_dir (domain ++ lit ".toml")

  abbrev pub write_file : P → Str → Done P
  write_file path text = if fs.write path text then written path text else failure

  unfoldable pub run_site_add_inner : Str → SiteAddOpts P → P → P → Done P
  unfolding detect_kind is_local
  run_site_add_inner domain opts sites_dir webroot_base =
      let root = unwrap_or opts.root (fs.join webroot_base domain) in
      let kind = kind_for opts root in
      let tls_off = opts.no_tls || is_local parsers domain in
      if not (fs.create_dir_all sites_dir)
      then failure
      else if fs.exists (site_file sites_dir domain) && not opts.force
      then failure
      else if not (fs.create_dir_all root)
      then failure
      else write_file (site_file sites_dir domain)
          (write_site_toml domain (fs.show (served_root kind root)) kind tls_off opts.app none)

  unfoldable pub run_site_remove : P → Str → Done P
  run_site_remove sites_dir domain =
      if not (fs.exists (site_file sites_dir domain))
      then failure
      else if fs.remove_file (site_file sites_dir domain)
      then removed (site_file sites_dir domain)
      else failure

  abbrev pub is_off : SiteTls → Bool
  is_off off = true
  is_off auto = false

  unfoldable pub enabled_text : SiteConfig → Bool → Str
  unfolding write_site_toml
  enabled_text site enabled =
      write_site_toml site.domain (fs.show (fs.of_text site.root)) site.kind (is_off site.tls)
        site.app site.php_fpm
      ++ (lit "enabled = " ++ (if enabled then lit "true" else lit "false") ++ 0xa ∷ [])

  abbrev pub rewrite_site : P → Bool → Option SiteConfig → Done P
  rewrite_site path enabled none = failure
  rewrite_site path enabled (some site) = write_file path (enabled_text site enabled)

  abbrev pub parse_site : P → Bool → Option Str → Done P
  parse_site path enabled none = failure
  parse_site path enabled (some body) = rewrite_site path enabled (parsers.from_toml body)

  unfoldable pub run_site_set_enabled : P → Str → Bool → Done P
  unfolding enabled_text
  run_site_set_enabled sites_dir domain enabled =
      parse_site (site_file sites_dir domain) enabled (fs.read (site_file sites_dir domain))
