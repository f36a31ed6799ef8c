-- ===== src/Cli/Commands.antt =====
-- crates/zaphyl/src/cli.rs, `Cli`, `run_site`, `run_site_list` and `run_reload`: the commands, and the
-- exit code that each ends with.
use zaphyl.Prelude.{
  ℕ, Bool, true, false, Option, none, some, List, [], ◌∷◌, ◌++◌, and_then, unwrap_or, is_some_and,
  if◌then◌else◌,
}
use zaphyl.Str.{Str, lit, str_eq}
use zaphyl.Config.Sites.{SiteConfig}
use zaphyl.Cli.{
  Parsers, Files, Done, failure, written, removed, SiteAddOpts, kind_str, run_site_add_inner,
  run_site_remove, run_site_set_enabled,
}

pub data SiteCmd (P : Type 0) : Type 0 where
  add : Str → SiteAddOpts P → SiteCmd P
  list_sites : SiteCmd P
  remove enable disable : Str → SiteCmd P

pub data Command (P : Type 0) : Type 0 where
  run reload : Command P
  site : SiteCmd P → Command P

pub record Cli (P : Type 0) : Type 0 where
  pub config : Option Str
  pub command : Option (Command P)

-- What is read from the environment, and from the directory of the sites.
pub record Sites (P : Type 0) : Type 0 where
  pub sites_dir : Option P
  pub webroot_base : Option P
  pub read_dir : P → Option (List P)
  pub extension : P → Option Str
  pub sort : List P → List P

-- What a command has come to: what became of a site's file, or the lines of the listing, if the
-- directory can be read.
pub data Ran (P : Type 0) : Type 0 where
  changed : Done P → Ran P
  listed : Option (List Str) → Ran P

abbrev pub done_code : {P : Type 0} → Done P → ℕ
done_code failure = 1
done_code (written path text) = 0
done_code (removed path) = 0

abbrev pub exit_code : {P : Type 0} → Ran P → ℕ
exit_code (changed done) = done_code done
exit_code (listed none) = 1
exit_code (listed (some lines)) = 0

-- `run_reload` prints what to do, in either case.
abbrev pub run_reload : ℕ
run_reload = 0

abbrev pub status_of : SiteConfig → Str
status_of s = if s.enabled then lit "enabled" else lit "DISABLED"

abbrev pub line_of : SiteConfig → Str
line_of s = s.domain ++ (lit " [" ++ (kind_str s.kind ++ (lit "] (" ++ (status_of s ++ lit ")"))))

module _ (parsers : Parsers) {P : Type 0} (fs : Files P) (sites : Sites P) where
  abbrev pub sites_dir : P
  sites_dir = unwrap_or sites.sites_dir (fs.of_text (lit "/etc/zaphyl/sites"))

  abbrev pub webroot_base : P
  webroot_base = unwrap_or sites.webroot_base (fs.of_text (lit "/var/www"))

  abbrev pub push_line : Option SiteConfig → List Str → List Str
  push_line none lines = lines
  push_line (some s) lines = line_of s ∷ lines

  -- A file that cannot be read or parsed is passed over.
  pub lines_of : List P → List Str
  lines_of [] = []
  lines_of (path ∷ paths) =
      push_line (and_then (fs.read path) (λ body. parsers.from_toml body)) (lines_of paths)

  abbrev pub is_toml : P → Bool
  is_toml path = is_some_and (sites.extension path) (λ x. str_eq x (lit "toml"))

  pub toml_paths : List P → List P
  toml_paths [] = []
  toml_paths (path ∷ paths) =
      let rest = toml_paths paths in if is_toml path then path ∷ rest else rest

  abbrev pub list_of : Option (List P) → Option (List Str)
  list_of none = none
  list_of (some paths) = some (lines_of (sites.sort (toml_paths paths)))

  unfoldable pub run_site_list : Option (List Str)
  unfolding lines_of toml_paths
  run_site_list = list_of (sites.read_dir sites_dir)

  unfoldable pub run_site : SiteCmd P → Ran P
  unfolding run_site_list
  run_site (add domain opts) =
      changed (run_site_add_inner parsers fs domain opts sites_dir webroot_base)
  run_site list_sites = listed run_site_list
  run_site (remove domain) = changed (run_site_remove parsers fs sites_dir domain)
  run_site (enable domain) = changed (run_site_set_enabled parsers fs sites_dir domain true)
  run_site (disable domain) = changed (run_site_set_enabled parsers fs sites_dir domain false)
