-- ===== src/Examples/Commands.antt =====
-- Disabling a managed site, where a path is its text.
use zaphyl.Prelude.{◌≡◌, refl, true, false, some, ◌++◌}
use zaphyl.Str.{Str, lit}
use zaphyl.Cli.{Files, Parsers, site_file, write_file, run_site_set_enabled}
use zaphyl.Cli.Fields.{Fields, Reads, site_of}
use zaphyl.Cli.Fields.Kept.{run_site_set_enabled-keeps}
use zaphyl.Examples.Configuration.{static_site}

abbrev tree : Files Str
tree = record {
  join = λ dir name. dir ++ (lit "/" ++ name);
  show = λ path. path;
  of_text = λ text. text;
  exists = λ path. true;
  is_dir = λ path. true;
  read = λ path. some (lit "site");
  create_dir_all = λ path. true;
  write = λ path text. true;
  remove_file = λ path. true;
}

abbrev parsers : Parsers
parsers = record { is_ip = λ domain. false; from_toml = λ body. some static_site }

run_site_set_enabled-keeps_example :
    (text : Str) × (fields : Fields) × (run_site_set_enabled parsers tree
        (lit "sites")
        (lit "b.example")
        false
      ≡ write_file parsers tree (site_file parsers tree (lit "sites") (lit "b.example")) text)
    × Reads text fields
    × (site_of fields ≡ some (record static_site { enabled = false }))
run_site_set_enabled-keeps_example =
    run_site_set_enabled-keeps parsers tree (lit "sites") (lit "b.example") (lit "site") static_site
      false refl refl refl
      (refl, (refl, (refl, (refl, (refl, (refl, (refl, (refl, (refl, tt)))))))))
      (refl, (refl, (refl, (refl, (refl, (refl, tt)))))) tt tt
