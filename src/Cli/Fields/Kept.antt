-- ===== src/Cli/Fields/Kept.antt =====
-- That enabling or disabling a site keeps the rest of it.
use zaphyl.Prelude.{
  ◌≡◌, refl, ◌∙◌, sym, ap, subst, Bool, true, false, Option, none, some, [], ◌∷◌, ◌++◌, All,
  append_assoc, if◌then◌else◌,
}
use zaphyl.Str.{Str, lit, str_eq}
use zaphyl.Config.Sites.{SiteKind, static, php, app, SiteTls, auto, off, SiteConfig}
use zaphyl.Cli.{
  write_file, site_file, run_site_set_enabled, quote, toml_escape, replace, quoted_line,
  optional_line, kind_str, write_site_toml, enabled_text, Files, Parsers, is_off,
}
use zaphyl.Cli.Quoted.{is_control, read_basic-toml_escape}
use zaphyl.Cli.Fields.{
  as_flag, tls_of, kind_of, as_text, text, flag, Fields, bool_str, is_bare, key_is, Reads, no_line,
  text_line, flag_line, field, site_of,
}

abbrev pub IsPlain : Str → Type 0
IsPlain s = All (λ c. is_control c ≡ false) s

quoted_line-append :
    (name value rest : Str)
    → key_is name ++ quote ∷ (value ++ quote ∷ 0xa ∷ rest) ≡ quoted_line name value ++ rest
quoted_line-append name value rest =
    append_assoc name (lit " = ") (quote ∷ (value ++ quote ∷ 0xa ∷ rest))
    ∙ sym (
        append_assoc name (lit " = " ++ quote ∷ (value ++ quote ∷ 0xa ∷ [])) rest
        ∙ ap (λ (t : Str). name ++ (lit " = " ++ quote ∷ t))
            (append_assoc value (quote ∷ 0xa ∷ []) rest))

quoted_line-Reads :
    (name value rest : Str) (fields : Fields)
    → is_bare name ≡ true
    → IsPlain value
    → Reads rest fields
    → Reads (quoted_line name (toml_escape value) ++ rest) ((name, text value) ∷ fields)
quoted_line-Reads name value rest fields bare plain reads =
    subst (λ t. Reads t ((name, text value) ∷ fields))
      (quoted_line-append name (toml_escape value) rest)
      (text_line name value (toml_escape value ++ quote ∷ 0xa ∷ rest) rest fields bare
        (read_basic-toml_escape value (0xa ∷ rest) plain) reads)

abbrev optional_field : Str → Option Str → Fields → Fields
optional_field name none fields = fields
optional_field name (some value) fields = (name, text value) ∷ fields

abbrev pub IsPlainIf : Option Str → Type 0
IsPlainIf none = Unit {0}
IsPlainIf (some s) = IsPlain s

optional_line-Reads :
    (name : Str) (value : Option Str) (rest : Str) (fields : Fields)
    → is_bare name ≡ true
    → IsPlainIf value
    → Reads rest fields
    → Reads (optional_line name value ++ rest) (optional_field name value fields)
optional_line-Reads name none rest fields bare plain reads = reads
optional_line-Reads name (some value) rest fields bare plain reads =
    quoted_line-Reads name value rest fields bare plain reads

abbrev tls_str : SiteTls → Str
tls_str off = lit "off"
tls_str auto = lit "auto"

-- The fields of a site, as its file lists them.
abbrev pub fields_of : SiteConfig → Bool → Fields
fields_of s enabled =
    (lit "domain", text s.domain)
    ∷ (lit "root", text s.root)
    ∷ (lit "type", text (kind_str s.kind))
    ∷ (lit "tls", text (tls_str s.tls))
    ∷ optional_field (lit "app") s.app
        (optional_field (lit "php_fpm") s.php_fpm ((lit "enabled", flag enabled) ∷ []))

kind_of-kind_str : (k : SiteKind) → kind_of (kind_str k) ≡ some k
unfolding str_eq
kind_of-kind_str static = refl
kind_of-kind_str php = refl
kind_of-kind_str app = refl

tls_of-tls_str : (t : SiteTls) → tls_of (some (tls_str t)) ≡ t
unfolding str_eq
tls_of-tls_str auto = refl
tls_of-tls_str off = refl

abbrev tail_fields : Option Str → Option Str → Bool → Fields
tail_fields app_ fpm enabled =
    optional_field (lit "app") app_
      (optional_field (lit "php_fpm") fpm ((lit "enabled", flag enabled) ∷ []))

field-tail_fields :
    (app_ fpm : Option Str) (enabled : Bool)
    → (as_text (field (lit "app") (tail_fields app_ fpm enabled)) ≡ app_)
      × (as_text (field (lit "php_fpm") (tail_fields app_ fpm enabled)) ≡ fpm)
      × (as_flag (field (lit "enabled") (tail_fields app_ fpm enabled)) ≡ some enabled)
unfolding field str_eq
field-tail_fields none none enabled = (refl, refl, refl)
field-tail_fields none (some fpm) enabled = (refl, refl, refl)
field-tail_fields (some a) none enabled = (refl, refl, refl)
field-tail_fields (some a) (some fpm) enabled = (refl, refl, refl)

site_of-fields_of :
    (s : SiteConfig) (enabled : Bool)
    → site_of (fields_of s enabled) ≡ some (record s { enabled = enabled })
unfolding site_of field str_eq
site_of-fields_of s enabled =
    let (is_app, is_fpm, is_enabled) = field-tail_fields s.app s.php_fpm enabled in
    rw (kind_of-kind_str s.kind, tls_of-tls_str s.tls) (rw (is_app, is_fpm, is_enabled) refl)

nested_append :
    (a b c d e f l : Str)
    → (a ++ (b ++ (c ++ (d ++ (e ++ f))))) ++ l ≡ a ++ (b ++ (c ++ (d ++ (e ++ (f ++ l)))))
nested_append a b c d e f l = simp (append_assoc)

escaped_kind : (k : SiteKind) → toml_escape (kind_str k) ≡ kind_str k
unfolding toml_escape replace
escaped_kind static = refl
escaped_kind php = refl
escaped_kind app = refl

kind_str-IsPlain : (k : SiteKind) → IsPlain (kind_str k)
kind_str-IsPlain static = (refl, (refl, (refl, (refl, (refl, (refl, tt))))))
kind_str-IsPlain php = (refl, (refl, (refl, tt)))
kind_str-IsPlain app = (refl, (refl, (refl, tt)))

tls_str-IsPlain : (t : SiteTls) → IsPlain (tls_str t)
tls_str-IsPlain off = (refl, (refl, (refl, tt)))
tls_str-IsPlain auto = (refl, (refl, (refl, (refl, tt))))

module _ (parsers : Parsers) {P : Type 0} (fs : Files P) where
  escaped_tls :
      (t : SiteTls)
      → (if is_off parsers fs t then lit "off" else lit "auto") ≡ toml_escape (tls_str t)
  unfolding toml_escape replace
  escaped_tls off = refl
  escaped_tls auto = refl

  abbrev lines : SiteConfig → Bool → Str
  lines s enabled =
      quoted_line (lit "domain") (toml_escape s.domain)
      ++ (quoted_line (lit "root") (toml_escape s.root)
          ++ (quoted_line (lit "type") (toml_escape (kind_str s.kind))
              ++ (quoted_line (lit "tls") (toml_escape (tls_str s.tls))
                  ++ (optional_line (lit "app") s.app
                      ++ (optional_line (lit "php_fpm") s.php_fpm
                          ++ (key_is (lit "enabled") ++ (bool_str enabled ++ 0xa ∷ [])))))))

  enabled_text-lines :
      (s : SiteConfig) (enabled : Bool)
      → fs.show (fs.of_text s.root) ≡ s.root
      → enabled_text parsers fs s enabled ≡ lines s enabled
  unfolding enabled_text write_site_toml
  enabled_text-lines s enabled shown =
      rw (shown, escaped_tls s.tls, escaped_kind s.kind)
        (nested_append (quoted_line (lit "domain") (toml_escape s.domain))
          (quoted_line (lit "root") (toml_escape s.root))
          (quoted_line (lit "type") (kind_str s.kind))
          (quoted_line (lit "tls") (toml_escape (tls_str s.tls))) (optional_line (lit "app") s.app)
          (optional_line (lit "php_fpm") s.php_fpm)
          (key_is (lit "enabled") ++ (bool_str enabled ++ 0xa ∷ [])))

  -- What is written for a site reads, line by line, as its fields.
  enabled_text-Reads :
      (s : SiteConfig) (enabled : Bool)
      → fs.show (fs.of_text s.root) ≡ s.root
      → IsPlain s.domain
      → IsPlain s.root
      → IsPlainIf s.app
      → IsPlainIf s.php_fpm
      → Reads (enabled_text parsers fs s enabled) (fields_of s enabled)
  enabled_text-Reads s enabled shown domain root app_ fpm =
      subst (λ t. Reads t (fields_of s enabled)) (sym (enabled_text-lines s enabled shown))
        (quoted_line-Reads (lit "domain") s.domain _ _ refl domain (
          quoted_line-Reads (lit "root") s.root _ _ refl root (
            quoted_line-Reads (lit "type") (kind_str s.kind) _ _ refl (kind_str-IsPlain s.kind) (
              quoted_line-Reads (lit "tls") (tls_str s.tls) _ _ refl (tls_str-IsPlain s.tls) (
                optional_line-Reads (lit "app") s.app _ _ refl app_ (
                  optional_line-Reads (lit "php_fpm") s.php_fpm _ _ refl fpm
                    (flag_line (lit "enabled") [] enabled [] refl no_line)))))))

  -- Enabling or disabling a site whose file parses writes a text that reads, line by line, as the same
  -- site with its flag set, and changes nothing else; and it writes it to the file of its domain, if it
  -- can be written. The domain, the root, the application and the address of php-fpm hold no control
  -- characters but tabs, and a path that is made of the root shows as the root.
  pub run_site_set_enabled-keeps :
      (sites_dir : P) (domain body : Str) (s : SiteConfig) (enabled : Bool)
      → fs.read (site_file parsers fs sites_dir domain) ≡ some body
      → parsers.from_toml body ≡ some s
      → fs.show (fs.of_text s.root) ≡ s.root
      → IsPlain s.domain
      → IsPlain s.root
      → IsPlainIf s.app
      → IsPlainIf s.php_fpm
      → (text : Str) × (fields : Fields) × (run_site_set_enabled parsers fs sites_dir domain enabled
          ≡ write_file parsers fs (site_file parsers fs sites_dir domain) text)
        × Reads text fields
        × (site_of fields ≡ some (record s { enabled = enabled }))
  unfolding run_site_set_enabled
  run_site_set_enabled-keeps sites_dir domain body s enabled is_read parsed shown d r a f = (
    enabled_text parsers fs s enabled,
    fields_of s enabled,
    rw (is_read, parsed) refl,
    enabled_text-Reads s enabled shown d r a f,
    site_of-fields_of s enabled,
  )
