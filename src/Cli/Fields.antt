-- ===== src/Cli/Fields.antt =====
-- The part of TOML that the commands write, described on its own: lines of a bare key with a basic string
-- or a Boolean, and the site that such fields describe, as `SiteConfig` in
-- crates/zaphyl-config/src/sites.rs declares them.
pub mod Kept
use zaphyl.Prelude.{
  ℕ, ◌≡◌, Bool, true, false, ◌&&◌, ◌||◌, Option, none, some, List, [], ◌∷◌, ◌++◌, ◌==◌, leb,
  and_then, unwrap_or, if◌then◌else◌,
}
use zaphyl.Str.{Str, lit, str_eq}
use zaphyl.Config.Sites.{
  SiteKind, static, php, app, SiteTls, auto, off, SiteConfig, default_enabled,
}
use zaphyl.Cli.{quote}
use zaphyl.Cli.Quoted.{read_basic}

pub data Value : Type 0 where
  text : Str → Value
  flag : Bool → Value

abbrev pub Fields : Type 0
Fields = List (Str × Value)

abbrev pub bool_str : Bool → Str
bool_str b = if b then lit "true" else lit "false"

-- A bare key, of small letters and `_`.
abbrev pub is_bare : Str → Bool
is_bare [] = true
is_bare (c ∷ s) = ((leb 97 c && leb c 122) || c == 95) && is_bare s

abbrev pub key_is : Str → Str
key_is name = name ++ lit " = "

pub data Reads : Str → Fields → Type 0 where
  no_line : Reads [] []
  text_line :
      (name value s rest : Str) (fields : Fields)
      → is_bare name ≡ true
      → read_basic false s ≡ some (value, 0xa ∷ rest)
      → Reads rest fields
      → Reads (key_is name ++ quote ∷ s) ((name, text value) ∷ fields)
  flag_line :
      (name rest : Str) (b : Bool) (fields : Fields)
      → is_bare name ≡ true
      → Reads rest fields
      → Reads (key_is name ++ (bool_str b ++ 0xa ∷ rest)) ((name, flag b) ∷ fields)

-- The first value under a key, as TOML allows one only.
unfoldable pub field : Str → Fields → Option Value
field name [] = none
field name ((key, value) ∷ fields) =
    let rest = field name fields in if str_eq key name then some value else rest

abbrev pub as_text : Option Value → Option Str
as_text (some (text s)) = some s
as_text (some (flag b)) = none
as_text none = none

abbrev pub as_flag : Option Value → Option Bool
as_flag (some (flag b)) = some b
as_flag (some (text s)) = none
as_flag none = none

abbrev pub kind_of : Str → Option SiteKind
kind_of s =
    if str_eq s (lit "static")
    then some static
    else if str_eq s (lit "php")
    then some php
    else if str_eq s (lit "app")
    then some app
    else none

abbrev pub tls_of : Option Str → SiteTls
tls_of none = auto
tls_of (some s) = if str_eq s (lit "off") then off else auto

unfoldable pub site_of : Fields → Option SiteConfig
unfolding field
site_of fields = and_then (as_text (field (lit "domain") fields)) (λ domain.
    and_then (as_text (field (lit "root") fields)) (λ root.
      and_then (and_then (as_text (field (lit "type") fields)) kind_of) (λ kind. some (record {
        domain = domain;
        root = root;
        kind = kind;
        tls = tls_of (as_text (field (lit "tls") fields));
        app = as_text (field (lit "app") fields);
        php_fpm = as_text (field (lit "php_fpm") fields);
        enabled = unwrap_or (as_flag (field (lit "enabled") fields)) default_enabled;
      }))))
