-- ===== src/Examples/Certificates.antt =====
-- Certificates: files that a renewal is half way through, and what the listeners show of them.
use zaphyl.Prelude.{◌≡◌, refl, none, some, [], ◌∷◌}
use zaphyl.Str.{Str, lit}
use zaphyl.Tls.Provider.{CertFiles, Pem, Loaded, load, current}
use zaphyl.Tls.Provider.Renewal.{Server, shake, start, later, key_written, current-fixed}

-- A certificate, or a key, is its text.
abbrev plain : Pem
plain = record {
  Cert = Str;
  Key = Str;
  stack_from_pem = λ text. some (text ∷ []);
  private_key_from_pem = λ text. some text;
}

abbrev half : CertFiles
half = record { cert = some (20, lit "new"); key = some (lit "old key") }

abbrev mixed : Loaded plain
mixed = record { leaf = lit "new"; chain = []; key = lit "old key" }

abbrev server : Server plain
server = record { files = half; cached = none }

abbrev whole : Server plain
whole = record {
  files = record { cert = some (20, lit "new"); key = some (lit "new key") };
  cached = (shake plain server).cached;
}

current-fixed_example : (current plain whole.files whole.cached).0 ≡ some mixed
unfolding load shake
current-fixed_example =
    current-fixed plain 20 mixed server whole refl (λ e. cc) refl
      (later start (key_written (lit "new key")))
