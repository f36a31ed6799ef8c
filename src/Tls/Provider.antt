-- ===== src/Tls/Provider.antt =====
-- crates/zaphyl/src/tls.rs, `DynamicCert`, and crates/zaphyl/src/http3.rs, `DynamicCertResolver`: the
-- certificate and the key of a handshake, from the files that a renewal writes one after the other.
-- Reading PEM is the work of the TLS libraries.
pub mod Renewal
use zaphyl.Prelude.{
  not, ℕ, Bool, true, false, Option, none, some, List, [], ◌∷◌, and_then, option_map, if◌then◌else◌,
  Result, ok, err,
}
use zaphyl.Str.{Str}
use zaphyl.Tls.{Cached, get}

-- The texts of the two files, and the modification time of the first.
pub record CertFiles : Type 0 where
  pub cert : Option (ℕ × Str)
  pub key : Option Str

pub record Pem : Type 1 where
  pub Cert : Type 0
  pub Key : Type 0
  pub stack_from_pem : Str → Option (List Cert)
  pub private_key_from_pem : Str → Option Key

-- What the other listener uses of rustls and its PEM reader.
pub record Rustls : Type 1 where
  pub CertificateDer : Type 0
  pub PrivateKeyDer : Type 0
  pub SigningKey : Type 0
  pub pem_certs : Str → Option (List CertificateDer)
  pub pem_key : Str → Option PrivateKeyDer
  pub any_supported_type : PrivateKeyDer → Option SigningKey

abbrev pub cert_text : CertFiles → Option Str
cert_text files = option_map (λ c. c.1) files.cert

abbrev pub cert_mtime : CertFiles → Option ℕ
cert_mtime files = option_map (λ c. c.0) files.cert

-- `obtain` writes the certificate, and then the key.
abbrev pub write_cert : ℕ → Str → CertFiles → CertFiles
write_cert now text files = record files { cert = some (now, text) }

abbrev pub write_key : Str → CertFiles → CertFiles
write_key text files = record files { key = some text }

module _ (pem : Pem) where
  pub record Loaded : Type 0 where
    pub leaf : pem.Cert
    pub chain : List (pem.Cert)
    pub key : pem.Key

  abbrev pub with_key : List (pem.Cert) → pem.Key → Option Loaded
  with_key [] key = none
  with_key (leaf ∷ chain) key = some (record { leaf = leaf; chain = chain; key = key })

  abbrev pub key_of : CertFiles → Option (pem.Key)
  key_of files = and_then files.key pem.private_key_from_pem

  -- The closure of `DynamicCert::current`.
  unfoldable pub load : CertFiles → Option Loaded
  load files = and_then (cert_text files) (λ text.
      and_then (pem.stack_from_pem text) (λ certs. and_then (key_of files) (with_key certs)))

  unfoldable pub current : CertFiles → Cached Loaded → Option Loaded × Cached Loaded
  unfolding load
  current files cached = get (cert_mtime files) (load files) cached

  -- Which of the settings the session takes.
  pub record Ssl : Type 0 where
    pub use_certificate : pem.Cert → Bool
    -- Whether the key fits the certificate is checked too.
    pub use_private_key : pem.Cert → pem.Key → Bool
    pub add_chain_cert : pem.Cert → Bool

  -- What the session is set to.
  pub record Presented : Type 0 where
    pub certificate : Option (pem.Cert)
    pub private_key : Option (pem.Key)
    pub chain : List (pem.Cert)

  abbrev pub no_certificate : Presented
  no_certificate = record { certificate = none; private_key = none; chain = [] }

  -- A certificate of the chain that is not taken is passed over.
  pub add_chain : Ssl → List (pem.Cert) → List (pem.Cert)
  add_chain ssl [] = []
  add_chain ssl (cert ∷ certs) =
      let rest = add_chain ssl certs in if ssl.add_chain_cert cert then cert ∷ rest else rest

  unfoldable pub certificate_callback : Ssl → Option Loaded → Presented
  unfolding add_chain
  certificate_callback ssl none = no_certificate
  certificate_callback ssl (some loaded) =
      if not (ssl.use_certificate loaded.leaf)
      then no_certificate
      else if not (ssl.use_private_key loaded.leaf loaded.key)
      then record { certificate = some loaded.leaf; private_key = none; chain = [] }
      else record {
        certificate = some loaded.leaf;
        private_key = some loaded.key;
        chain = add_chain ssl loaded.chain;
      }

module _ (rustls : Rustls) where
  abbrev pub CertifiedKey : Type 0
  CertifiedKey = List (rustls.CertificateDer) × rustls.SigningKey

  unfoldable pub load_certs : CertFiles → Option (List (rustls.CertificateDer))
  load_certs files = and_then (cert_text files) rustls.pem_certs

  unfoldable pub load_key : CertFiles → Option (rustls.PrivateKeyDer)
  load_key files = and_then files.key rustls.pem_key

  -- The closure of `DynamicCertResolver::current`: the chain may be empty there.
  unfoldable pub load_certified : CertFiles → Option CertifiedKey
  unfolding load_certs load_key
  load_certified files = and_then (load_certs files) (λ certs.
      and_then (load_key files)
        (λ key. and_then (rustls.any_supported_type key) (λ signing. some (certs, signing))))

  unfoldable pub current_certified :
      CertFiles → Cached CertifiedKey → Option CertifiedKey × Cached CertifiedKey
  unfolding load_certified
  current_certified files cached = get (cert_mtime files) (load_certified files) cached
