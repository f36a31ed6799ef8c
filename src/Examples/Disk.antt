-- ===== src/Examples/Disk.antt =====
-- A small entry in the directory of the disk tier, and a site file.
use zaphyl.Prelude.{inl, ◌<◌, ◌^◌, ℕ, ◌/◌, ◌*◌, ◌≡◌, refl, Option, some, [], ◌∷◌, length, arith}
use zaphyl.Str.Utf8.{utf8, encode_char}
use zaphyl.Cache.Disk.Format.{le_bytes, write_bytes, write_headers}
use zaphyl.Str.{Str, lit}
use zaphyl.Cache.Store
use zaphyl.Cache.Store.{CachedResponse, lookup, hit}
use zaphyl.Cache.Disk.{Directory, DiskStore, renamed}
use zaphyl.Cache.Disk.Format.{decode, encode, returns}
use zaphyl.Cache.Disk.Format.RoundTrip.{IsStorable, decode-encode}
use zaphyl.Cache.Disk.Tier.{tier, lookup-restart}

abbrev page : CachedResponse
page = record { status = 200; headers = (lit "etag", lit "a") ∷ []; body = 104 ∷ 105 ∷ [] }

page-IsStorable : IsStorable (lit "k") page
unfolding utf8 encode_char
page-IsStorable = record {
  key_short = ((inl (omega arith), tt), omega arith);
  status = omega arith;
  count = omega arith;
  headers = (
    (
      (
        (inl (omega arith), (inl (omega arith), (inl (omega arith), (inl (omega arith), tt)))),
        omega arith,
      ),
      ((inl (omega arith), tt), omega arith),
    ),
    tt,
  );
}

page-small : length (encode (lit "k") 61500 page) < 2 ^ 64
unfolding encode le_bytes write_bytes write_headers utf8 encode_char
page-small = omega arith

decode-encode_example :
    decode (encode (lit "k") 61500 page) ≡ returns (some (lit "k", (61000, page)))
decode-encode_example = decode-encode (lit "k") 61500 page page-IsStorable (omega arith) page-small

abbrev store : DiskStore
store = record { max_entries = 1 }

abbrev old : Directory
old = record { files = (record { name = 7; modified = 1; bytes = 0 ∷ [] }) ∷ []; in_progress = [] }

lookup-restart_example :
    (lookup (some (tier (λ key. length key) store (λ d. renamed 5))) (lit "k") 60000 (
      Store.new 9,
      (Store.put
          (some (tier (λ key. length key) store (λ d. renamed 5)))
          (lit "k")
          (61500, page)
          (Store.new 9, old)).1,
    )).0
    ≡ hit 60000 (61500 / 1000 * 1000, page)
lookup-restart_example =
    lookup-restart (λ key. length key) store (λ d. renamed 5) 9 5 60000 (lit "k") 61500 page
      (Store.new 9) old refl page-IsStorable (omega arith) page-small

abbrev files : ℕ → Option Str
files mtime = some (lit "certificate")
