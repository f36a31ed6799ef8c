-- ===== src/Cli/Written.antt =====
-- What the commands write, and that adding a site replaces none unless it is told to.
use zaphyl.Prelude.{
  sym, ap, ◌≡◌, ◌⊎◌, inl, inr, refl, Bool, true, false, not, ◌&&◌, if◌then◌else◌, arith, Bool-cases,
}
use zaphyl.Str.{Str}
use zaphyl.Cli.{
  Parsers, Files, SiteAddOpts, Done, failure, written, removed, site_file, write_file,
  run_site_add_inner,
}

module _ (parsers : Parsers) {P : Type 0} (fs : Files P) where
  abbrev pub WrittenAt : P → Str → Done P → Type 0
  WrittenAt path text done = done ≡ written path text

  abbrev target : P → Done P → P
  target other failure = other
  target other (written path text) = path
  target other (removed path) = path

  write_file-path :
      (to path : P) (text said : Str)
      → WrittenAt path said (write_file parsers fs to text)
      → path ≡ to
  write_file-path to path text said h = elim (Bool-cases (fs.write to text)) [
    | inl e ↦ ap (target to) (sym (rw e at h))
    | inr e ↦ absurd (ground (arith, rw e at h))
  ]

  -- Behind a test that ends the command.
  went_on :
      (stop : Bool) (rest : Done P) (path : P) (text : Str)
      → WrittenAt path text (if stop then failure else rest)
      → (stop ≡ false) × WrittenAt path text rest
  went_on true rest path text h = absurd (ground (arith, h))
  went_on false rest path text h = (refl, h)

  -- If adding a site has written a file, it is the file of its domain under the directory of sites,
  -- and no file was there, or the command was told to replace it.
  pub run_site_add_inner-written :
      (domain : Str) (opts : SiteAddOpts P) (sites_dir webroot_base path : P) (text : Str)
      → WrittenAt path text (run_site_add_inner parsers fs domain opts sites_dir webroot_base)
      → (path ≡ site_file parsers fs sites_dir domain)
        × ((fs.exists path ≡ false) ⊎ (opts.force ≡ true))
  unfolding run_site_add_inner
  run_site_add_inner-written domain opts sites_dir webroot_base path text h =
      let (_, h1) = went_on (not (fs.create_dir_all sites_dir)) _ path text h in
      let (free, h2) =
        went_on (fs.exists (site_file parsers fs sites_dir domain) && not opts.force) _ path text
          h1 in
      let (_, h3) = went_on _ _ path text h2 in
      let same = write_file-path (site_file parsers fs sites_dir domain) path _ text h3 in
      (same, rw same (elim (Bool-cases opts.force) [ inl e ↦ inr e | inr e ↦ inl (ground arith) ]))
