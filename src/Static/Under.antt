-- ===== src/Static/Under.antt =====
-- That no file outside the root is served.
use zaphyl.Prelude.{
  and_then-some, ap, ◌∙◌, ◌≡◌, refl, Bool, true, false, ◌&&◌, none, some, List, [], ◌∷◌, ◌++◌,
  arith, Some, if◌then◌else◌, is_empty, Bool-cases, inl, inr, some_inj,
}
use zaphyl.Str.{Str, lit, str_eq, split}
use zaphyl.Str.Laws.{str_eq_iff}
use zaphyl.Static.{
  with_index, PathBuf, FileSystem, Component, normal, parent_dir, root_dir, cur_dir,
  inner_components, first_components, components, normal_parts, starts_with_path, contained,
  resolve,
}

starts_with_path→ :
    (path base : PathBuf)
    → starts_with_path path base ≡ true
    → (rest : PathBuf) × (path ≡ base ++ rest)
unfolding starts_with_path
starts_with_path→ path [] h = (path, refl)
starts_with_path→ [] (b ∷ base) h = absurd (ground arith)
starts_with_path→ (p ∷ path) (b ∷ base) h =
    let (rest, e) = starts_with_path→ path base (ground arith) in
    let same : p ≡ b = ground (arith, str_eq_iff p b) in (rest, cc)

abbrev HasParent : List Component → Type 0
HasParent cs = Some (λ c. c ≡ parent_dir) cs

normal_parts-parent : (cs : List Component) → HasParent cs → normal_parts cs ≡ none
unfolding normal_parts
normal_parts-parent [] h = absurd h
normal_parts-parent (parent_dir ∷ cs) h = refl
normal_parts-parent (root_dir ∷ cs) (inl e) = cc
normal_parts-parent (root_dir ∷ cs) (inr h) = normal_parts-parent cs h
normal_parts-parent (cur_dir ∷ cs) (inl e) = cc
normal_parts-parent (cur_dir ∷ cs) (inr h) = normal_parts-parent cs h
normal_parts-parent (normal part ∷ cs) (inl e) = cc
normal_parts-parent (normal part ∷ cs) (inr h) = rw (normal_parts-parent cs h) refl

-- A piece of the path that is two dots.
abbrev pub HasDots : List Str → Type 0
HasDots parts = Some (λ part. part ≡ lit "..") parts

-- However a piece is read, what follows it is kept.
read-HasParent :
    (void dot dots : Bool)
    → (first : Component) → (rest : List Component) → HasParent rest
    → HasParent (
        if void
        then rest
        else if dot
        then rest
        else if dots
        then parent_dir ∷ rest
        else first ∷ rest)
read-HasParent true dot dots first rest h = h
read-HasParent false true dots first rest h = h
read-HasParent false false true first rest h = inr h
read-HasParent false false false first rest h = inr h

inner-HasParent : (parts : List Str) → HasDots parts → HasParent (inner_components parts)
unfolding inner_components str_eq
inner-HasParent [] h = absurd h
inner-HasParent (part ∷ parts) (inl e) = rw e (inl refl)
inner-HasParent (part ∷ parts) (inr h) =
    read-HasParent (is_empty part) (str_eq part (lit ".")) (str_eq part (lit "..")) (normal part)
      (inner_components parts) (inner-HasParent parts h)

first-HasParent : (parts : List Str) → HasDots parts → HasParent (first_components parts)
unfolding inner_components str_eq
first-HasParent [] h = absurd h
first-HasParent (part ∷ parts) (inl e) = rw e (inl refl)
first-HasParent (part ∷ parts) (inr h) =
    let rest = inner-HasParent parts h in
    elim (is_empty part)
      as (λ void. HasParent (
        if void
        then root_dir ∷ inner_components parts
        else if str_eq part (lit ".")
        then cur_dir ∷ inner_components parts
        else inner_components (part ∷ parts))) [
          | true ↦ inr rest
          | false ↦
              elim (str_eq part (lit "."))
                as (λ dot. HasParent (
                  if dot
                  then cur_dir ∷ inner_components parts
                  else inner_components (part ∷ parts))) [
                    | true ↦ inr rest
                    | false ↦ inner-HasParent (part ∷ parts) (inr h)
                  ]
        ]

split-nonempty : (path : Str) → HasDots (split b'/' path) → is_empty path ≡ false
unfolding split
split-nonempty [] (inl e) = absurd (ground arith)
split-nonempty [] (inr h) = absurd h
split-nonempty (c ∷ path) h = refl

module _ (fs : FileSystem) where
  -- A request path with a piece of two dots, percent-encoded or not, names no file, wherever the
  -- piece would lead.
  resolve-dots :
      (root : PathBuf)
      → (request_path decoded : Str) → fs.decode request_path ≡ some decoded
      → HasDots (split b'/' decoded)
      → resolve fs root request_path ≡ none
  unfolding resolve components
  resolve-dots root request_path decoded d h = rw d (
      rw (split-nonempty decoded h) (
        rw (normal_parts-parent (first_components (split b'/' decoded)) (first-HasParent _ h))
          refl))

  contained-under :
      (real root file : PathBuf)
      → contained fs real root ≡ some file
      → (rest : PathBuf) × (file ≡ root ++ rest) × (fs.is_file file ≡ true)
  contained-under real root file h =
      elim (Bool-cases (starts_with_path real root && fs.is_file real)) [
        | inl e ↦
            let same : real ≡ file = some_inj real file (rw e at h) in
            let (rest, under) = starts_with_path→ real root (ground arith) in
            (rest, cc (same, under), rw (← same) (ground arith))
        | inr e ↦ absurd (ground arith)
      ]

  -- Without a piece that leads upwards.
  abbrev pub NoParent : List Component → Type 0
  NoParent cs = ¬ HasParent cs

  -- The file is what the file system makes, with the symbolic links followed, of the root and the
  -- parts of a path that leads nowhere upwards; and it continues what is so made of the root itself.
  abbrev pub IsUnder : PathBuf → Str → PathBuf → Type 0
  IsUnder root request_path file =
      (decoded : Str) × (parts : PathBuf) × (real_root : PathBuf) × (rest : PathBuf) × (fs.decode
          request_path
        ≡ some decoded)
      × NoParent (components decoded)
      × (normal_parts (components decoded) ≡ some parts)
      × (fs.canonicalize (with_index fs (root ++ parts)) ≡ some file)
      × (fs.canonicalize root ≡ some real_root)
      × (file ≡ real_root ++ rest)
      × (fs.is_file file ≡ true)

  no_parent : (cs : List Component) (parts : PathBuf) → normal_parts cs ≡ some parts → NoParent cs
  no_parent cs parts h up = absurd (ground (arith, normal_parts-parent cs up, h))

  contained-same : (real root file : PathBuf) → contained fs real root ≡ some file → real ≡ file
  contained-same real root file h =
      elim (Bool-cases (starts_with_path real root && fs.is_file real)) [
        | inl e ↦ some_inj real file (rw e at h)
        | inr e ↦ absurd (ground arith)
      ]

  -- A file that is served is an ordinary file. It is the absolute path, with the symbolic links
  -- followed, of the root with the decoded pieces of the request behind it, or of the index there; none
  -- of the pieces leads upwards; and it continues the absolute path of the root.
  pub resolve-IsUnder :
      (root : PathBuf) (request_path : Str) (file : PathBuf)
      → resolve fs root request_path ≡ some file
      → IsUnder root request_path file
  unfolding resolve
  resolve-IsUnder root request_path file h =
      let (decoded, is_decoded, h1) = and_then-some (fs.decode request_path) _ file h in
      let (parts, is_parts, h2) = and_then-some (normal_parts (components decoded)) _ file h1 in
      let (real, is_real, h3) =
        and_then-some (fs.canonicalize (with_index fs (root ++ parts))) _ file h2 in
      let (real_root, is_root, h4) = and_then-some (fs.canonicalize root) _ file h3 in
      let (rest, under, ordinary) = contained-under real real_root file h4 in
      (
        decoded,
        parts,
        real_root,
        rest,
        is_decoded,
        no_parent (components decoded) parts is_parts,
        is_parts,
        is_real ∙ ap (λ f. some f) (contained-same real real_root file h4),
        is_root,
        under,
        ordinary,
      )
