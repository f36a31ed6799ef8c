-- ===== src/Cache/Key/Canonical.antt =====
-- The key tells apart hosts, paths and sets of codings, and nothing else.
use zaphyl.Prelude.{
  true, false, ◌≡◌, ◌≢◌, ◌↔◌, ◌⊎◌, inl, inr, refl, sym, ap, ◌∙◌, Option, List, [], ◌∷◌, Some, All,
  Bool-cases, arith, unwrap_or,
}
use zaphyl.Str.{Str, lit, str_eq, split}
use zaphyl.Str.Laws.{str_eq_iff, str_eq→eq}
use zaphyl.Cache.Key.{
  str_leb, insert_sorted, sort, dedup_after, dedup, join, codings, normalize_accept_encoding,
}

str_leb_refl : (a : Str) → str_leb a a ≡ true
unfolding str_leb
str_leb_refl [] = refl
str_leb_refl (x ∷ a) = ground (arith, str_leb_refl a)

str_leb_total : (a b : Str) → str_leb a b ≡ false → str_leb b a ≡ true
unfolding str_leb
str_leb_total [] b h = cc
str_leb_total (x ∷ a) [] h = refl
str_leb_total (x ∷ a) (y ∷ b) h = ground (arith, str_leb_total a b)

str_leb_antisym : (a b : Str) → str_leb a b ≡ true → str_leb b a ≡ true → a ≡ b
unfolding str_leb
str_leb_antisym [] [] h k = refl
str_leb_antisym [] (y ∷ b) h k = cc
str_leb_antisym (x ∷ a) [] h k = cc
str_leb_antisym (x ∷ a) (y ∷ b) h k = ground (arith, str_leb_antisym a b)

str_leb_trans : (a b c : Str) → str_leb a b ≡ true → str_leb b c ≡ true → str_leb a c ≡ true
unfolding str_leb
str_leb_trans [] b c h k = refl
str_leb_trans (x ∷ a) [] c h k = cc
str_leb_trans (x ∷ a) (y ∷ b) [] h k = cc
str_leb_trans (x ∷ a) (y ∷ b) (z ∷ c) h k = ground (arith, str_leb_trans a b c)

-- The text is in the list.
abbrev pub In : Str → List Str → Type 0
In t ts = Some (λ u. u ≡ t) ts

-- Each text is below all that follow it.
abbrev IsStrict : List Str → Type 0
IsStrict [] = Unit
IsStrict (t ∷ ts) = All (λ u. (str_leb t u ≡ true) × (t ≢ u)) ts × IsStrict ts

abbrev IsSorted : List Str → Type 0
IsSorted [] = Unit
IsSorted (t ∷ ts) = All (λ u. str_leb t u ≡ true) ts × IsSorted ts

In-All : (P : Str → Type 0) (ts : List Str) (t : Str) → In t ts → All P ts → P t
In-All P [] t h a = absurd h
In-All P (u ∷ ts) t (inl e) (p, a) = rw (← e) p
In-All P (u ∷ ts) t (inr h) (p, a) = In-All P ts t h a

All-In : (P : Str → Type 0) (ts : List Str) → ((t : Str) → In t ts → P t) → All P ts
All-In P [] f = tt
All-In P (u ∷ ts) f = (f u (inl refl), All-In P ts (λ t h. f t (inr h)))

insert_sorted→In : (t u : Str) (ts : List Str) → In u (insert_sorted t ts) → (t ≡ u) ⊎ In u ts
unfolding insert_sorted
insert_sorted→In t u [] h = h
insert_sorted→In t u (v ∷ ts) h =
    let rest = insert_sorted→In t u ts in
    elim (Bool-cases (str_leb t v)) [
      | inl le ↦ rw (le, insert_sorted) at h
      | inr gt ↦ later rest (rw (gt, insert_sorted) at h)
    ]
  where
    later :
        (In u (insert_sorted t ts) → (t ≡ u) ⊎ In u ts)
        → In u (v ∷ insert_sorted t ts)
        → (t ≡ u) ⊎ In u (v ∷ ts)
    later rest (inl e) = inr (inl e)
    later rest (inr k) = elim (rest k) [ inl e ↦ inl e | inr k' ↦ inr (inr k') ]

In→insert_sorted : (t u : Str) (ts : List Str) → (t ≡ u) ⊎ In u ts → In u (insert_sorted t ts)
unfolding insert_sorted
In→insert_sorted t u [] h = h
In→insert_sorted t u (v ∷ ts) (inl e) = elim (Bool-cases (str_leb t v)) [
  | inl le ↦ rw le (inl e)
  | inr gt ↦ rw gt (inr (In→insert_sorted t u ts (inl e)))
]
In→insert_sorted t u (v ∷ ts) (inr (inl e)) = elim (Bool-cases (str_leb t v)) [
  | inl le ↦ rw le (inr (inl e))
  | inr gt ↦ rw gt (inl e)
]
In→insert_sorted t u (v ∷ ts) (inr (inr h)) = elim (Bool-cases (str_leb t v)) [
  | inl le ↦ rw le (inr (inr h))
  | inr gt ↦ rw gt (inr (In→insert_sorted t u ts (inr h)))
]

sort→In : (u : Str) (ts : List Str) → In u (sort ts) → In u ts
unfolding sort
sort→In u [] h = h
sort→In u (t ∷ ts) h = elim (insert_sorted→In t u (sort ts) h) [
  | inl e ↦ inl e
  | inr k ↦ inr (sort→In u ts k)
]

In→sort : (u : Str) (ts : List Str) → In u ts → In u (sort ts)
unfolding sort
In→sort u [] h = h
In→sort u (t ∷ ts) (inl e) = In→insert_sorted t u (sort ts) (inl e)
In→sort u (t ∷ ts) (inr h) = In→insert_sorted t u (sort ts) (inr (In→sort u ts h))

insert_sorted-IsSorted : (t : Str) (ts : List Str) → IsSorted ts → IsSorted (insert_sorted t ts)
unfolding insert_sorted
insert_sorted-IsSorted t [] h = (tt, tt)
insert_sorted-IsSorted t (v ∷ ts) (low, h) = elim (Bool-cases (str_leb t v)) [
  | inl le ↦
      rw le ((le, All-In _ ts (λ u k. str_leb_trans t v u le (In-All _ ts u k low))), (low, h))
  | inr gt ↦ rw gt (
    All-In _ (insert_sorted t ts) (λ u k. elim (insert_sorted→In t u ts k) [
      | inl e ↦ rw (← e) (str_leb_total t v gt)
      | inr k' ↦ In-All _ ts u k' low
    ]),
    insert_sorted-IsSorted t ts h,
  )
]

sort-IsSorted : (ts : List Str) → IsSorted (sort ts)
unfolding sort
sort-IsSorted [] = tt
sort-IsSorted (t ∷ ts) = insert_sorted-IsSorted t (sort ts) (sort-IsSorted ts)

dedup_after→In : (t u : Str) (ts : List Str) → In u (dedup_after t ts) → In u ts
unfolding dedup_after
dedup_after→In t u [] h = h
dedup_after→In t u (v ∷ ts) h = elim (Bool-cases (str_eq t v)) [
  | inl same ↦ inr (dedup_after→In t u ts (rw (same, dedup_after) at h))
  | inr other ↦ kept (dedup_after→In v u ts) (rw (other, dedup_after) at h)
]
  where
    kept : (In u (dedup_after v ts) → In u ts) → In u (v ∷ dedup_after v ts) → In u (v ∷ ts)
    kept rest (inl e) = inl e
    kept rest (inr k) = inr (rest k)

In→dedup_after : (t u : Str) (ts : List Str) → In u ts → (t ≡ u) ⊎ In u (dedup_after t ts)
unfolding dedup_after
In→dedup_after t u [] h = inr h
In→dedup_after t u (v ∷ ts) (inl e) = elim (Bool-cases (str_eq t v)) [
  | inl same ↦ inl (str_eq→eq t v same ∙ e)
  | inr other ↦ rw other (inr (inl e))
]
In→dedup_after t u (v ∷ ts) (inr h) = elim (Bool-cases (str_eq t v)) [
  | inl same ↦ rw same (In→dedup_after t u ts h)
  | inr other ↦ rw other (inr (In→dedup_after v u ts h))
]

dedup_after-IsStrict :
    (t : Str) (ts : List Str)
    → All (λ u. str_leb t u ≡ true) ts
    → IsSorted ts
    → All (λ u. (str_leb t u ≡ true) × (t ≢ u)) (dedup_after t ts) × IsStrict (dedup_after t ts)
unfolding dedup_after
dedup_after-IsStrict t [] low h = (tt, tt)
dedup_after-IsStrict t (v ∷ ts) (le, low) (low_v, h) = elim (Bool-cases (str_eq t v)) [
  | inl same ↦ rw same (dedup_after-IsStrict t ts low h)
  | inr other ↦
      let (above, strict) = dedup_after-IsStrict v ts low_v h in
      let apart : t ≢ v = (λ e. cc (other, (str_eq_iff t v).1 e)) in
      rw other (
        (
          (le, apart),
          All-In _ (dedup_after v ts) (λ u k.
              let (le_vu, ne_vu) = In-All _ (dedup_after v ts) u k above in
              (
                str_leb_trans t v u le le_vu,
                λ e. apart (str_leb_antisym t v le (rw (← e) at le_vu)),
              )),
        ),
        (above, strict),
      )
]

dedup-IsStrict : (ts : List Str) → IsSorted ts → IsStrict (dedup ts)
unfolding dedup
dedup-IsStrict [] h = tt
dedup-IsStrict (t ∷ ts) (low, h) = dedup_after-IsStrict t ts low h

dedup→In : (u : Str) (ts : List Str) → In u (dedup ts) → In u ts
unfolding dedup
dedup→In u [] h = h
dedup→In u (t ∷ ts) (inl e) = inl e
dedup→In u (t ∷ ts) (inr h) = inr (dedup_after→In t u ts h)

In→dedup : (u : Str) (ts : List Str) → In u ts → In u (dedup ts)
unfolding dedup
In→dedup u [] h = h
In→dedup u (t ∷ ts) (inl e) = inl e
In→dedup u (t ∷ ts) (inr h) = In→dedup_after t u ts h

-- The heads of two lists in strict order that hold the same texts.
same_head :
    (a b : Str) (xs ys : List Str)
    → All (λ u. (str_leb a u ≡ true) × (a ≢ u)) xs
    → All (λ u. (str_leb b u ≡ true) × (b ≢ u)) ys
    → In a (b ∷ ys)
    → In b (a ∷ xs)
    → a ≡ b
same_head a b xs ys above_a above_b (inl e) g = sym e
same_head a b xs ys above_a above_b (inr h) (inl e) = e
same_head a b xs ys above_a above_b (inr h) (inr k) =
    let (le_ba, _) = In-All _ ys a h above_b in
    let (le_ab, _) = In-All _ xs b k above_a in str_leb_antisym a b le_ab le_ba

-- Behind equal heads the tails hold the same texts.
same_tail :
    (a b t : Str) (xs ys : List Str)
    → a ≡ b
    → All (λ u. (str_leb a u ≡ true) × (a ≢ u)) xs
    → In t xs
    → In t (b ∷ ys)
    → In t ys
same_tail a b t xs ys e above_a h (inl e') = absurd ((In-All _ xs t h above_a).1 (e ∙ e'))
same_tail a b t xs ys e above_a h (inr k) = k

-- Two lists in strict order that hold the same texts are one list.
strict_unique :
    (xs ys : List Str)
    → IsStrict xs
    → IsStrict ys
    → ((t : Str) → In t xs → In t ys)
    → ((t : Str) → In t ys → In t xs)
    → xs ≡ ys
strict_unique [] [] h k f g = refl
strict_unique [] (b ∷ ys) h k f g = absurd (g b (inl refl))
strict_unique (a ∷ xs) [] h k f g = absurd (f a (inl refl))
strict_unique (a ∷ xs) (b ∷ ys) (above_a, h) (above_b, k) f g =
    let e = same_head a b xs ys above_a above_b (f a (inl refl)) (g b (inl refl)) in
    let tails : xs ≡ ys =
      strict_unique xs ys h k (λ t i. same_tail a b t xs ys e above_a i (f t (inr i)))
        (λ t i. same_tail b a t ys xs (sym e) above_b i (g t (inr i))) in
    cc

-- The header names the coding, in some spelling and with any parameters.
abbrev pub Names : Option Str → Str → Type 0
Names accept_encoding coding = In coding (codings (split b',' (unwrap_or accept_encoding [])))

-- Two headers that name the same codings have one canonical form, whatever their order, their
-- repetitions, their case, their blanks and their quality values.
pub normalize_accept_encoding_canonical :
    (h h' : Option Str)
    → ((coding : Str) → Names h coding ↔ Names h' coding)
    → normalize_accept_encoding h ≡ normalize_accept_encoding h'
unfolding normalize_accept_encoding
normalize_accept_encoding_canonical h h' same =
    let parts = codings (split b',' (unwrap_or h [])) in
    let parts' = codings (split b',' (unwrap_or h' [])) in
    ap (join (lit ",")) (
      strict_unique (dedup (sort parts)) (dedup (sort parts'))
        (dedup-IsStrict (sort parts) (sort-IsSorted parts))
        (dedup-IsStrict (sort parts') (sort-IsSorted parts'))
        (λ t i.
          In→dedup t (sort parts')
            (In→sort t parts' ((same t).0 (sort→In t parts (dedup→In t (sort parts) i)))))
        (λ t i.
          In→dedup t (sort parts)
            (In→sort t parts ((same t).1 (sort→In t parts' (dedup→In t (sort parts') i))))))
