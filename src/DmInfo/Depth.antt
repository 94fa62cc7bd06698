-- ===== src/DmInfo/Depth.antt =====
-- dm_info.c: how many parts the path of an object with children can have.
use mathlib.Core.Option.{some-injective}
use tr181_xpon.Base.{
  ℕ, suc, ◌+◌, ◌≤◌, ◌≡◌, refl, ◌≢◌, ap, sym, ◌∙◌, Bool, true, some, List, [], ◌∷◌, ◌++◌, map, arith,
  Text, inl, inr, Bool-cases, ◌==◌, &&-true, length, length-append, if◌then◌else◌,
}
use tr181_xpon.Amxc.{Strings, IsLawful, is_plain, is_plain_char, all, intercalate}
use tr181_xpon.DmInfo.Table.{ObjectId, ObjectInfo}
use tr181_xpon.DmInfo.Lookup.{
  dm_get_object_info, dm_convert_to_generic_path, dm_get_object_id, generic_part, drop_numeric_last,
}
use tr181_xpon.DmInfo.Paths.{dm_get_object_id_iff}
use tr181_xpon.DmInfo.Instances.{split_parts, snoc-ne-nil, unsnoc-append}

-- How often a byte stands in a text.
abbrev pub occurrences : ℕ → Text → ℕ
occurrences sep [] = 0
occurrences sep (c ∷ cs) = let rest = occurrences sep cs in if c == sep then suc rest else rest

occurrences-append :
    (sep : ℕ) (a b : Text) → occurrences sep (a ++ b) ≡ occurrences sep a + occurrences sep b
occurrences-append sep [] b = omega arith
occurrences-append sep (c ∷ cs) b = ground (arith, occurrences-append sep cs b)

occurrences-all : (sep : ℕ) (t : Text) → all (is_plain_char sep) t ≡ true → occurrences sep t ≡ 0
occurrences-all sep [] h = refl
occurrences-all sep (c ∷ cs) h =
    let (p, ps) = &&-true (is_plain_char sep c) _ h in ground (arith, occurrences-all sep cs ps)

occurrences-plain : (sep : ℕ) (t : Text) → is_plain sep t ≡ true → occurrences sep t ≡ 0
occurrences-plain sep [] h = cc
occurrences-plain sep (c ∷ cs) h = occurrences-all sep (c ∷ cs) h

occurrences_sep : (sep : ℕ) (t : Text) → occurrences sep (sep ∷ t) ≡ suc (occurrences sep t)
occurrences_sep sep t = ground arith

length-le_occurrences :
    (sep : ℕ) (ts : List Text)
    → all (is_plain sep) ts ≡ true
    → length ts ≤ suc (occurrences sep (intercalate sep ts))
length-le_occurrences sep [] h = omega arith
length-le_occurrences sep (t ∷ []) h = omega arith
length-le_occurrences sep (t ∷ u ∷ us) h =
    let rest = length-le_occurrences sep (u ∷ us) (&&-true (is_plain sep t) _ h).1 in
    omega (
      arith,
      occurrences-append sep t (sep ∷ intercalate sep (u ∷ us)),
      occurrences_sep sep (intercalate sep (u ∷ us)),
    )

all-front {ℓ} :
    {A : Type ℓ} (p : A → Bool) (xs ys : List A) → all p (xs ++ ys) ≡ true → all p xs ≡ true
all-front p [] ys h = refl
all-front p (x ∷ xs) ys h = let (a, b) = &&-true (p x) _ h in rw a (all-front p xs ys b)

length-map {ℓ} : {A B : Type ℓ} (f : A → B) (xs : List A) → length (map f xs) ≡ length xs
length-map f [] = refl
length-map f (x ∷ xs) = ap suc (length-map f xs)

snoc_cases {ℓ} :
    {A : Type ℓ} (x : A) (xs : List A)
    → (front : List A) × (last : A) × (x ∷ xs ≡ front ++ (last ∷ []))
snoc_cases x [] = ([], x, refl)
snoc_cases x (y ∷ ys) =
    let (front, last, e) = snoc_cases y ys in (x ∷ front, last, ap (λ l. x ∷ l) e)

module _ (S : Strings) (L : IsLawful S) where
  generic_part-plain : (t : Text) → is_plain b'.' t ≡ true → is_plain b'.' (generic_part S t) ≡ true
  generic_part-plain t h = elim (Bool-cases (S.is_numeric t)) [
    | inl numeric ↦ rw numeric refl
    | inr other ↦ rw other h
  ]

  map-plain :
      (ts : List Text)
      → all (is_plain b'.') ts ≡ true
      → all (is_plain b'.') (map (generic_part S) ts) ≡ true
  map-plain [] h = refl
  map-plain (t ∷ ts) h =
      let (p, ps) = &&-true (is_plain b'.' t) _ h in rw (generic_part-plain t p) (map-plain ts ps)

  joined_length :
      (ts : List Text) (generic : Text)
      → all (is_plain b'.') ts ≡ true
      → S.join_llist (map (generic_part S) ts) b'.' ≡ some generic
      → length ts ≤ suc (occurrences b'.' generic)
  joined_length ts generic h e =
      let same = some-injective _ _ (sym (L.join_lem b'.' (map (generic_part S) ts)) ∙ e) in
      omega (
        arith,
        length-map (generic_part S) ts,
        length-le_occurrences b'.' (map (generic_part S) ts) (map-plain ts h),
        ap (occurrences b'.') same,
      )

  converted :
      (front : List Text) (last : Text)
      → all (is_plain b'.') (front ++ (last ∷ [])) ≡ true
      → dm_convert_to_generic_path S (intercalate b'.' (front ++ (last ∷ [])))
        ≡ S.join_llist
            (map (generic_part S) (drop_numeric_last S (front, last) (front ++ (last ∷ []))))
            b'.'
  unfolding dm_convert_to_generic_path
  converted front last p = rw (
    split_parts S L (front ++ (last ∷ [])) (snoc-ne-nil front last) p,
    unsnoc-append front last,
    dm_convert_to_generic_path,
  )

  -- Made generic, a path loses at most its last part.
  convert_length :
      (parts : List Text) (generic : Text)
      → parts ≢ []
      → all (is_plain b'.') parts ≡ true
      → dm_convert_to_generic_path S (intercalate b'.' parts) ≡ some generic
      → length parts ≤ 2 + occurrences b'.' generic
  convert_length [] generic h p e = absurd (h refl)
  convert_length (t ∷ ts) generic h p e =
      let (front, last, same) = snoc_cases t ts in
      let plain : all (is_plain b'.') (front ++ (last ∷ [])) ≡ true =
        ap (all (is_plain b'.')) (sym same) ∙ p in
      let joined =
        sym (converted front last plain)
        ∙ ap (λ ps. dm_convert_to_generic_path S (intercalate b'.' ps)) (sym same)
        ∙ e in
      elim (Bool-cases (S.is_numeric last)) [
        | inl numeric ↦ omega (
          arith,
          ap length same,
          length-append {0} front (last ∷ []),
          joined_length front generic (all-front (is_plain b'.') front (last ∷ []) plain)
              (rw numeric at joined),
        )
        | inr other ↦ omega (
          arith,
          ap length same,
          joined_length (front ++ (last ∷ [])) generic plain (rw other at joined),
        )
      ]

  -- Only the paths of XPON.ONU and XPON.ONU.{i}.ANI have children.
  pub depth_of_parent :
      (parts : List Text) (id : ObjectId) (info : ObjectInfo)
      → parts ≢ []
      → all (is_plain b'.') parts ≡ true
      → dm_get_object_id S (intercalate b'.' parts) ≡ id
      → dm_get_object_info id ≡ some info
      → length parts ≤ 2 + occurrences b'.' info.generic_path
  depth_of_parent parts id info h p e own =
      convert_length parts info.generic_path h p
        ((dm_get_object_id_iff S id info (intercalate b'.' parts) own).0 e)
