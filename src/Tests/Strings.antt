-- ===== src/Tests/Strings.antt =====
-- A stand-in for the string functions of libamxc.
use tr181_xpon.Base.{
  ◌≡◌, refl, ◌∙◌, ap, ℕ, Bool, true, false, not, some, List, [], ◌∷◌, ◌++◌, arith, Text, ◌==◌,
  ==_refl, &&-true, if◌then◌else◌,
}
use tr181_xpon.Amxc.{
  Strings, IsLawful, all, is_plain, is_plain_char, is_number, intercalate, split_first,
  replaced_once,
}

abbrev push_char : ℕ → List Text → List Text
push_char c [] = (c ∷ []) ∷ []
push_char c (t ∷ ts) = (c ∷ t) ∷ ts

abbrev pub split : ℕ → Text → List Text
split sep [] = [] ∷ []
split sep (c ∷ cs) = let rest = split sep cs in if c == sep then [] ∷ rest else push_char c rest

abbrev pub trimr : Text → (ℕ → Bool) → Text
trimr [] p = []
trimr (c ∷ cs) p =
    let rest = trimr cs p in elim rest [ [] ↦ if p c then [] else c ∷ [] | d ∷ ds ↦ c ∷ d ∷ ds ]

unfoldable pub plain_strings : Strings
plain_strings = record {
  split_to_llist = λ t sep. some (split sep t);
  join_llist = λ ts sep. some (intercalate sep ts);
  is_numeric = is_number;
  replace = λ t needle new max. replaced_once t new (split_first needle t);
  trimr = trimr;
}

trimr_kept :
    (t : Text) (c : ℕ) (p : ℕ → Bool) → p c ≡ false → trimr (t ++ (c ∷ [])) p ≡ t ++ (c ∷ [])
trimr_kept [] c p h = rw h
trimr_kept (d ∷ []) c p h = rw (h, trimr) refl
trimr_kept (d ∷ e ∷ t) c p h = rw (trimr_kept (e ∷ t) c p h)

trimr_dropped : (t : Text) (c : ℕ) (p : ℕ → Bool) → p c ≡ true → trimr (t ++ (c ∷ [])) p ≡ trimr t p
trimr_dropped [] c p h = rw h
trimr_dropped (d ∷ t) c p h = rw (trimr_dropped t c p h)

abbrev avoids : ℕ → Text → Bool
avoids sep = all (λ c. not (c == sep))

avoids_tail :
    (sep c : ℕ) (t : Text)
    → avoids sep (c ∷ t) ≡ true
    → ((c == sep) ≡ false) × (avoids sep t ≡ true)
avoids_tail sep c t h = ground arith

split-avoids : (sep : ℕ) (t : Text) → avoids sep t ≡ true → split sep t ≡ t ∷ []
split-avoids sep [] h = refl
split-avoids sep (c ∷ t) h =
    let (differs, rest) = avoids_tail sep c t h in rw (differs, split-avoids sep t rest) refl

split_at :
    (sep : ℕ) (t rest : Text)
    → avoids sep t ≡ true
    → split sep (t ++ (sep ∷ rest)) ≡ t ∷ split sep rest
split_at sep [] rest h = rw (==_refl sep) refl
split_at sep (c ∷ t) rest h =
    let (differs, more) = avoids_tail sep c t h in rw (differs, split_at sep t rest more) refl

plain-avoids : (sep : ℕ) (t : Text) → all (is_plain_char sep) t ≡ true → avoids sep t ≡ true
plain-avoids sep [] h = refl
plain-avoids sep (c ∷ t) h =
    ground (arith, plain-avoids sep t (&&-true (is_plain_char sep c) _ h).1)

piece-avoids : (sep : ℕ) (t : Text) → is_plain sep t ≡ true → avoids sep t ≡ true
piece-avoids sep [] h = cc
piece-avoids sep (c ∷ t) h = plain-avoids sep (c ∷ t) h

split-all :
    (sep : ℕ) (t : Text) (ts : List Text)
    → all (is_plain sep) (t ∷ ts) ≡ true
    → split sep (intercalate sep (t ∷ ts)) ≡ t ∷ ts
split-all sep t [] h = split-avoids sep t (piece-avoids sep t (&&-true (is_plain sep t) true h).0)
split-all sep t (u ∷ ts) h =
    split_at sep t (intercalate sep (u ∷ ts)) (piece-avoids sep t (&&-true (is_plain sep t) _ h).0)
    ∙ ap (λ r. t ∷ r) (split-all sep u ts (&&-true (is_plain sep t) _ h).1)

pub plain_strings-IsLawful : IsLawful plain_strings
unfolding plain_strings
plain_strings-IsLawful = record {
  split-intercalate = λ sep t ts h. ap some (split-all sep t ts h);
  join_lem = λ sep ts. refl;
  numeric_of_digits = λ t h. h;
  numeric_of_letter = λ c t h. ground arith;
  replace_first = λ t needle new. refl;
  trimr_stop = trimr_kept;
  trimr_step = trimr_dropped;
}
