-- ===== src/Base/CString.antt =====
-- C strings as lists of bytes without the final NUL, and the functions of string.h on them.
use Prim.Native.Char.{code}
use Prim.Native.String.{String}
use Prim.Native.Nat.{ℕ, zero, suc, ◌+◌, ◌≤◌}
use mathlib.Core.Path.{◌≡◌, refl, ap, sym, ◌∙◌}
use mathlib.Core.Logic.{◌↔◌, ◌≢◌}
use mathlib.Core.Bool.{Bool, true, false, ◌&&◌}
use mathlib.Core.List.{List, [], ◌∷◌, ◌++◌, reverse, reverse-append}
use native.Mathlib.Omega.{arith}
use tr181_xpon.Base.Tests.{◌==◌, if◌then◌else◌, ==_iff, ==_refl, &&-true}

abbrev pub Text : Type 0
Text = List ℕ

-- A string literal of the source.
abbrev pub codes : String → Text
codes String.[] = []
codes (String.◌∷◌ c s) = code c ∷ codes s

-- strlen
abbrev pub length {ℓ} : {A : Type ℓ} → List A → ℕ
length [] = 0
length (x ∷ xs) = suc (length xs)

abbrev pub take {ℓ} : {A : Type ℓ} → ℕ → List A → List A
take zero xs = []
take (suc n) [] = []
take (suc n) (x ∷ xs) = x ∷ take n xs

-- strcmp(a, b) == 0
abbrev pub text_eq : Text → Text → Bool
text_eq [] [] = true
text_eq [] (y ∷ ys) = false
text_eq (x ∷ xs) [] = false
text_eq (x ∷ xs) (y ∷ ys) = (x == y) && text_eq xs ys

-- strncmp(a, b, n) == 0
abbrev pub strncmp_eq : Text → Text → ℕ → Bool
strncmp_eq a b zero = true
strncmp_eq [] [] (suc n) = true
strncmp_eq [] (y ∷ ys) (suc n) = false
strncmp_eq (x ∷ xs) [] (suc n) = false
strncmp_eq (x ∷ xs) (y ∷ ys) (suc n) = (x == y) && strncmp_eq xs ys n

-- snprintf(buf, n, "%s", s) keeps at most n - 1 bytes.
abbrev pub snprintf : ℕ → Text → Text
snprintf zero s = []
snprintf (suc n) s = take n s

pub text_eq_refl : (a : Text) → text_eq a a ≡ true
text_eq_refl [] = refl
text_eq_refl (x ∷ xs) = ground (arith, text_eq_refl xs)

pub text_eq→eq : (a b : Text) → text_eq a b ≡ true → a ≡ b
text_eq→eq [] [] h = refl
text_eq→eq [] (y ∷ ys) h = cc
text_eq→eq (x ∷ xs) [] h = cc
text_eq→eq (x ∷ xs) (y ∷ ys) h = ground (arith, text_eq→eq xs ys)

pub text_eq_iff : (a b : Text) → (text_eq a b ≡ true) ↔ (a ≡ b)
text_eq_iff a b = (text_eq→eq a b, λ p. ap (text_eq a) (sym p) ∙ text_eq_refl a)

-- Comparing the length of the second text finds out whether it is a prefix of the first.
pub strncmp_eq-append : (b r : Text) → strncmp_eq (b ++ r) b (length b) ≡ true
strncmp_eq-append [] r = refl
strncmp_eq-append (x ∷ xs) r = ground (arith, strncmp_eq-append xs r)

pub strncmp_eq→prefix : (a b : Text) → strncmp_eq a b (length b) ≡ true → (r : Text) × (a ≡ b ++ r)
strncmp_eq→prefix a [] h = (a, refl)
strncmp_eq→prefix [] (y ∷ ys) h = cc
strncmp_eq→prefix (x ∷ xs) (y ∷ ys) h =
    let (r, e) = strncmp_eq→prefix xs ys (&&-true (x == y) _ h).1 in
    (r, ground (arith, (==_iff x y).0 (&&-true (x == y) _ h).0, e))

pub length-append {ℓ} : {A : Type ℓ} (xs ys : List A) → length (xs ++ ys) ≡ length xs + length ys
length-append [] ys = omega arith
length-append (x ∷ xs) ys = omega (arith, length-append xs ys)

pub take_all {ℓ} : {A : Type ℓ} (n : ℕ) (xs : List A) → length xs ≤ n → take n xs ≡ xs
take_all zero [] h = refl
take_all zero (x ∷ xs) h = absurd (omega arith)
take_all (suc n) [] h = refl
take_all (suc n) (x ∷ xs) h = ap (λ t. x ∷ t) (take_all n xs (omega arith))

pub append-left_cancel : (a b c : Text) → a ++ b ≡ a ++ c → b ≡ c
append-left_cancel [] b c h = h
append-left_cancel (x ∷ a) b c h = append-left_cancel a b c (cc h)

-- Two texts with the same last part differ only in front of it.
pub append-right_cancel : (a b c : Text) → a ++ c ≡ b ++ c → a ≡ b
append-right_cancel [] [] c h = refl
append-right_cancel [] (y ∷ ys) c h = absurd (omega (arith, ap length h, length-append {0} ys c))
append-right_cancel (x ∷ xs) [] c h = absurd (omega (arith, ap length h, length-append {0} xs c))
append-right_cancel (x ∷ xs) (y ∷ ys) c h =
    let e : xs ≡ ys = append-right_cancel xs ys c (cc h) in cc (e, h)

-- Equal lengths and an equal strncmp mean equal texts.
pub append-nil_text : (b : Text) → b ++ [] ≡ b
append-nil_text [] = refl
append-nil_text (x ∷ b) = ap (λ t. x ∷ t) (append-nil_text b)

pub same_path_refl : (b : Text) → ((length b == length b) && strncmp_eq b b (length b)) ≡ true
same_path_refl b = rw (==_refl (length b)) (rw (append-nil_text b) at (strncmp_eq-append b []))

nil_of_length : (r : Text) → length r ≡ 0 → r ≡ []
nil_of_length [] h = refl
nil_of_length (x ∷ r) h = absurd (omega (arith, h))

pub same_path→eq :
    (a b : Text) → ((length a == length b) && strncmp_eq a b (length b)) ≡ true → a ≡ b
same_path→eq a b h =
    let (l, s) = &&-true (length a == length b) _ h in
    let (r, e) = strncmp_eq→prefix a b s in
    let empty : r ≡ [] =
      nil_of_length r
        (omega (arith, (==_iff (length a) (length b)).0 l, ap length e, length-append {0} b r)) in
    e ∙ ap (λ t. b ++ t) empty ∙ append-nil_text b

-- Whether two texts differ at a place that both have.
abbrev pub diverge : Text → Text → Bool
diverge [] ys = false
diverge (x ∷ xs) [] = false
diverge (x ∷ xs) (y ∷ ys) = let rest = diverge xs ys in if x == y then rest else true

diverge-ne : (xs ys p q : Text) → diverge xs ys ≡ true → xs ++ p ≢ ys ++ q
diverge-ne [] ys p q h e = cc
diverge-ne (x ∷ xs) [] p q h e = cc
diverge-ne (x ∷ xs) (y ∷ ys) p q h e = ground (arith, diverge-ne xs ys p q)

-- Texts whose ends differ.
pub ends_ne : (a s b t : Text) → diverge (reverse s) (reverse t) ≡ true → a ++ s ≢ b ++ t
ends_ne a s b t h e =
    diverge-ne (reverse s) (reverse t) (reverse a) (reverse b) h
      (sym (reverse-append a s) ∙ ap reverse e ∙ reverse-append b t)
