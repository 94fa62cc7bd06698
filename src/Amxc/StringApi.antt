-- ===== src/Amxc/StringApi.antt =====
-- The amxc_string_t functions that the component calls.
use Prim.Native.Nat.{ℕ}
use mathlib.Core.Path.{◌≡◌}
use mathlib.Core.Bool.{Bool, true, false, ◌&&◌, ◌||◌, not}
use mathlib.Core.Option
use mathlib.Core.Option.{Option, none, some}
use mathlib.Core.List.{List, [], ◌∷◌, ◌++◌}
use tr181_xpon.Base.{Text, leb, ◌==◌, if◌then◌else◌, is_digit}

abbrev pub is_letter : ℕ → Bool
is_letter c = (leb b'A' c && leb c b'Z') || (leb b'a' c && leb c b'z')

abbrev pub all {ℓ} : {A : Type ℓ} → (A → Bool) → List A → Bool
all p [] = true
all p (x ∷ xs) = p x && all p xs

-- A piece that splitting leaves alone: letters, digits, dots and hyphens, without the separator.
abbrev pub is_plain_char : ℕ → ℕ → Bool
is_plain_char sep c = (is_letter c || is_digit c || (c == b'.') || (c == b'-')) && not (c == sep)

abbrev pub is_plain : ℕ → Text → Bool
is_plain sep [] = false
is_plain sep (c ∷ cs) = all (is_plain_char sep) (c ∷ cs)

abbrev pub is_number : Text → Bool
is_number [] = false
is_number (c ∷ cs) = all is_digit (c ∷ cs)

-- The pieces with the separator between them.
abbrev pub intercalate : ℕ → List Text → Text
intercalate sep [] = []
intercalate sep (t ∷ []) = t
intercalate sep (t ∷ u ∷ ts) = t ++ (sep ∷ intercalate sep (u ∷ ts))

abbrev pub strip_prefix : Text → Text → Option Text
strip_prefix [] t = some t
strip_prefix (x ∷ xs) [] = none
strip_prefix (x ∷ xs) (y ∷ ys) = let rest = strip_prefix xs ys in if x == y then rest else none

-- What stands before and after the first occurrence of a text that is not empty.
abbrev pub split_first : Text → Text → Option (Text × Text)
split_first needle [] = none
split_first needle (c ∷ cs) = elim (strip_prefix needle (c ∷ cs)) [
  | some after ↦ some ([], after)
  | none ↦ Option.map (λ (before, after). (c ∷ before, after)) (split_first needle cs)
]

abbrev pub replaced_once : Text → Text → Option (Text × Text) → Text × ℕ
replaced_once t new none = (t, 0)
replaced_once t new (some (before, after)) = (before ++ (new ++ after), 1)

pub record Strings : Type 0 where
  pub split_to_llist : Text → ℕ → Option (List Text)  -- none unless AMXC_STRING_SPLIT_OK
  pub join_llist : List Text → ℕ → Option Text  -- none unless 0 is returned
  pub is_numeric : Text → Bool
  pub replace : Text → Text → Text → ℕ → Text × ℕ  -- text, needle, replacement, max
  pub trimr : Text → (ℕ → Bool) → Text

pub record IsLawful (S : Strings) : Type 0 where
  pub split-intercalate :
      (sep : ℕ) (t : Text) (ts : List Text)
      → all (is_plain sep) (t ∷ ts) ≡ true
      → S.split_to_llist (intercalate sep (t ∷ ts)) sep ≡ some (t ∷ ts)
  pub join_lem : (sep : ℕ) (ts : List Text) → S.join_llist ts sep ≡ some (intercalate sep ts)
  pub numeric_of_digits : (t : Text) → is_number t ≡ true → S.is_numeric t ≡ true
  pub numeric_of_letter : (c : ℕ) (t : Text) → is_letter c ≡ true → S.is_numeric (c ∷ t) ≡ false
  pub replace_first :
      (t needle new : Text) → S.replace t needle new 1 ≡ replaced_once t new (split_first needle t)
  pub trimr_stop :
      (t : Text) (c : ℕ) (p : ℕ → Bool) → p c ≡ false → S.trimr (t ++ (c ∷ [])) p ≡ t ++ (c ∷ [])
  pub trimr_step :
      (t : Text) (c : ℕ) (p : ℕ → Bool) → p c ≡ true → S.trimr (t ++ (c ∷ [])) p ≡ S.trimr t p
