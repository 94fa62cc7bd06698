-- ===== src/DataModel/Reset/Cut.antt =====
-- data_model.c: the buffer for the path of the ONU that an OMCI reset MIB message names.
use tr181_xpon.Base.{
  ◌≡◌, refl, ap, sym, ◌∙◌, ℕ, zero, suc, ◌+◌, ◌/◌, ◌%◌, ◌≤◌, ◌<◌, List, [], ◌∷◌, ◌++◌, arith, Text,
  codes, take, take_all, length, length-append, percent_d, percent_d-at_most, percent_d-at_least,
  percent_d_snoc, ltb, ltb→lt, if◌then◌else◌, Bool-cases, inl, inr,
}
use mathlib.Core.List.{append_assoc}
use tr181_xpon.DataModel.Reset.{reset_path}

take-append_exact : {A : Type 0} (n : ℕ) (xs ys : List A) → length xs ≡ n → take n (xs ++ ys) ≡ xs
take-append_exact zero [] ys h = refl
take-append_exact zero (x ∷ xs) ys h = absurd (omega arith)
take-append_exact (suc n) [] ys h = absurd (omega arith)
take-append_exact (suc n) (x ∷ xs) ys h = ap (λ t. x ∷ t) (take-append_exact n xs ys (omega arith))

abbrev onu_prefix : Text
onu_prefix = codes "XPON.ONU."

fits : (index : ℕ) → index < 1000000 → reset_path index ≡ onu_prefix ++ percent_d index
unfolding reset_path
fits index small = take_all 15 (onu_prefix ++ percent_d index) (
    omega (
      arith,
      percent_d-at_most 5 index (omega arith) (omega arith),
      length-append {0} onu_prefix (percent_d index),
    ))

is_cut :
    (index : ℕ)
    → 1000000 ≤ index
    → index < 10000000
    → reset_path index ≡ onu_prefix ++ percent_d (index / 10)
unfolding reset_path
is_cut index low high =
    let front = onu_prefix ++ percent_d (index / 10) in
    let last = (b'0' + index % 10) ∷ [] in
    ap (take 15) (
      ap (λ t. onu_prefix ++ t) (percent_d_snoc index (omega arith) (omega arith))
      ∙ sym (append_assoc onu_prefix (percent_d (index / 10)) last))
    ∙ take-append_exact 15 front last (
        omega (
          arith,
          percent_d-at_most 5 (index / 10) (omega arith) (omega arith),
          percent_d-at_least 5 (index / 10) (omega arith) (omega arith) (omega arith),
          length-append {0} onu_prefix (percent_d (index / 10)),
        ))

-- For an index of at most seven digits: the path of the ONU that a reset is for is whole if the
-- index has at most six digits; else its last digit is cut off, so that the path is that of
-- another ONU.
pub reset_path_lem :
    (index : ℕ)
    → index < 10000000
    → reset_path index
      ≡ codes "XPON.ONU." ++ percent_d (if ltb index 1000000 then index else index / 10)
reset_path_lem index h = elim (Bool-cases (ltb index 1000000)) [
  | inl small ↦ rw small (fits index (ltb→lt index 1000000 small))
  | inr large ↦ rw large (is_cut index (ground arith) h)
]
