-- ===== src/PopulateDm/Shape.antt =====
-- populate_dm_startup.c: the paths of the tasks: plain parts, whose buffer is large enough.
use mathlib.Core.List.{append_assoc}
use tr181_xpon.Base.{
  ℕ, zero, suc, ◌+◌, ◌*◌, ◌-◌, ◌/◌, ◌%◌, ◌^◌, ◌≤◌, ◌<◌, ◌≡◌, refl, ap, sym, ◌∙◌, Bool, true, List,
  [], ◌∷◌, ◌++◌, arith, Text, inl, inr, Bool-cases, ◌==◌, take_all, length, length-append,
  digits_fuel, decimal, percent_d, ltb,
}
use tr181_xpon.Amxc.{is_plain, is_plain_char, all, intercalate}
use tr181_xpon.DmInfo.Instances.{all-append}
use tr181_xpon.PopulateDm.{child_path}

abbrev plain_text : Text → Bool
plain_text t = all (is_plain_char b'.') t

digit-plain : (n : ℕ) → n < 10 → is_plain_char b'.' (b'0' + n) ≡ true
digit-plain n h = ground arith

digits_fuel_lem :
    (f n : ℕ) (rest : Text)
    → plain_text rest ≡ true
    → (plain_text (digits_fuel f n rest) ≡ true)
      × (length rest ≤ length (digits_fuel f n rest))
      × (length (digits_fuel f n rest) ≤ f + length rest)
unfolding digits_fuel
digits_fuel_lem zero n rest h = (h, omega arith, omega arith)
digits_fuel_lem (suc f) n rest h = elim (Bool-cases (ltb n 10)) [
  | inl small ↦
      rw (small, digits_fuel) (rw (digit-plain n (ground arith)) h, omega arith, omega arith)
  | inr large ↦
      let (p, low, high) =
        digits_fuel_lem f (n / 10) ((b'0' + n % 10) ∷ rest)
          (rw (digit-plain (n % 10) (omega arith)) h) in
      rw (large, digits_fuel) (p, omega arith, omega arith)
]

plain_text-is_plain : (t : Text) → plain_text t ≡ true → 1 ≤ length t → is_plain b'.' t ≡ true
plain_text-is_plain [] h l = absurd (omega arith)
plain_text-is_plain (c ∷ cs) h l = h

digits_fuel-positive : (f n : ℕ) → 1 ≤ length (digits_fuel (suc f) n [])
unfolding digits_fuel
digits_fuel-positive f n = elim (Bool-cases (ltb n 10)) [
  | inl small ↦ rw (small, digits_fuel) (omega arith)
  | inr large ↦
      let (p, low, high) =
        digits_fuel_lem f (n / 10) ((b'0' + n % 10) ∷ [])
          (rw (digit-plain (n % 10) (omega arith)) refl) in
      rw (large, digits_fuel) (omega arith)
]

decimal_lem :
    (n : ℕ) → (plain_text (decimal n) ≡ true) × (1 ≤ length (decimal n)) × (length (decimal n) ≤ 10)
unfolding decimal
decimal_lem n =
    let (p, low, high) = digits_fuel_lem 10 n [] refl in (p, digits_fuel-positive 9 n, high)

percent_d_lem : (n : ℕ) → (is_plain b'.' (percent_d n) ≡ true) × (length (percent_d n) ≤ 11)
unfolding percent_d
percent_d_lem n = elim (Bool-cases (ltb n (2 ^ 31))) [
  | inl positive ↦
      let (p, low, high) = decimal_lem n in
      rw (positive, percent_d) (plain_text-is_plain (decimal n) p low, omega arith)
  | inr negative ↦
      let (p, low, high) = decimal_lem (2 ^ 32 - n) in rw (negative, percent_d) (p, omega arith)
]

-- A text of plain parts with dots between them, so many and at most 40 bytes for each.
pub record IsPath (depth : ℕ) (path : Text) : Type 0 where
  pub parts : List Text
  pub is_plain_parts : all (is_plain b'.') parts ≡ true
  pub same : path ≡ intercalate b'.' parts
  pub count : length parts ≡ depth
  pub positive : 1 ≤ depth
  pub room : length path ≤ 40 * depth

intercalate-append :
    (sep : ℕ) (x : Text) (xs : List Text) (y : Text) (ys : List Text)
    → intercalate sep ((x ∷ xs) ++ (y ∷ ys))
      ≡ intercalate sep (x ∷ xs) ++ (sep ∷ intercalate sep (y ∷ ys))
intercalate-append sep x [] y ys = refl
intercalate-append sep x (z ∷ zs) y ys =
    ap (λ t. x ++ (sep ∷ t)) (intercalate-append sep z zs y ys)
    ∙ sym (append_assoc x (sep ∷ intercalate sep (z ∷ zs)) (sep ∷ intercalate sep (y ∷ ys)))

intercalate-parts :
    (sep : ℕ) (xs ys : List Text)
    → 1 ≤ length xs
    → 1 ≤ length ys
    → intercalate sep (xs ++ ys) ≡ intercalate sep xs ++ (sep ∷ intercalate sep ys)
intercalate-parts sep [] ys h k = absurd (omega arith)
intercalate-parts sep (x ∷ xs) [] h k = absurd (omega arith)
intercalate-parts sep (x ∷ xs) (y ∷ ys) h k = intercalate-append sep x xs y ys

-- Two paths with a dot between them, the second short.
joined :
    (m n : ℕ) (a b : Text)
    → IsPath m a
    → IsPath n b
    → length b ≤ 39
    → IsPath (m + n) (a ++ (b'.' ∷ b))
joined m n a b p q short = record {
  parts = p.parts ++ q.parts;
  is_plain_parts = all-append (is_plain b'.') p.parts q.parts p.is_plain_parts q.is_plain_parts;
  same =
      ap (λ t. t ++ (b'.' ∷ b)) p.same
      ∙ ap (λ t. intercalate b'.' p.parts ++ (b'.' ∷ t)) q.same
      ∙ sym (
          intercalate-parts b'.' p.parts q.parts (omega (arith, p.count, p.positive))
            (omega (arith, q.count, q.positive)));
  count = omega (arith, length-append {0} p.parts q.parts, p.count, q.count);
  positive = omega (arith, p.positive);
  room = omega (arith, length-append {0} a (b'.' ∷ b), p.room, q.positive);
}

percent_d-IsPath : (n : ℕ) → IsPath 1 (percent_d n)
percent_d-IsPath n =
    let (p, high) = percent_d_lem n in
    record {
      parts = percent_d n ∷ [];
      is_plain_parts = rw p refl;
      same = refl;
      count = refl;
      positive = omega arith;
      room = omega arith;
    }

-- The buffer of the path of a child is large enough, and a child lies deeper than its parent.
pub child_path-IsPath :
    (m n index : ℕ) (path child : Text)
    → IsPath m path
    → m ≤ 5
    → IsPath n child
    → length child ≤ 27
    → (d : ℕ) × (suc m ≤ d) × IsPath d (child_path path index child)
child_path-IsPath m n index path child p depth c short = elim (Bool-cases (index == 0)) [
  | inl none_given ↦ (
    m + n,
    omega (arith, c.positive),
    rw
        (
          none_given,
          take_all 255 (path ++ (b'.' ∷ child))
              (omega (arith, p.room, length-append {0} path (b'.' ∷ child))),
        )
        (joined m n path child p c (omega arith)),
  )
  | inr given ↦
      let suffix = percent_d index ++ (b'.' ∷ child) in
      let long = length-append {0} (percent_d index) (b'.' ∷ child) in
      let digits = (percent_d_lem index).1 in
      (
        m + (1 + n),
        omega arith,
        rw
            (
              given,
              take_all 255 (path ++ (b'.' ∷ suffix))
                  (omega (arith, p.room, long, digits, length-append {0} path (b'.' ∷ suffix))),
            )
            (joined m (1 + n) path suffix p
              (joined 1 n (percent_d index) child (percent_d-IsPath index) c (omega arith))
              (omega (arith, long, digits))),
      )
]
