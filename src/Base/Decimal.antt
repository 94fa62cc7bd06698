-- ===== src/Base/Decimal.antt =====
-- Numbers in decimal: printf's %d on a uint32_t, and atoi.
use Prim.Native.Nat.{ℕ, zero, suc, ◌+◌, ◌-◌, ◌*◌, ◌/◌, ◌%◌, ◌^◌}
use mathlib.Core.Bool.{Bool, ◌&&◌}
use mathlib.Core.List.{[], ◌∷◌}
use tr181_xpon.Base.Tests.{ltb, leb, if◌then◌else◌}
use tr181_xpon.Base.CString.{Text}

abbrev pub is_digit : ℕ → Bool
is_digit c = leb b'0' c && leb c b'9'

-- Ten digits are enough for every number below 2 ^ 32.
unfoldable pub digits_fuel : ℕ → ℕ → Text → Text
digits_fuel zero n rest = rest
digits_fuel (suc f) n rest =
    let more = digits_fuel f (n / 10) ((b'0' + n % 10) ∷ rest) in
    if ltb n 10 then (b'0' + n) ∷ rest else more

unfoldable pub decimal : ℕ → Text
unfolding digits_fuel
decimal n = digits_fuel 10 n []

-- The bits of a uint32_t read as an int.
unfoldable pub percent_d : ℕ → Text
unfolding decimal
percent_d n = if ltb n (2 ^ 31) then decimal n else b'-' ∷ decimal (2 ^ 32 - n)

-- The leading digits; as a uint32_t the value wraps.
abbrev pub atoi_from : ℕ → Text → ℕ
atoi_from acc [] = acc
atoi_from acc (c ∷ cs) =
    let rest = atoi_from (acc * 10 + (c - b'0')) cs in if is_digit c then rest else acc

abbrev pub atoi_u32 : Text → ℕ
atoi_u32 t = atoi_from 0 t % 2 ^ 32
