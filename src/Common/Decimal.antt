-- ===== src/Common/Decimal.antt =====
-- Decimal numerals: `%d` of a number, and `strconv.ParseUint` in base 10.
use Prim.Native.Nat.{ℕ, zero, suc, ◌+◌, ◌-◌, ◌*◌, ◌/◌, ◌%◌, ◌<◌}
use mathlib.Core.Path.{◌≡◌, ◌∙◌, ap, refl}
use mathlib.Core.Bool.{Bool, ◌&&◌}
use mathlib.Core.Option.{Option, none, some}
use mathlib.Core.List.{[], ◌∷◌}
use native.Mathlib.Omega.{arith}
use mmo_server.Common.Tests.{ltb, leb, if◌then◌else◌}
use mmo_server.Common.Words.{Bytes}

-- The digits of a number in front of what follows. Fuel above the number is enough.
unfoldable pub digits : ℕ → ℕ → Bytes → Bytes
digits zero n rest = rest
digits (suc fuel) n rest =
    let one = (48 + n % 10) ∷ rest in
    let more = digits fuel (n / 10) one in if ltb n 10 then one else more

unfoldable pub decimal : ℕ → Bytes
unfolding digits
decimal n = digits (suc n) n []

abbrev pub is_digit : ℕ → Bool
is_digit c = leb 48 c && leb c 57

unfoldable pub read_digits : ℕ → Bytes → Option ℕ
read_digits v [] = some v
read_digits v (c ∷ cs) =
    let rest = read_digits (v * 10 + (c - 48)) cs in if is_digit c then rest else none

abbrev pub below : ℕ → Option ℕ → Option ℕ
below bound none = none
below bound (some v) = if ltb v bound then some v else none

-- `strconv.ParseUint(s, 10, bits)` with the bound 2^bits; `none` is any of its errors.
unfoldable pub parse_uint : ℕ → Bytes → Option ℕ
unfolding read_digits
parse_uint bound [] = none
parse_uint bound (c ∷ cs) = below bound (read_digits 0 (c ∷ cs))

read-digits :
    (fuel n : ℕ) (rest : Bytes) → n < fuel → read_digits 0 (digits fuel n rest) ≡ read_digits n rest
unfolding digits read_digits
read-digits zero n rest h = absurd (omega arith)
read-digits (suc fuel) n rest h = ground (arith, read-digits fuel (n / 10) ((48 + n % 10) ∷ rest))

parse-digits :
    (bound fuel n c : ℕ) (rest : Bytes)
    → parse_uint bound (digits fuel n (c ∷ rest))
      ≡ below bound (read_digits 0 (digits fuel n (c ∷ rest)))
unfolding digits parse_uint
parse-digits bound zero n c rest = refl
parse-digits bound (suc fuel) n c rest =
    ground (arith, parse-digits bound fuel (n / 10) (48 + n % 10) (c ∷ rest))

parse_read : (bound n : ℕ) → parse_uint bound (decimal n) ≡ below bound (read_digits 0 (decimal n))
unfolding digits parse_uint decimal
parse_read bound n = ground (arith, parse-digits bound n (n / 10) (48 + n % 10) [])

read-decimal : (n : ℕ) → read_digits 0 (decimal n) ≡ some n
unfolding decimal read_digits
read-decimal n = read-digits (suc n) n [] (omega arith)

-- What `%d` writes is read back, if the bound allows it.
pub parse_uint-decimal : (bound n : ℕ) → n < bound → parse_uint bound (decimal n) ≡ some n
parse_uint-decimal bound n h = parse_read bound n ∙ ap (below bound) (read-decimal n) ∙ ground arith
