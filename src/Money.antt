-- ===== src/Money.antt =====
-- apps/shared/value_objects/money.py. A currency code is only compared, so it is a number here.
-- `Decimal` arithmetic has the 28 digits of the default context.
pub mod Rounding
use hotel_booking.Base.{
  ℕ, ◌+◌, ◌*◌, ◌/◌, List, [], ◌∷◌, ◌==◌, not, suc, ltb, Bool, ◌&&◌, ◌%◌, if◌then◌else◌,
}
use hotel_booking.Base.Int.{ℤ, pos, negsuc, ◌+ℤ◌, ◌-ℤ◌, ◌*ℤ◌, neg, pos_part, neg_part, sub_ℕ}
use hotel_booking.Results.{
  Result, ok, err, currency_mismatch, arithmetic_error, ◌>>=◌, ◌>>◌, fail_if,
}

pub record Money : Type 0 where
  pub amount : ℤ
  pub currency : ℕ

unfoldable pub add : Money → Money → Result Money
add a b = do
  fail_if (not (a.currency == b.currency)) currency_mismatch
  ok (record { amount = a.amount +ℤ b.amount; currency = a.currency })

unfoldable pub subtract : Money → Money → Result Money
subtract a b = do
  fail_if (not (a.currency == b.currency)) currency_mismatch
  ok (record { amount = a.amount -ℤ b.amount; currency = a.currency })

unfoldable pub scale : Money → ℤ → Money
scale a n = record { amount = a.amount *ℤ n; currency = a.currency }

unfoldable pub negate : Money → Money
negate a = record { amount = neg a.amount; currency = a.currency }

-- n / 100 to the nearest integer, a half up: `quantize(Decimal("1"), rounding=ROUND_HALF_UP)`
-- of a non-negative number of hundredths
unfoldable pub round_half_up : ℕ → ℕ
round_half_up n = (n + 50) / 100

unfoldable pub power_of_ten : ℕ → ℕ
power_of_ten Prim.Native.Nat.zero = 1
power_of_ten (suc n) = 10 * power_of_ten n

-- n / d to the nearest integer, a half to the even one: how the context drops digits
unfoldable pub round_half_even : ℕ → ℕ → ℕ
round_half_even d n =
    let q = n / d in
    let r = n % d in if ltb (2 * r) d then q else if ltb d (2 * r) then suc q else q + q % 2

-- `(Decimal(n) / Decimal(100)).quantize(…)` of a product n: the product keeps its 28 leading digits,
-- the division only moves the point, and `quantize` raises when its result has more than 28 digits.
unfoldable pub quantize : ℕ → Result ℕ
unfolding round_half_up power_of_ten round_half_even
quantize n =
    if ltb n (power_of_ten 28)
    then ok (round_half_up n)
    else if ltb n (power_of_ten 29)
    then ok ((round_half_even 10 n + 5) / 10)
    else if ltb n (power_of_ten 30) && ltb (round_half_even 100 n) (power_of_ten 28)
    then ok (round_half_even 100 n)
    else err arithmetic_error

-- Both roundings work on the magnitude.
unfoldable pub round_hundredths : ℤ → Result ℤ
unfolding quantize
round_hundredths (pos n) = do m ← quantize n; ok (pos m)
round_hundredths (negsuc n) = do m ← quantize (suc n); ok (neg (pos m))

unfoldable pub percentage_of : Money → ℤ → Result Money
unfolding round_hundredths
percentage_of a percent = do
  rounded ← round_hundredths (a.amount *ℤ percent)
  ok (record { amount = rounded; currency = a.currency })

-- `sum(moneys, start)`
unfoldable pub sum_money : Money → List Money → Result Money
sum_money acc [] = ok acc
sum_money acc (m ∷ ms) = do acc' ← add acc m; sum_money acc' ms
