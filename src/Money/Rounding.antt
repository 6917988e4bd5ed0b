-- ===== src/Money/Rounding.antt =====
-- How `percentage_of` rounds, and the arithmetic of `Money`.
use hotel_booking.Base.{ℕ, suc, ◌+◌, ◌*◌, ◌/◌, ◌≤◌, ◌<◌, ◌≡◌, ◌≢◌, refl, arith}
use hotel_booking.Base.Int.{ℤ, pos, negsuc, ◌+ℤ◌, ◌-ℤ◌, ◌*ℤ◌, neg, pos_part, neg_part, int_laws}
use hotel_booking.Results.{ok, err, currency_mismatch, arithmetic_error}
use hotel_booking.Money.{
  Money, add, subtract, power_of_ten, round_half_up, round_half_even, quantize, round_hundredths,
  percentage_of,
}

-- In magnitude: a hundred times the result is at most 50 above x, and x is less than 50 above it.
abbrev pub RoundsTo : ℤ → ℤ → Type 0
RoundsTo x r =
    (100 * pos_part r ≤ pos_part x + 50)
    × (pos_part x + 50 < 100 * pos_part r + 100)
    × (100 * neg_part r ≤ neg_part x + 50)
    × (neg_part x + 50 < 100 * neg_part r + 100)

-- A hundred times the result is at most 55 away from x.
abbrev pub LiesNear : ℤ → ℤ → Type 0
LiesNear x r =
    (100 * pos_part r ≤ pos_part x + 55)
    × (pos_part x ≤ 100 * pos_part r + 55)
    × (100 * neg_part r ≤ neg_part x + 55)
    × (neg_part x ≤ 100 * neg_part r + 55)

abbrev pub magnitude : ℤ → ℕ
magnitude x = pos_part x + neg_part x

round_half_even-near :
    (n : ℕ) → (10 * round_half_even 10 n ≤ n + 5) × (n ≤ 10 * round_half_even 10 n + 5)
unfolding round_half_even
round_half_even-near n = ground arith

power_of_ten-suc : (n : ℕ) → power_of_ten n ≤ power_of_ten (suc n)
unfolding power_of_ten
power_of_ten-suc n = omega arith

quantize-small :
    (n : ℕ)
    → n < power_of_ten 28
    → (m : ℕ) × (quantize n ≡ ok m) × (100 * m ≤ n + 50) × (n + 50 < 100 * m + 100)
unfolding quantize round_half_up
quantize-small n h = (round_half_up n, ground arith, ground arith, ground arith)

quantize-middle :
    (n : ℕ)
    → power_of_ten 28 ≤ n
    → n < power_of_ten 29
    → (m : ℕ) × (quantize n ≡ ok m) × (100 * m ≤ n + 55) × (n ≤ 100 * m + 55)
unfolding quantize
quantize-middle n g h =
    let (above, below) = round_half_even-near n in
    ((round_half_even 10 n + 5) / 10, ground arith, omega arith, omega arith)

quantize-large : (n : ℕ) → power_of_ten 30 ≤ n → quantize n ≡ err arithmetic_error
unfolding quantize
quantize-large n h = ground (arith, power_of_ten-suc 28, power_of_ten-suc 29)

round_hundredths-small :
    (x : ℤ) → magnitude x < power_of_ten 28 → (r : ℤ) × (round_hundredths x ≡ ok r) × RoundsTo x r
unfolding round_hundredths neg
round_hundredths-small (pos n) h =
    let (m, e, p, q) = quantize-small n (omega arith) in
    (pos m, rw e refl, (p, q, omega arith, omega arith))
round_hundredths-small (negsuc n) h =
    let (m, e, p, q) = quantize-small (suc n) (omega arith) in
    (neg (pos m), rw e refl, ground arith)

round_hundredths-middle :
    (x : ℤ)
    → power_of_ten 28 ≤ magnitude x
    → magnitude x < power_of_ten 29
    → (r : ℤ) × (round_hundredths x ≡ ok r) × LiesNear x r
unfolding round_hundredths neg
round_hundredths-middle (pos n) g h =
    let (m, e, p, q) = quantize-middle n (omega arith) (omega arith) in
    (pos m, rw e refl, (p, q, omega arith, omega arith))
round_hundredths-middle (negsuc n) g h =
    let (m, e, p, q) = quantize-middle (suc n) (omega arith) (omega arith) in
    (neg (pos m), rw e refl, ground arith)

round_hundredths-large :
    (x : ℤ) → power_of_ten 30 ≤ magnitude x → round_hundredths x ≡ err arithmetic_error
unfolding round_hundredths
round_hundredths-large (pos n) h = rw (quantize-large n (omega arith)) refl
round_hundredths-large (negsuc n) h = rw (quantize-large (suc n) (omega arith)) refl

-- While amount × percent has at most 28 digits, `percentage_of` returns a hundredth of it to the
-- nearest minor unit, halves away from zero, in the currency of the amount. With 29 digits it still
-- returns, but a hundred times the result may stand up to 55 away from the product. From 31 digits
-- on it raises an ArithmeticError.
pub percentage_of_half_up :
    (a : Money) (percent : ℤ)
    → let x = a.amount *ℤ percent in
      (magnitude x < power_of_ten 28
        → (r : Money) × (percentage_of a percent ≡ ok r)
          × RoundsTo x r.amount
          × (r.currency ≡ a.currency))
      × (power_of_ten 28 ≤ magnitude x
          → magnitude x < power_of_ten 29
          → (r : Money) × (percentage_of a percent ≡ ok r)
            × LiesNear x r.amount
            × (r.currency ≡ a.currency))
      × (power_of_ten 30 ≤ magnitude x → percentage_of a percent ≡ err arithmetic_error)
unfolding percentage_of
percentage_of_half_up a percent =
    let x = a.amount *ℤ percent in
    (
      λ h.
          let (r, e, bounds) = round_hundredths-small x h in
          (record { amount = r; currency = a.currency }, rw e refl, bounds, refl),
      λ g h.
          let (r, e, bounds) = round_hundredths-middle x g h in
          (record { amount = r; currency = a.currency }, rw e refl, bounds, refl),
      λ h. rw (round_hundredths-large x h) refl,
    )

-- Adding then subtracting gives the amount back, and succeeds exactly between equal currencies.
pub subtract-add :
    (a b : Money)
    → (a.currency ≡ b.currency
        → (m : Money) × (add a b ≡ ok m)
          × (m.amount ≡ a.amount +ℤ b.amount)
          × (subtract m b ≡ ok a))
      × (a.currency ≢ b.currency
          → (add a b ≡ err currency_mismatch) × (subtract a b ≡ err currency_mismatch))
unfolding add subtract
subtract-add a b = (
  λ h. (
    record { amount = a.amount +ℤ b.amount; currency = a.currency },
    ground arith,
    refl,
    ground (arith, back a.amount b.amount),
  ),
  λ h. ground arith,
)
  where
    back : (x y : ℤ) → x +ℤ y -ℤ y ≡ x
    back x y = omega int_laws
