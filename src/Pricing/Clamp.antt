-- ===== src/Pricing/Clamp.antt =====
-- The policy's floor and ceiling on the stay's total, and the overlap of overrides.
use hotel_booking.Base.{ℕ, ◌≤◌, ◌≡◌, ◌↔◌, true, Option, none, some, arith, leb, if◌then◌else◌}
use hotel_booking.Base.Int.{ℤ, ◌≤ℤ◌}
use hotel_booking.Money.{Money}
use hotel_booking.Pricing.{clamp_floor, clamp_ceiling, overrides_overlap}

-- A bound that is not configured holds.
abbrev pub AtLeast : Option ℤ → ℤ → Type 0
AtLeast none a = Unit
AtLeast (some f) a = f ≤ℤ a

abbrev pub AtMost : Option ℤ → ℤ → Type 0
AtMost none a = Unit
AtMost (some c) a = a ≤ℤ c

-- The floor does not stand above the ceiling.
abbrev pub IsOrdered : Option ℤ → Option ℤ → Type 0
IsOrdered none c = Unit
IsOrdered (some f) c = AtMost c f

-- The clamped total is never below the floor; it is not above the ceiling where the floor does not
-- stand above the ceiling; a total that meets both bounds is left as it is; and the currency is
-- kept.
pub clamp_bounds :
    (floor ceiling : Option ℤ) (m : Money)
    → let t = clamp_floor floor (clamp_ceiling ceiling m) in
      AtLeast floor t.amount
      × (IsOrdered floor ceiling → AtMost ceiling t.amount)
      × (AtLeast floor m.amount → AtMost ceiling m.amount → t ≡ m)
      × (t.currency ≡ m.currency)
unfolding clamp_floor clamp_ceiling
clamp_bounds none none m = ground arith
clamp_bounds (some f) none m = ground arith
clamp_bounds none (some c) m = ground arith
clamp_bounds (some f) (some c) m = ground arith

-- The overlap test of two inclusive, non-empty ranges is true exactly when some night lies in both.
pub overrides_overlap_iff :
    (a_start a_end b_start b_end : ℕ)
    → a_start ≤ a_end
    → b_start ≤ b_end
    → (overrides_overlap a_start a_end b_start b_end ≡ true)
      ↔ ((night : ℕ) × (a_start ≤ night) × (night ≤ a_end) × (b_start ≤ night) × (night ≤ b_end))
unfolding overrides_overlap
overrides_overlap_iff a_start a_end b_start b_end ha hb = (
  λ h. (
    if leb a_start b_start then b_start else a_start,
    ground arith,
    ground arith,
    ground arith,
    ground arith,
  ),
  λ (night, p, q, r, s). ground arith,
)
