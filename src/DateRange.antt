-- ===== src/DateRange.antt =====
-- apps/shared/value_objects/date_range.py and stay_period.py: half-open intervals of dates.
use hotel_booking.Base.{
  ℕ, ◌+◌, ◌-◌, ◌≡◌, ◌↔◌, refl, Bool, true, ◌&&◌, not, arith, ltb, leb, if◌then◌else◌, elem,
  range_from, suc, zero, length,
}
use hotel_booking.Results.{Result, ok, invalid_date_range, invalid_stay_period, ◌>>◌, fail_if}

pub record DateRange : Type 0 where
  pub start : ℕ
  pub end : ℕ

-- `__post_init__`
unfoldable pub date_range : ℕ → ℕ → Result DateRange
date_range start end = do
  fail_if (not (ltb start end)) invalid_date_range
  ok (record { start = start; end = end })

unfoldable pub days : DateRange → ℕ
days r = r.end - r.start

unfoldable pub contains : DateRange → ℕ → Bool
contains r day = leb r.start day && ltb day r.end

unfoldable pub overlaps : DateRange → DateRange → Bool
overlaps a b = ltb a.start b.end && ltb b.start a.end

pub record StayPeriod : Type 0 where
  pub arrival : ℕ
  pub departure : ℕ

unfoldable pub stay_period : ℕ → ℕ → Result StayPeriod
stay_period arrival departure = do
  fail_if (not (ltb arrival departure)) invalid_stay_period
  ok (record { arrival = arrival; departure = departure })

unfoldable pub nights : StayPeriod → ℕ
nights s = s.departure - s.arrival

unfoldable pub as_date_range : StayPeriod → Result DateRange
unfolding date_range
as_date_range s = date_range s.arrival s.departure

pub elem-range_from :
    (d start n : ℕ) → elem d (range_from start n) ≡ (leb start d && ltb d (start + n))
elem-range_from d start zero = ground arith
elem-range_from d start (suc n) = ground (arith, elem-range_from d (suc start) n)

pub length-range_from : (start n : ℕ) → length (range_from start n) ≡ n
length-range_from start zero = refl
length-range_from start (suc n) = ground (arith, length-range_from (suc start) n)

-- Two ranges that the constructor accepts overlap exactly when some day lies in both.
pub overlaps_iff :
    (a_start a_end b_start b_end : ℕ) (a b : DateRange)
    → date_range a_start a_end ≡ ok a
    → date_range b_start b_end ≡ ok b
    → (overlaps a b ≡ true) ↔ ((day : ℕ) × (contains a day ≡ true) × (contains b day ≡ true))
unfolding date_range overlaps contains
overlaps_iff a_start a_end b_start b_end a b ha hb = (
  λ h. (if leb a.start b.start then b.start else a.start, ground arith, ground arith),
  λ (day, p, q). ground arith,
)
