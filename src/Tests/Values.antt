-- ===== src/Tests/Values.antt =====
-- Runs of the value objects and of the price computation.
use hotel_booking.Base.{
  ℕ, ◌≤◌, ◌<◌, ◌≡◌, ◌≢◌, ◌↔◌, refl, true, false, some, [], ◌∷◌, List, Option, arith,
}
use hotel_booking.Base.Int.{ℤ, neg, pos, negsuc, ◌+ℤ◌, ◌*ℤ◌}
use hotel_booking.Results.{Result, ok, err, currency_mismatch, arithmetic_error}
use hotel_booking.DateRange.{DateRange, date_range, overlaps, contains, overlaps_iff}
use hotel_booking.Money.{
  Money, add, subtract, sum_money, percentage_of, power_of_ten, round_half_up, quantize,
  round_hundredths, round_half_even,
}
use hotel_booking.Money.Rounding.{
  magnitude, RoundsTo, LiesNear, percentage_of_half_up, subtract-add,
}
use hotel_booking.Pricing.{
  RatePlan, active, RateOverride, AdjustmentType, RateModifier, weekend, long_stay, LineItem,
  override_label, modifier_label, NightlyPrice, PriceBreakdown, compute, price_nights, price_night,
  override_items, override_adjustment, override_covering, calendar_items, modifier_item,
  check_nightly, segment_items, segment_modifier_matches, check_breakdown, overrides_overlap,
  clamp_floor, clamp_ceiling, holiday, calendar_modifier_matches, has_text,
}
use hotel_booking.Pricing.Stay.{IsStayPrice, compute_lem}
use hotel_booking.Pricing.Clamp.{AtLeast, AtMost, IsOrdered, clamp_bounds, overrides_overlap_iff}

-- A tenth of it is halfway between two minor units.
abbrev fare : Money
fare = record { amount = pos 10005; currency = 1 }

percentage_of_half_up_example :
    let x = pos 10005 *ℤ negsuc 9 in
    (magnitude x < power_of_ten 28
      → (r : Money) × (percentage_of fare (negsuc 9) ≡ ok r)
        × RoundsTo x r.amount
        × (r.currency ≡ fare.currency))
    × (power_of_ten 28 ≤ magnitude x
        → magnitude x < power_of_ten 29
        → (r : Money) × (percentage_of fare (negsuc 9) ≡ ok r)
          × LiesNear x r.amount
          × (r.currency ≡ fare.currency))
    × (power_of_ten 30 ≤ magnitude x → percentage_of fare (negsuc 9) ≡ err arithmetic_error)
percentage_of_half_up_example = percentage_of_half_up fare (negsuc 9)

-- The exact hundredth ends in 6.5, and `percentage_of` rounds it down: the product has 30 digits.
precision_lost :
    percentage_of (record { amount = pos 1972532721040745130; currency = 1 }) (pos 94599629605)
    ≡ ok (record { amount = pos 1866008647941972794112075736; currency = 1 })
unfolding percentage_of round_hundredths quantize power_of_ten round_half_even ◌*ℤ◌
precision_lost = refl

too_many_digits :
    percentage_of (record { amount = pos 1000000000000000; currency = 1 }) (pos 10000000000000000)
    ≡ err arithmetic_error
unfolding percentage_of round_hundredths quantize power_of_ten round_half_even ◌*ℤ◌
too_many_digits = refl

abbrev fee : Money
fee = record { amount = negsuc 4; currency = 1 }

subtract-add_example :
    (fare.currency ≡ fee.currency
      → (m : Money) × (add fare fee ≡ ok m)
        × (m.amount ≡ pos 10005 +ℤ negsuc 4)
        × (subtract m fee ≡ ok fare))
    × (fare.currency ≢ fee.currency
        → (add fare fee ≡ err currency_mismatch) × (subtract fare fee ≡ err currency_mismatch))
subtract-add_example = subtract-add fare fee

clamp_bounds_example :
    let t = clamp_floor (some (pos 500)) (clamp_ceiling (some (pos 9000)) fare) in
    AtLeast (some (pos 500)) t.amount
    × (IsOrdered (some (pos 500)) (some (pos 9000)) → AtMost (some (pos 9000)) t.amount)
    × (AtLeast (some (pos 500)) fare.amount → AtMost (some (pos 9000)) fare.amount → t ≡ fare)
    × (t.currency ≡ fare.currency)
clamp_bounds_example = clamp_bounds (some (pos 500)) (some (pos 9000)) fare

overrides_overlap_iff_example :
    (overrides_overlap 10 14 14 20 ≡ true)
    ↔ ((night : ℕ) × (10 ≤ night) × (night ≤ 14) × (14 ≤ night) × (night ≤ 20))
overrides_overlap_iff_example = overrides_overlap_iff 10 14 14 20 (ground arith) (ground arith)

abbrev march : DateRange
march = record { start = 10; end = 14 }

abbrev late_march : DateRange
late_march = record { start = 13; end = 20 }

march_ok : date_range 10 14 ≡ ok march
unfolding date_range
march_ok = refl

late_march_ok : date_range 13 20 ≡ ok late_march
unfolding date_range
late_march_ok = refl

overlaps_iff_example :
    (overlaps march late_march ≡ true)
    ↔ ((day : ℕ) × (contains march day ≡ true) × (contains late_march day ≡ true))
overlaps_iff_example = overlaps_iff 10 14 13 20 march late_march march_ok late_march_ok

-- A compact ISO date passes the validation and matches no night.
compact_date :
    calendar_modifier_matches
      (holiday (record { date = 100; is_canonical = false } ∷ []) (pos 5))
      100
    ≡ false
unfolding calendar_modifier_matches has_text
compact_date = refl

abbrev plan : RatePlan
plan = record {
  id = 1;
  property_id = 2;
  room_type_id = 3;
  base_rate_minor_units = pos 10000;
  currency = 1;
  status = active;
  sellable = true;
}

-- Overrides of two nights, a weekend surcharge and a discount for long stays.
abbrev overrides : List RateOverride
overrides =
    record {
      id = 1;
      start_date = 104;
      end_date = 104;
      adjustment_type = AdjustmentType.percent;
      adjustment_minor_units = pos 25;
    }
    ∷ record {
      id = 2;
      start_date = 106;
      end_date = 107;
      adjustment_type = AdjustmentType.absolute;
      adjustment_minor_units = negsuc 499;
    }
    ∷ []

abbrev surcharge : RateModifier
surcharge = record { id = 1; config = weekend (6 ∷ 7 ∷ []) (pos 15) }

abbrev discount : RateModifier
discount = record { id = 2; config = long_stay 3 (negsuc 9) }

abbrev modifiers : List RateModifier
modifiers = surcharge ∷ discount ∷ []

abbrev of_amount : ℤ → Money
of_amount n = record { amount = n; currency = 1 }

abbrev surcharged : LineItem
surcharged = record { label = modifier_label surcharge.config 1; amount = of_amount (pos 1500) }

abbrev night_of : ℕ → List LineItem → ℕ → NightlyPrice
night_of d items n = record {
  night = d;
  base = of_amount (pos 10000);
  adjustments = items;
  total = of_amount (pos n);
}

-- Friday to Monday.
abbrev quoted : PriceBreakdown
quoted = record {
  nightly =
      night_of 103 [] 10000
      ∷ night_of 104
          (record { label = override_label 1; amount = of_amount (pos 2500) } ∷ surcharged ∷ [])
          14000
      ∷ night_of 105 (surcharged ∷ []) 11500
      ∷ night_of 106 (record { label = override_label 2; amount = of_amount (negsuc 499) } ∷ [])
          9500
      ∷ [];
  subtotal = of_amount (pos 40500);
  total = of_amount (pos 40000);
  stay_adjustments =
      record { label = modifier_label discount.config 2; amount = of_amount (negsuc 4499) } ∷ [];
  floor_minor_units = some (pos 5000);
  ceiling_minor_units = some (pos 40000);
}

abbrev bounds : Result (Option ℤ × Option ℤ)
bounds = ok (some (pos 5000), some (pos 40000))

computes : compute plan overrides modifiers 103 4 false bounds ≡ ok quoted
unfolding compute price_nights price_night override_items override_adjustment override_covering
    calendar_items modifier_item check_nightly segment_items segment_modifier_matches
    check_breakdown calendar_modifier_matches clamp_floor clamp_ceiling add sum_money percentage_of
    round_hundredths quantize round_half_up power_of_ten round_half_even ◌*ℤ◌ ◌+ℤ◌ neg
computes = refl

compute_lem_example :
    (plan.status ≡ active)
    × (floor : Option ℤ) × (ceiling : Option ℤ) × (bounds ≡ ok (floor, ceiling))
    × IsStayPrice plan overrides modifiers 103 4 false floor ceiling quoted
compute_lem_example = compute_lem plan overrides modifiers 103 4 false bounds quoted computes
