-- ===== src/Pricing.antt =====
-- The price computation: apps/pricing/services.py over the rows of apps/pricing/models.py, and the
-- value objects of apps/shared/value_objects/price_breakdown.py. A date is its ordinal; the config
-- of a modifier stands in the shape that `validate_modifier_config` accepts for its type.
pub mod Clamp
pub mod Nights
pub mod Stay
use hotel_booking.Base.{
  ℕ, suc, ◌+◌, ◌%◌, Bool, true, false, ◌&&◌, ◌||◌, not, Option, none, some, List, [], ◌∷◌, ◌++◌,
  map, ltb, leb, ◌==◌, if◌then◌else◌, select, all, elem, length, range_from,
}
use hotel_booking.Base.Int.{ℤ, pos, ltb_ℤ, eqb_ℤ}
use hotel_booking.Results.{
  Result, ok, err, invalid_price_breakdown, rate_plan_not_active, ◌>>=◌, ◌>>◌, fail_if,
}
use hotel_booking.Money.{Money, percentage_of, sum_money, add}

pub data RatePlanStatus : Type 0 where
  draft active retired : RatePlanStatus

abbrev pub is_active : RatePlanStatus → Bool
is_active active = true
is_active _ = false

pub record RatePlan : Type 0 where
  pub id : ℕ
  pub property_id : ℕ
  pub room_type_id : ℕ
  pub base_rate_minor_units : ℤ
  pub currency : ℕ
  pub status : RatePlanStatus
  pub sellable : Bool

pub data AdjustmentType : Type 0 where
  absolute percent : AdjustmentType

-- Both dates are part of the range.
pub record RateOverride : Type 0 where
  pub id : ℕ
  pub start_date : ℕ
  pub end_date : ℕ
  pub adjustment_type : AdjustmentType
  pub adjustment_minor_units : ℤ

-- A date string that `date.fromisoformat` accepts: its date, and whether it is the text that
-- `isoformat` gives (`20260101` is not).
pub record StoredDate : Type 0 where
  pub date : ℕ
  pub is_canonical : Bool

pub data ModifierConfig : Type 0 where
  season : ℕ → ℕ → ℤ → ModifierConfig
  weekend : List ℕ → ℤ → ModifierConfig
  holiday : List StoredDate → ℤ → ModifierConfig
  long_stay : ℕ → ℤ → ModifierConfig
  corporate : ℤ → ModifierConfig

pub record RateModifier : Type 0 where
  pub id : ℕ
  pub config : ModifierConfig

-- `date.isoweekday()`, from the ordinal: Monday is 1, Sunday is 7
abbrev pub isoweekday : ℕ → ℕ
isoweekday d = if d % 7 == 0 then 7 else d % 7

abbrev pub is_calendar : ModifierConfig → Bool
is_calendar (season _ _ _) = true
is_calendar (weekend _ _) = true
is_calendar (holiday _ _) = true
is_calendar (long_stay _ _) = false
is_calendar (corporate _) = false

-- `night.isoformat() in dates`: texts are compared.
unfoldable pub has_text : ℕ → List StoredDate → Bool
has_text night [] = false
has_text night (s ∷ dates) = (s.is_canonical && night == s.date) || has_text night dates

unfoldable pub calendar_modifier_matches : ModifierConfig → ℕ → Bool
unfolding has_text
calendar_modifier_matches (season start_date end_date _) night =
    leb start_date night && leb night end_date
calendar_modifier_matches (weekend weekdays _) night = elem (isoweekday night) weekdays
calendar_modifier_matches (holiday dates _) night = has_text night dates
calendar_modifier_matches (long_stay _ _) night = false
calendar_modifier_matches (corporate _) night = false

unfoldable pub segment_modifier_matches : ModifierConfig → ℕ → Bool → Bool
segment_modifier_matches (long_stay min_nights _) nights is_corporate = leb min_nights nights
segment_modifier_matches (corporate _) nights is_corporate = is_corporate
segment_modifier_matches (season _ _ _) nights is_corporate = false
segment_modifier_matches (weekend _ _) nights is_corporate = false
segment_modifier_matches (holiday _ _) nights is_corporate = false

abbrev pub adjustment_pct : ModifierConfig → ℤ
adjustment_pct (season _ _ pct) = pct
adjustment_pct (weekend _ pct) = pct
adjustment_pct (holiday _ pct) = pct
adjustment_pct (long_stay _ pct) = pct
adjustment_pct (corporate pct) = pct

-- The first override, in the order of `start_date`, that covers the night.
unfoldable pub override_covering : List RateOverride → ℕ → Option RateOverride
override_covering [] night = none
override_covering (o ∷ os) night =
    let rest = override_covering os night in
    if leb o.start_date night && leb night o.end_date then some o else rest

unfoldable pub override_adjustment : RateOverride → Money → Result Money
override_adjustment o base = elim o.adjustment_type [
  | absolute ↦ ok (record { amount = o.adjustment_minor_units; currency = base.currency })
  | percent ↦ percentage_of base o.adjustment_minor_units
]

-- Inclusive ranges
unfoldable pub overrides_overlap : ℕ → ℕ → ℕ → ℕ → Bool
overrides_overlap a_start a_end b_start b_end = leb a_start b_end && leb b_start a_end

-- The labels `override:{id}` and `{modifier_type}:{id}`.
pub data LineLabel : Type 0 where
  override_label : ℕ → LineLabel
  modifier_label : ModifierConfig → ℕ → LineLabel

pub record LineItem : Type 0 where
  pub label : LineLabel
  pub amount : Money

pub record NightlyPrice : Type 0 where
  pub night : ℕ
  pub base : Money
  pub adjustments : List LineItem
  pub total : Money

pub record PriceBreakdown : Type 0 where
  pub nightly : List NightlyPrice
  pub subtotal : Money
  pub total : Money
  pub stay_adjustments : List LineItem
  pub floor_minor_units : Option ℤ
  pub ceiling_minor_units : Option ℤ

abbrev pub amounts : List LineItem → List Money
amounts = map (λ item. item.amount)

abbrev pub totals : List NightlyPrice → List Money
totals = map (λ n. n.total)

-- `NightlyPrice.__post_init__`
unfoldable pub check_nightly : NightlyPrice → Result NightlyPrice
check_nightly n = do
  fail_if (not (n.total.currency == n.base.currency)) invalid_price_breakdown
  fail_if (ltb_ℤ n.total.amount (pos 0)) invalid_price_breakdown
  fail_if (not (all (λ a. a.currency == n.base.currency) (amounts n.adjustments)))
      invalid_price_breakdown
  ok n

abbrev pub is_empty : List NightlyPrice → Bool
is_empty [] = true
is_empty (_ ∷ _) = false

abbrev pub money_eq : Money → Money → Bool
money_eq a b = eqb_ℤ a.amount b.amount && a.currency == b.currency

-- `PriceBreakdown.__post_init__`
unfoldable pub check_breakdown : PriceBreakdown → Result PriceBreakdown
check_breakdown b = do
  let currency = b.subtotal.currency
  fail_if (is_empty b.nightly) invalid_price_breakdown
  fail_if (not (b.total.currency == currency)) invalid_price_breakdown
  fail_if (not (all (λ n. n.base.currency == currency) b.nightly)) invalid_price_breakdown
  fail_if (not (all (λ a. a.currency == currency) (amounts b.stay_adjustments)))
      invalid_price_breakdown
  fail_if (ltb_ℤ b.total.amount (pos 0) || ltb_ℤ b.subtotal.amount (pos 0)) invalid_price_breakdown
  nightly_subtotal ← sum_money (record { amount = pos 0; currency = currency }) (totals b.nightly)
  adjusted ← sum_money (record { amount = pos 0; currency = currency }) (amounts b.stay_adjustments)
  computed ← add nightly_subtotal adjusted
  fail_if (not (money_eq computed b.subtotal)) invalid_price_breakdown
  ok b

-- One modifier's line, and the lines after it.
unfoldable pub modifier_item : Money → RateModifier → List LineItem → Result (List LineItem)
modifier_item base m rest = do
  amount ← percentage_of base (adjustment_pct m.config)
  ok (record { label = modifier_label m.config m.id; amount = amount } ∷ rest)

-- The loop over the calendar modifiers of one night.
unfoldable pub calendar_items : Money → ℕ → List RateModifier → Result (List LineItem)
unfolding calendar_modifier_matches modifier_item
calendar_items base night [] = ok []
calendar_items base night (m ∷ ms) = do
  rest ← calendar_items base night ms
  if calendar_modifier_matches m.config night then modifier_item base m rest else ok rest

unfoldable pub override_items : Money → Option RateOverride → Result (List LineItem)
unfolding override_adjustment
override_items base none = ok []
override_items base (some o) = do
  amount ← override_adjustment o base
  ok (record { label = override_label o.id; amount = amount } ∷ [])

unfoldable pub price_night : Money → List RateOverride → List RateModifier → ℕ → Result NightlyPrice
unfolding override_items calendar_items override_covering check_nightly
price_night base overrides calendar_modifiers night = do
  of_override ← override_items base (override_covering overrides night)
  of_calendar ← calendar_items base night calendar_modifiers
  let adjustments = of_override ++ of_calendar
  night_total ← sum_money base (amounts adjustments)
  check_nightly
      (record { night = night; base = base; adjustments = adjustments; total = night_total })

unfoldable pub price_nights :
    Money → List RateOverride → List RateModifier → List ℕ → Result (List NightlyPrice)
price_nights base overrides calendar_modifiers [] = ok []
price_nights base overrides calendar_modifiers (night ∷ nights) = do
  n ← price_night base overrides calendar_modifiers night
  ns ← price_nights base overrides calendar_modifiers nights
  ok (n ∷ ns)

-- The loop over the segment modifiers of the stay.
unfoldable pub segment_items : Money → ℕ → Bool → List RateModifier → Result (List LineItem)
unfolding segment_modifier_matches modifier_item
segment_items nightly_subtotal nights is_corporate [] = ok []
segment_items nightly_subtotal nights is_corporate (m ∷ ms) = do
  rest ← segment_items nightly_subtotal nights is_corporate ms
  let matches = segment_modifier_matches m.config nights is_corporate
  if matches then modifier_item nightly_subtotal m rest else ok rest

-- The ceiling first, then the floor.
unfoldable pub clamp_ceiling : Option ℤ → Money → Money
clamp_ceiling none total = total
clamp_ceiling (some ceiling) total =
    if ltb_ℤ ceiling total.amount then record total { amount = ceiling } else total

unfoldable pub clamp_floor : Option ℤ → Money → Money
clamp_floor none total = total
clamp_floor (some floor) total =
    if ltb_ℤ total.amount floor then record total { amount = floor } else total

-- `_compute`: `overrides` and `modifiers` are the active rows of the plan; `bounds` is what
-- `_pricing_policy_bounds` answers, or the exception that it raises.
unfoldable pub compute :
    RatePlan
    → List RateOverride
    → List RateModifier
    → ℕ
    → ℕ
    → Bool
    → Result (Option ℤ × Option ℤ)
    → Result PriceBreakdown
compute plan overrides modifiers arrival nights is_corporate bounds = do
  fail_if (not (is_active plan.status)) rate_plan_not_active
  let base : Money = record { amount = plan.base_rate_minor_units; currency = plan.currency }
  let calendar_modifiers = select (λ m. is_calendar m.config) modifiers
  let segment_modifiers = select (λ m. not (is_calendar m.config)) modifiers
  nightly ← price_nights base overrides calendar_modifiers (range_from arrival nights)
  nightly_subtotal ←
      sum_money (record { amount = pos 0; currency = plan.currency }) (totals nightly)
  stay_adjustments ← segment_items nightly_subtotal nights is_corporate segment_modifiers
  subtotal ← sum_money nightly_subtotal (amounts stay_adjustments)
  (floor, ceiling) ← bounds
  check_breakdown (record {
    nightly = nightly;
    subtotal = subtotal;
    total = clamp_floor floor (clamp_ceiling ceiling subtotal);
    stay_adjustments = stay_adjustments;
    floor_minor_units = floor;
    ceiling_minor_units = ceiling;
  })
