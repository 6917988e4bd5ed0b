-- ===== src/Pricing/Stay.antt =====
-- The price of a stay: what a computation that returns has added up.
use mathlib.Core.Path.{subst}
use hotel_booking.Base.{
  ℕ, ◌≤◌, ◌≡◌, refl, ap, ◌∙◌, inl, inr, Bool, true, false, not, ◌||◌, Option, none, some, List, [],
  ◌∷◌, arith, ◌==◌, if◌then◌else◌, select, all, range_from, Bool-cases,
}
use hotel_booking.Base.Int.{ℤ, pos, ltb_ℤ, ◌≤ℤ◌, ◌+ℤ◌, int_laws}
use hotel_booking.Results.{
  Result, ok, invalid_price_breakdown, rate_plan_not_active, bind-ok, fail_if-ok,
}
use hotel_booking.Money.{Money, sum_money, add}
use hotel_booking.Pricing.{
  RatePlan, active, draft, retired, RatePlanStatus, is_active, RateOverride, RateModifier,
  ModifierConfig, season, weekend, holiday, long_stay, corporate, LineItem, NightlyPrice,
  PriceBreakdown, amounts, totals, is_calendar, segment_modifier_matches, modifier_item,
  segment_items, price_night, price_nights, check_breakdown, is_empty, money_eq, clamp_floor,
  clamp_ceiling, compute,
}
use hotel_booking.Pricing.Clamp.{AtLeast, AtMost, IsOrdered}
use hotel_booking.Pricing.Nights.{
  amount_sum, sum_money-amount_sum, ModifierLines, AppliesTo, modifier_item-ok, IsPriced,
  price_night-IsPriced,
}

-- When a modifier applies to a stay.
abbrev pub AppliesToStay : ℕ → Bool → ModifierConfig → Type 0
AppliesToStay nights is_corporate (long_stay min_nights _) = min_nights ≤ nights
AppliesToStay nights is_corporate (corporate _) = is_corporate ≡ true
AppliesToStay nights is_corporate (season _ _ _) = ⊥
AppliesToStay nights is_corporate (weekend _ _) = ⊥
AppliesToStay nights is_corporate (holiday _ _) = ⊥

matches-AppliesToStay :
    (nights : ℕ) (corp : Bool) (c : ModifierConfig)
    → (segment_modifier_matches c nights corp ≡ true → AppliesToStay nights corp c)
      × (segment_modifier_matches c nights corp ≡ false → ¬ (AppliesToStay nights corp c))
unfolding segment_modifier_matches
matches-AppliesToStay nights corp (long_stay n _) = (λ h. ground arith, λ h x. ground arith)
matches-AppliesToStay nights corp (corporate _) = (λ h. h, λ h x. ground arith)
matches-AppliesToStay nights corp (season _ _ _) = (λ h. ground arith, λ _ x. x)
matches-AppliesToStay nights corp (weekend _ _) = (λ h. ground arith, λ _ x. x)
matches-AppliesToStay nights corp (holiday _ _) = (λ h. ground arith, λ _ x. x)

segment_items-ok :
    (base : Money) (nights : ℕ) (corp : Bool) (ms : List RateModifier) (items : List LineItem)
    → segment_items base nights corp ms ≡ ok items
    → ModifierLines (AppliesToStay nights corp) base ms items
unfolding segment_items
segment_items-ok base nights corp [] items h = ground (arith, h)
segment_items-ok base nights corp (m ∷ ms) items h =
    let (rest, made, done) =
      bind-ok (segment_items base nights corp ms)
        (λ rest.
          if segment_modifier_matches m.config nights corp
          then modifier_item base m rest
          else ok rest)
        items h in
    let lines = segment_items-ok base nights corp ms rest made in
    let (yes', no') = matches-AppliesToStay nights corp m.config in
    elim (Bool-cases (segment_modifier_matches m.config nights corp)) [
      | inl hit ↦
          let (a, e, p) = modifier_item-ok base m rest items (rw hit at done) in
          inl (yes' hit, a, rest, e, p, lines)
      | inr miss ↦
          let same : rest ≡ items = ground (arith, rw miss at done) in
          inr (no' miss, subst (ModifierLines (AppliesToStay nights corp) base ms) same lines)
    ]

-- The rows that the choice by type leaves out apply to nothing.
ModifierLines-select :
    (Applies : ModifierConfig → Type 0) (kept : RateModifier → Bool) (base : Money)
    (ms : List RateModifier) (items : List LineItem)
    → ((m : RateModifier) → kept m ≡ false → ¬ (Applies m.config))
    → ModifierLines Applies base (select kept ms) items
    → ModifierLines Applies base ms items
ModifierLines-select Applies kept base [] items out h = h
ModifierLines-select Applies kept base (m ∷ ms) items out h = elim (Bool-cases (kept m)) [
  | inl stays ↦ elim (rw stays at h) [
    | inl (applies, a, rest, e, p, lines) ↦
        inl (applies, a, rest, e, p, ModifierLines-select Applies kept base ms rest out lines)
    | inr (not_here, lines) ↦
        inr (not_here, ModifierLines-select Applies kept base ms items out lines)
  ]
  | inr goes ↦ inr (out m goes, ModifierLines-select Applies kept base ms items out (rw goes at h))
]

calendar-out : (night : ℕ) (c : ModifierConfig) → is_calendar c ≡ false → ¬ (AppliesTo night c)
calendar-out night (long_stay _ _) h x = x
calendar-out night (corporate _) h x = x
calendar-out night (season _ _ _) h x = ground arith
calendar-out night (weekend _ _) h x = ground arith
calendar-out night (holiday _ _) h x = ground arith

segment-out :
    (nights : ℕ) (corp : Bool) (c : ModifierConfig)
    → not (is_calendar c) ≡ false
    → ¬ (AppliesToStay nights corp c)
segment-out nights corp (long_stay _ _) h x = ground arith
segment-out nights corp (corporate _) h x = ground arith
segment-out nights corp (season _ _ _) h x = x
segment-out nights corp (weekend _ _) h x = x
segment-out nights corp (holiday _ _) h x = x

-- One price for each date, in order.
abbrev pub ArePriced :
    Money → List RateOverride → List RateModifier → List ℕ → List NightlyPrice → Type 0
ArePriced base overrides modifiers [] ns = ns ≡ []
ArePriced base overrides modifiers (d ∷ ds) ns =
    (n : NightlyPrice) × (rest : List NightlyPrice) × (ns ≡ n ∷ rest)
    × IsPriced base overrides modifiers d n
    × ArePriced base overrides modifiers ds rest

IsPriced-select :
    (base : Money) (os : List RateOverride) (ms : List RateModifier) (d : ℕ) (n : NightlyPrice)
    → IsPriced base os (select (λ m. is_calendar m.config) ms) d n
    → IsPriced base os ms d n
IsPriced-select base os ms d n
      (p, q, of_override, of_calendar, e, lines, more, sum, same, some_money) =
    (
      p,
      q,
      of_override,
      of_calendar,
      e,
      lines,
      ModifierLines-select (AppliesTo d) (λ m. is_calendar m.config) base ms of_calendar
          (λ m. calendar-out d m.config) more,
      sum,
      same,
      some_money,
    )

price_nights-ArePriced :
    (base : Money) (os : List RateOverride) (ms : List RateModifier) (ds : List ℕ)
    (ns : List NightlyPrice)
    → price_nights base os (select (λ m. is_calendar m.config) ms) ds ≡ ok ns
    → ArePriced base os ms ds ns
unfolding price_nights
price_nights-ArePriced base os ms [] ns h = ground (arith, h)
price_nights-ArePriced base os ms (d ∷ ds) ns h =
    let calendar = select (λ (m : RateModifier). is_calendar m.config) ms in
    let (n, one, h1) = bind-ok (price_night base os calendar d) _ ns h in
    let (rest, others, h2) = bind-ok (price_nights base os calendar ds) _ ns h1 in
    (
      n,
      rest,
      ground (arith, h2),
      IsPriced-select base os ms d n (price_night-IsPriced base os calendar d n one),
      price_nights-ArePriced base os ms ds rest others,
    )

-- The total against the bounds: a bound that the subtotal breaks is the total, where the floor does
-- not stand above the ceiling, and a subtotal within both is the total.
abbrev pub IsClamped : Option ℤ → Option ℤ → Money → Money → Type 0
IsClamped floor ceiling m t =
    (t.currency ≡ m.currency)
    × (AtLeast floor m.amount → AtMost ceiling m.amount → t ≡ m)
    × (¬ (AtLeast floor m.amount) → floor ≡ some t.amount)
    × (IsOrdered floor ceiling → ¬ (AtMost ceiling m.amount) → ceiling ≡ some t.amount)
    × AtLeast floor t.amount

clamp-IsClamped :
    (floor ceiling : Option ℤ) (m : Money)
    → IsClamped floor ceiling m (clamp_floor floor (clamp_ceiling ceiling m))
unfolding clamp_floor clamp_ceiling
clamp-IsClamped none none m = ground arith
clamp-IsClamped (some f) none m = ground arith
clamp-IsClamped none (some c) m = ground arith
clamp-IsClamped (some f) (some c) m = ground arith

check_breakdown-ok :
    (b b' : PriceBreakdown)
    → check_breakdown b ≡ ok b'
    → (b ≡ b') × (pos 0 ≤ℤ b.subtotal.amount) × (pos 0 ≤ℤ b.total.amount)
unfolding check_breakdown
check_breakdown-ok b b' h =
    let c = b.subtotal.currency in
    let zero_money : Money = record { amount = pos 0; currency = c } in
    let (_, h1) = fail_if-ok (is_empty b.nightly) invalid_price_breakdown _ b' h in
    let (_, h2) = fail_if-ok (not (b.total.currency == c)) invalid_price_breakdown _ b' h1 in
    let (_, h3) =
      fail_if-ok (not (all (λ n. n.base.currency == c) b.nightly)) invalid_price_breakdown _ b'
        h2 in
    let (_, h4) =
      fail_if-ok (not (all (λ a. a.currency == c) (amounts b.stay_adjustments)))
        invalid_price_breakdown _ b' h3 in
    let (signs, h5) =
      fail_if-ok (ltb_ℤ b.total.amount (pos 0) || ltb_ℤ b.subtotal.amount (pos 0))
        invalid_price_breakdown _ b' h4 in
    let (nightly_sum, _, h6) = bind-ok (sum_money zero_money (totals b.nightly)) _ b' h5 in
    let (adjusted, _, h7) = bind-ok (sum_money zero_money (amounts b.stay_adjustments)) _ b' h6 in
    let (computed, _, h8) = bind-ok (add nightly_sum adjusted) _ b' h7 in
    let (_, h9) = fail_if-ok (not (money_eq computed b.subtotal)) invalid_price_breakdown _ b' h8 in
    (ground (arith, h9), ground (arith, signs), ground (arith, signs))

abbrev pub IsStayPrice :
    RatePlan
    → List RateOverride
    → List RateModifier
    → ℕ
    → ℕ
    → Bool
    → Option ℤ
    → Option ℤ
    → PriceBreakdown
    → Type 0
IsStayPrice plan overrides modifiers arrival nights is_corporate floor ceiling b =
    ArePriced (record { amount = plan.base_rate_minor_units; currency = plan.currency }) overrides
      modifiers (range_from arrival nights) b.nightly
    × ModifierLines (AppliesToStay nights is_corporate)
        (record { amount = amount_sum (totals b.nightly); currency = plan.currency }) modifiers
        b.stay_adjustments
    × (b.subtotal.amount ≡ amount_sum (totals b.nightly) +ℤ amount_sum (amounts b.stay_adjustments))
    × (b.subtotal.currency ≡ plan.currency)
    × IsClamped floor ceiling b.subtotal b.total
    × (pos 0 ≤ℤ b.subtotal.amount)
    × (pos 0 ≤ℤ b.total.amount)

is_active-active : (plan : RatePlan) → is_active plan.status ≡ true → plan.status ≡ active
is_active-active plan h = go plan.status h
  where
    go : (s : RatePlanStatus) → is_active s ≡ true → s ≡ active
    go active h = refl
    go draft h = ground arith
    go retired h = ground arith

zero_+ℤ : (a : ℤ) → pos 0 +ℤ a ≡ a
zero_+ℤ a = omega int_laws

money_eta :
    (m : Money) (a : ℤ) (c : ℕ)
    → m.amount ≡ a
    → m.currency ≡ c
    → m ≡ record { amount = a; currency = c }
money_eta m a c p q = ground (arith, p, q)

-- When the computation of a price returns, the plan is active and the policy answered with a floor
-- and a ceiling. Each date of the stay has one price: the base rate, plus the first override that
-- covers the date, absolute or a percentage of the base, plus a percentage of the base for each
-- calendar modifier that applies to the date, and it is not negative. The subtotal is the sum of
-- the nights plus a percentage of that sum for each modifier that applies to the stay. The total is
-- the subtotal where it keeps to both bounds, and the bound that it breaks otherwise, where the
-- floor does not stand above the ceiling; it is never below the floor, and neither is negative.
pub compute_lem :
    (plan : RatePlan) (overrides : List RateOverride) (modifiers : List RateModifier)
    (arrival nights : ℕ) (is_corporate : Bool) (bounds : Result (Option ℤ × Option ℤ))
    (b : PriceBreakdown)
    → compute plan overrides modifiers arrival nights is_corporate bounds ≡ ok b
    → (plan.status ≡ active)
      × (floor : Option ℤ) × (ceiling : Option ℤ) × (bounds ≡ ok (floor, ceiling))
      × IsStayPrice plan overrides modifiers arrival nights is_corporate floor ceiling b
unfolding compute
compute_lem plan overrides modifiers arrival nights is_corporate bounds b h =
    let base : Money = record { amount = plan.base_rate_minor_units; currency = plan.currency } in
    let zero_money : Money = record { amount = pos 0; currency = plan.currency } in
    let calendar = select (λ (m : RateModifier). is_calendar m.config) modifiers in
    let segments = select (λ (m : RateModifier). not (is_calendar m.config)) modifiers in
    let (on, h1) = fail_if-ok (not (is_active plan.status)) rate_plan_not_active _ b h in
    let (nightly, priced, h2) =
      bind-ok (price_nights base overrides calendar (range_from arrival nights)) _ b h1 in
    let (sum, summed, h3) = bind-ok (sum_money zero_money (totals nightly)) _ b h2 in
    let (stay, made, h4) = bind-ok (segment_items sum nights is_corporate segments) _ b h3 in
    let (subtotal, added, h5) = bind-ok (sum_money sum (amounts stay)) _ b h4 in
    let ((floor, ceiling), answered, h6) = bind-ok bounds _ b h5 in
    let out : PriceBreakdown = record {
      nightly = nightly;
      subtotal = subtotal;
      total = clamp_floor floor (clamp_ceiling ceiling subtotal);
      stay_adjustments = stay;
      floor_minor_units = floor;
      ceiling_minor_units = ceiling;
    } in
    let (same, some_subtotal, some_total) = check_breakdown-ok out b h6 in
    let (p, c) = sum_money-amount_sum zero_money (totals nightly) sum summed in
    let (q, d) = sum_money-amount_sum sum (amounts stay) subtotal added in
    let total_of_nights : sum.amount ≡ amount_sum (totals nightly) =
      p ∙ zero_+ℤ (amount_sum (totals nightly)) in
    let lines =
      ModifierLines-select (AppliesToStay nights is_corporate) (λ m. not (is_calendar m.config)) sum
        modifiers stay (λ m. segment-out nights is_corporate m.config)
        (segment_items-ok sum nights is_corporate segments stay made) in
    (
      is_active-active plan (ground (arith, on)),
      floor,
      ceiling,
      answered,
      subst (IsStayPrice plan overrides modifiers arrival nights is_corporate floor ceiling) same (
        price_nights-ArePriced base overrides modifiers (range_from arrival nights) nightly priced,
        subst (λ m. ModifierLines (AppliesToStay nights is_corporate) m modifiers stay)
            (money_eta sum (amount_sum (totals nightly)) plan.currency total_of_nights c) lines,
        q ∙ ap (λ a. a +ℤ amount_sum (amounts stay)) total_of_nights,
        d ∙ c,
        clamp-IsClamped floor ceiling subtotal,
        some_subtotal,
        some_total,
      ),
    )
