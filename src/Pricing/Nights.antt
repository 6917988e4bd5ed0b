-- ===== src/Pricing/Nights.antt =====
-- The price of one night: the override and the calendar modifiers that apply to it, and the sum.
use mathlib.Core.Path.{subst}
use hotel_booking.Base.{
  ℕ, ◌≤◌, ◌≡◌, refl, ◌⊎◌, inl, inr, true, false, ◌&&◌, List, [], ◌∷◌, ◌++◌, arith, ◌==◌,
  if◌then◌else◌, elem, leb, Bool-cases,
}
use hotel_booking.Base.Int.{ℤ, pos, ◌≤ℤ◌, ◌+ℤ◌, int_laws}
use hotel_booking.Results.{ok, bind-ok}
use hotel_booking.Money.{Money, percentage_of, sum_money, add}
use hotel_booking.Pricing.{
  RateOverride, RateModifier, AdjustmentType, absolute, percent, ModifierConfig, season, weekend,
  holiday, long_stay, corporate, StoredDate, LineItem, override_label, modifier_label, NightlyPrice,
  adjustment_pct, amounts, isoweekday, has_text, calendar_modifier_matches, override_covering,
  override_adjustment, override_items, modifier_item, calendar_items, price_night, check_nightly,
}

abbrev pub amount_sum : List Money → ℤ
amount_sum [] = pos 0
amount_sum (m ∷ ms) = m.amount +ℤ amount_sum ms

+ℤ_zero : (a : ℤ) → a ≡ a +ℤ pos 0
+ℤ_zero a = omega int_laws

+ℤ_assoc : (a b c : ℤ) → (a +ℤ b) +ℤ c ≡ a +ℤ (b +ℤ c)
+ℤ_assoc a b c = omega int_laws

add-amount :
    (a b s : Money) → add a b ≡ ok s → (s.amount ≡ a.amount +ℤ b.amount) × (s.currency ≡ a.currency)
unfolding add
add-amount a b s h = ground (arith, h)

-- A sum that succeeds adds up.
pub sum_money-amount_sum :
    (acc : Money) (ms : List Money) (s : Money)
    → sum_money acc ms ≡ ok s
    → (s.amount ≡ acc.amount +ℤ amount_sum ms) × (s.currency ≡ acc.currency)
unfolding sum_money
sum_money-amount_sum acc [] s h = ground (arith, h, +ℤ_zero acc.amount)
sum_money-amount_sum acc (m ∷ ms) s h =
    let (acc', one, more) = bind-ok (add acc m) (λ a. sum_money a ms) s h in
    let (p, c) = add-amount acc m acc' one in
    let (q, d) = sum_money-amount_sum acc' ms s more in
    ground (arith, p, c, q, d, +ℤ_assoc acc.amount m.amount (amount_sum ms))

-- Both ends of an override belong to it.
abbrev pub Covers : RateOverride → ℕ → Type 0
Covers o night = (o.start_date ≤ night) × (night ≤ o.end_date)

-- An absolute adjustment is the configured amount, a relative one a percentage of the base.
abbrev pub Adjusts : AdjustmentType → Money → ℤ → Money → Type 0
Adjusts absolute base n a = (a.amount ≡ n) × (a.currency ≡ base.currency)
Adjusts percent base n a = percentage_of base n ≡ ok a

-- One line for the first override that covers the night, none when none does.
abbrev pub OverrideLines : Money → ℕ → List RateOverride → List LineItem → Type 0
OverrideLines base night [] items = items ≡ []
OverrideLines base night (o ∷ os) items =
    (Covers o night
      × (a : Money) × (items ≡ record { label = override_label o.id; amount = a } ∷ [])
      × Adjusts o.adjustment_type base o.adjustment_minor_units a)
    ⊎ (¬ (Covers o night) × OverrideLines base night os items)

abbrev pub HasDate : ℕ → List StoredDate → Type 0
HasDate night [] = ⊥
HasDate night (s ∷ dates) = ((s.is_canonical ≡ true) × (night ≡ s.date)) ⊎ HasDate night dates

-- When a modifier applies to a night.
abbrev pub AppliesTo : ℕ → ModifierConfig → Type 0
AppliesTo night (season start_date end_date _) = (start_date ≤ night) × (night ≤ end_date)
AppliesTo night (weekend weekdays _) = elem (isoweekday night) weekdays ≡ true
AppliesTo night (holiday dates _) = HasDate night dates
AppliesTo night (long_stay _ _) = ⊥
AppliesTo night (corporate _) = ⊥

-- One line for each modifier that applies, in order, with its percentage of the base.
abbrev pub ModifierLines :
    (ModifierConfig → Type 0) → Money → List RateModifier → List LineItem → Type 0
ModifierLines Applies base [] items = items ≡ []
ModifierLines Applies base (m ∷ ms) items =
    (Applies m.config
      × (a : Money) × (rest : List LineItem) × (items
          ≡ record { label = modifier_label m.config m.id; amount = a } ∷ rest)
      × (percentage_of base (adjustment_pct m.config) ≡ ok a)
      × ModifierLines Applies base ms rest)
    ⊎ (¬ (Applies m.config) × ModifierLines Applies base ms items)

has_text-HasDate :
    (night : ℕ) (dates : List StoredDate)
    → (has_text night dates ≡ true → HasDate night dates)
      × (has_text night dates ≡ false → ¬ (HasDate night dates))
unfolding has_text
has_text-HasDate night [] = (λ h. ground arith, λ _ x. x)
has_text-HasDate night (s ∷ dates) =
    let (yes', no') = has_text-HasDate night dates in
    elim (Bool-cases (s.is_canonical && night == s.date)) [
      | inl hit ↦ (λ h. inl (ground arith, ground arith), λ h. ground arith)
      | inr miss ↦ (
        λ h. inr (yes' (ground arith)),
        λ h x. elim x [
          | inl (c, same) ↦ ground (arith, miss, c, same)
          | inr later ↦ no' (ground arith) later
        ],
      )
    ]

matches-AppliesTo :
    (night : ℕ) (c : ModifierConfig)
    → (calendar_modifier_matches c night ≡ true → AppliesTo night c)
      × (calendar_modifier_matches c night ≡ false → ¬ (AppliesTo night c))
unfolding calendar_modifier_matches
matches-AppliesTo night (season a b _) = (λ h. ground arith, λ h (p, q). ground arith)
matches-AppliesTo night (weekend days _) = (λ h. h, λ h x. ground arith)
matches-AppliesTo night (holiday dates _) = has_text-HasDate night dates
matches-AppliesTo night (long_stay _ _) = (λ h. ground arith, λ _ x. x)
matches-AppliesTo night (corporate _) = (λ h. ground arith, λ _ x. x)

-- The line of a modifier, and the lines after it.
pub modifier_item-ok :
    (base : Money) (m : RateModifier) (rest items : List LineItem)
    → modifier_item base m rest ≡ ok items
    → (a : Money) × (items ≡ record { label = modifier_label m.config m.id; amount = a } ∷ rest)
      × (percentage_of base (adjustment_pct m.config) ≡ ok a)
unfolding modifier_item
modifier_item-ok base m rest items h =
    let (a, e, done) =
      bind-ok (percentage_of base (adjustment_pct m.config))
        (λ amount. ok (record { label = modifier_label m.config m.id; amount = amount } ∷ rest))
        items h in
    (a, ground (arith, done), e)

calendar_items-ok :
    (base : Money) (night : ℕ) (ms : List RateModifier) (items : List LineItem)
    → calendar_items base night ms ≡ ok items
    → ModifierLines (AppliesTo night) base ms items
unfolding calendar_items
calendar_items-ok base night [] items h = ground (arith, h)
calendar_items-ok base night (m ∷ ms) items h =
    let (rest, made, done) =
      bind-ok (calendar_items base night ms)
        (λ rest.
          if calendar_modifier_matches m.config night then modifier_item base m rest else ok rest)
        items h in
    let lines = calendar_items-ok base night ms rest made in
    let (yes', no') = matches-AppliesTo night m.config in
    elim (Bool-cases (calendar_modifier_matches m.config night)) [
      | inl hit ↦
          let (a, e, p) = modifier_item-ok base m rest items (rw hit at done) in
          inl (yes' hit, a, rest, e, p, lines)
      | inr miss ↦
          let same : rest ≡ items = ground (arith, rw miss at done) in
          inr (no' miss, subst (ModifierLines (AppliesTo night) base ms) same lines)
    ]

AdjustmentType-cases : (t : AdjustmentType) → (t ≡ absolute) ⊎ (t ≡ percent)
AdjustmentType-cases absolute = inl refl
AdjustmentType-cases percent = inr refl

override_adjustment-Adjusts :
    (o : RateOverride) (base a : Money)
    → override_adjustment o base ≡ ok a
    → Adjusts o.adjustment_type base o.adjustment_minor_units a
unfolding override_adjustment
override_adjustment-Adjusts o base a h = elim (AdjustmentType-cases o.adjustment_type) [
  | inl e ↦ rw e (let h' = rw e at h in (ground (arith, h'), ground (arith, h')))
  | inr e ↦ rw e (rw e at h)
]

override_items-ok :
    (base : Money) (night : ℕ) (os : List RateOverride) (items : List LineItem)
    → override_items base (override_covering os night) ≡ ok items
    → OverrideLines base night os items
unfolding override_items override_covering
override_items-ok base night [] items h = ground (arith, h)
override_items-ok base night (o ∷ os) items h =
    elim (Bool-cases (leb o.start_date night && leb night o.end_date)) [
      | inl hit ↦
          let (a, e, done) =
            bind-ok (override_adjustment o base)
              (λ amount. ok (record { label = override_label o.id; amount = amount } ∷ [])) items
              (rw hit at h) in
          inl (
            (ground arith, ground arith),
            a,
            ground (arith, done),
            override_adjustment-Adjusts o base a e,
          )
      | inr miss ↦
          inr (λ (p, q). ground (arith, miss), override_items-ok base night os items (rw miss at h))
    ]

-- A night in its parts: base, lines of the override and of the calendar modifiers, and their sum.
abbrev pub IsPriced : Money → List RateOverride → List RateModifier → ℕ → NightlyPrice → Type 0
IsPriced base overrides modifiers night n =
    (n.night ≡ night)
    × (n.base ≡ base)
    × (of_override : List LineItem) × (of_calendar : List LineItem) × (n.adjustments
        ≡ of_override ++ of_calendar)
    × OverrideLines base night overrides of_override
    × ModifierLines (AppliesTo night) base modifiers of_calendar
    × (n.total.amount ≡ base.amount +ℤ amount_sum (amounts n.adjustments))
    × (n.total.currency ≡ base.currency)
    × (pos 0 ≤ℤ n.total.amount)

check_nightly-ok :
    (n n' : NightlyPrice) → check_nightly n ≡ ok n' → (n ≡ n') × (pos 0 ≤ℤ n.total.amount)
unfolding check_nightly
check_nightly-ok n n' h = ground (arith, h)

pub price_night-IsPriced :
    (base : Money) (overrides : List RateOverride) (modifiers : List RateModifier) (night : ℕ)
    (n : NightlyPrice)
    → price_night base overrides modifiers night ≡ ok n
    → IsPriced base overrides modifiers night n
unfolding price_night
price_night-IsPriced base overrides modifiers night n h =
    let (of_override, first, h1) =
      bind-ok (override_items base (override_covering overrides night)) _ n h in
    let (of_calendar, second, h2) = bind-ok (calendar_items base night modifiers) _ n h1 in
    let items = of_override ++ of_calendar in
    let (total, sum, h3) = bind-ok (sum_money base (amounts items)) _ n h2 in
    let (p, c) = sum_money-amount_sum base (amounts items) total sum in
    let made : NightlyPrice = record {
      night = night;
      base = base;
      adjustments = items;
      total = total;
    } in
    let (same, some_money) = check_nightly-ok made n h3 in
    subst (IsPriced base overrides modifiers night) same (
      refl,
      refl,
      of_override,
      of_calendar,
      refl,
      override_items-ok base night overrides of_override first,
      calendar_items-ok base night modifiers of_calendar second,
      p,
      c,
      some_money,
    )
