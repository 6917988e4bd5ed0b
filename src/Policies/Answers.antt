-- ===== src/Policies/Answers.antt =====
-- The rules of a policy as a JSON object: its look-ups by key, and the answers that the services
-- of apps/policies/services.py read off it.
use Prim.Native.String.{String}
use text.Mathlib.Text.{◌==◌}
use hotel_booking.Base.{Option, none, some, [], ◌∷◌, ◌++◌, if◌then◌else◌}
use hotel_booking.Model.{RuleValue, number, text_value, null_value, Rules}

-- `rules.get(key)`, with `none` for a missing key
unfoldable pub get : String → Rules → Option RuleValue
get key [] = none
get key ((k, v) ∷ rules) = let rest = get key rules in if k == key then some v else rest

-- `rules.get(key, default)`
abbrev pub get_default : String → RuleValue → Rules → RuleValue
get_default key default rules = elim (get key rules) [ none ↦ default | some v ↦ v ]

-- `x if x else None` on a dictionary
abbrev pub rules_or_none : Rules → Option Rules
rules_or_none [] = none
rules_or_none (r ∷ rules) = some (r ∷ rules)

-- `policy.rules if policy.rules else {}`
abbrev pub answer_of : Option Rules → Rules
answer_of none = []
answer_of (some rules) = rules

abbrev pub entry : String → Rules → Rules
entry key answer = elim (get key answer) [ none ↦ [] | some v ↦ (key, v) ∷ [] ]

-- The `penalty` of `can_cancel`.
unfoldable pub penalty : Rules → Option Rules
penalty answer = rules_or_none (entry "penalty_type" answer ++ entry "penalty_value" answer)

-- The fallbacks of `check_in_time` and `check_out_time`.
abbrev pub default_check_in : Rules
default_check_in =
    ("earliest", text_value "15:00")
    ∷ ("latest", text_value "23:00")
    ∷ ("grace_minutes", number 30)
    ∷ []

abbrev pub default_check_out : Rules
default_check_out = ("latest", text_value "12:00") ∷ ("late_fee_per_hour", null_value) ∷ []
