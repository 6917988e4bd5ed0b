-- ===== src/Policies.antt =====
-- apps/policies/models.py and apps/policies/services.py: versioned policies, from a draft to a
-- published row that is never rewritten, and the resolution of the one in effect on a date.
pub mod Answers
pub mod Effect
pub mod Resolution
pub mod Publication
pub mod Frozen
pub mod Writes
pub mod Calls
pub mod History
use hotel_booking.Base.{
  ℕ, suc, ◌+◌, Bool, true, false, ◌&&◌, ◌||◌, not, Option, none, some, List, [], ◌∷◌, select, find?,
  ltb, leb, ◌==◌, option_eq, if◌then◌else◌, decide,
}
use hotel_booking.Tx.{
  ok, err, value_error, validation_error, integrity_error, data_error, does_not_exist,
  no_policy_found, invalid_state_transition, Error, pure, raise, raise_if, gets, modify,
  from_option, atomic, ◌>>=◌, ◌>>◌,
}
use hotel_booking.Table.{get_row, put_row}
use hotel_booking.Model.{
  Db, Action, new_id, today, Policy, PolicyStatus, PolicyStatus-discrete, PolicyType,
  PolicyType-discrete, Rules, RuleValue, truth, null_value, PolicyEvaluationLog,
}
use hotel_booking.Policies.Answers.{
  get_default, rules_or_none, answer_of, penalty, default_check_in, default_check_out,
}

abbrev pub status_eq : PolicyStatus → PolicyStatus → Bool
status_eq a b = decide (PolicyStatus-discrete a b)

abbrev pub type_eq : PolicyType → PolicyType → Bool
type_eq a b = decide (PolicyType-discrete a b)

-- `policy_effective_to_after_from`
abbrev pub dates_fit : Policy → Bool
dates_fit p = elim p.effective_to [ none ↦ true | some d ↦ ltb p.effective_from d ]

-- `policy_version_positive`
abbrev pub version_positive : Policy → Bool
version_positive p = elim p.version [ none ↦ true | some v ↦ ltb 0 v ]

-- A `PositiveSmallIntegerField` is a smallint.
abbrev pub version_fits : Policy → Bool
version_fits p = elim p.version [ none ↦ true | some v ↦ leb v 32767 ]

-- `full_clean()`: the validators and the constraints, ahead of the database.
abbrev pub full_clean : Policy → Action (Unit {0})
full_clean p =
    raise_if (not (version_fits p && (dates_fit p && version_positive p))) validation_error

-- What the database itself refuses.
abbrev pub check_row : Policy → Action (Unit {0})
check_row p = do
  raise_if (not (version_fits p)) data_error
  raise_if (not (dates_fit p && version_positive p)) integrity_error

-- `save()` of an instance without a key: INSERT.
abbrev pub insert_policy : Policy → Action (Unit {0})
insert_policy row = do check_row row; modify λ db. record db { policies = row ∷ db.policies }

-- The guard of `Policy.save`: a published row may only change its status.
abbrev pub is_immutable : Policy → Option Policy → Bool
is_immutable row none = false
is_immutable row (some existing) =
    status_eq existing.status PolicyStatus.published && status_eq row.status PolicyStatus.published

-- UPDATE by key, and INSERT where no row has the key.
abbrev pub store_policy : Policy → Option Policy → List Policy → List Policy
store_policy row none ps = row ∷ ps
store_policy row (some _) ps = put_row (λ p. p.id) row ps

-- `Policy.save` of an instance that was loaded.
abbrev pub save_policy : Policy → Action (Unit {0})
save_policy row = do
  existing ← gets λ db. get_row (λ p. p.id) row.id db.policies
  raise_if (is_immutable row existing) value_error
  check_row row
  modify λ db. record db { policies = store_policy row existing db.policies }

-- `Policy.objects.get(id=…)`
abbrev pub get_policy : ℕ → Action Policy
get_policy i = do
  found ← gets λ db. get_row (λ p. p.id) i db.policies
  from_option does_not_exist found

-- `Policy.objects.get(id=…, status=…)`
abbrev pub get_policy_in : PolicyStatus → ℕ → Action Policy
get_policy_in status i = do
  found ← gets λ db. find? (λ p. p.id == i && status_eq p.status status) db.policies
  from_option does_not_exist found

abbrev pub has_type : ℕ → PolicyType → Policy → Bool
has_type tenant_id policy_type p = p.tenant_id == tenant_id && type_eq p.policy_type policy_type

-- The rows that `create_draft` deletes.
abbrev pub is_unversioned : ℕ → PolicyType → Policy → Bool
is_unversioned tenant_id policy_type p =
    has_type tenant_id policy_type p && elim p.version [ none ↦ true | some v ↦ false ]

-- Does a log refer to the row? Its foreign key is RESTRICT.
unfoldable pub is_evaluated : ℕ → List PolicyEvaluationLog → Bool
is_evaluated i [] = false
is_evaluated i (l ∷ logs) = l.policy_id == i || is_evaluated i logs

unfoldable pub is_restricted : ℕ → PolicyType → List PolicyEvaluationLog → List Policy → Bool
is_restricted tenant_id policy_type logs [] = false
is_restricted tenant_id policy_type logs (p ∷ ps) =
    (is_unversioned tenant_id policy_type p && is_evaluated p.id logs)
    || is_restricted tenant_id policy_type logs ps

-- The deletion and the new draft.
unfoldable pub replace_draft : ℕ → PolicyType → Rules → ℕ → Option ℕ → Option ℕ → Action Policy
replace_draft tenant_id policy_type rules effective_from effective_to property_id = do
  modify λ db. record db {
    policies = select (λ p. not (is_unversioned tenant_id policy_type p)) db.policies;
  }
  i ← gets λ db. db.next_id
  let row : Policy = record {
    id = i;
    tenant_id = tenant_id;
    policy_type = policy_type;
    version = none;
    status = PolicyStatus.draft;
    effective_from = effective_from;
    effective_to = effective_to;
    rules = some rules;
    property_id = property_id;
    published_at = none;
  }
  full_clean row
  _ ← new_id
  insert_policy row
  pure row

-- RestrictedError is an IntegrityError.
unfoldable pub create_draft : ℕ → PolicyType → Rules → ℕ → Option ℕ → Option ℕ → Action Policy
create_draft tenant_id policy_type rules effective_from effective_to property_id = do
  restricted ← gets λ db. is_restricted tenant_id policy_type db.policy_evaluation_log db.policies
  raise_if restricted integrity_error
  replace_draft tenant_id policy_type rules effective_from effective_to property_id

-- A keyword argument of `update_draft`: any column, the key included.
pub data PolicyUpdate : Type 0 where
  set_id : ℕ → PolicyUpdate
  set_tenant_id : ℕ → PolicyUpdate
  set_policy_type : PolicyType → PolicyUpdate
  set_version : Option ℕ → PolicyUpdate
  set_status : PolicyStatus → PolicyUpdate
  set_effective_from : ℕ → PolicyUpdate
  set_effective_to : Option ℕ → PolicyUpdate
  set_rules : Option Rules → PolicyUpdate
  set_property_id : Option ℕ → PolicyUpdate
  set_published_at : Option ℕ → PolicyUpdate

-- `setattr(policy, field, value)`
abbrev pub set_attribute : PolicyUpdate → Policy → Policy
set_attribute (set_id i) p = record p { id = i }
set_attribute (set_tenant_id i) p = record p { tenant_id = i }
set_attribute (set_policy_type t) p = record p { policy_type = t }
set_attribute (set_version v) p = record p { version = v }
set_attribute (set_status s) p = record p { status = s }
set_attribute (set_effective_from d) p = record p { effective_from = d }
set_attribute (set_effective_to d) p = record p { effective_to = d }
set_attribute (set_rules r) p = record p { rules = r }
set_attribute (set_property_id i) p = record p { property_id = i }
set_attribute (set_published_at t) p = record p { published_at = t }

unfoldable pub set_fields : List PolicyUpdate → Policy → Policy
set_fields [] p = p
set_fields (u ∷ updates) p = set_fields updates (set_attribute u p)

unfoldable pub update_draft : ℕ → List PolicyUpdate → Action Policy
update_draft policy_id updates = do
  policy ← get_policy_in PolicyStatus.draft policy_id
  full_clean (set_fields updates policy)
  save_policy (set_fields updates policy)
  pure (set_fields updates policy)

-- `Max("version")` over the rows with `version > 0`, `or 0`
unfoldable pub max_version : ℕ → PolicyType → List Policy → ℕ
max_version tenant_id policy_type [] = 0
max_version tenant_id policy_type (p ∷ ps) =
    let rest = max_version tenant_id policy_type ps in
    elim p.version [
      | none ↦ rest
      | some v ↦ if has_type tenant_id policy_type p && ltb rest v then v else rest
    ]

abbrev pub has_version : ℕ → PolicyType → ℕ → Policy → Bool
has_version tenant_id policy_type version p =
    has_type tenant_id policy_type p && option_eq p.version (some version)

-- The row that `publish` creates from a draft.
abbrev pub published_copy : ℕ → ℕ → ℕ → Policy → Policy
published_copy i version now draft = record draft {
  id = i;
  version = some version;
  status = PolicyStatus.published;
  published_at = some now;
}

unfoldable pub publish_draft : ℕ → Action Policy
publish_draft policy_id = do
  draft ← get_policy_in PolicyStatus.draft policy_id
  next_version ← gets λ db. suc (max_version draft.tenant_id draft.policy_type db.policies)
  i ← new_id
  now ← gets λ db. db.now
  insert_policy (published_copy i next_version now draft)
  restricted ← gets λ db. is_evaluated draft.id db.policy_evaluation_log
  raise_if restricted integrity_error
  modify λ db. record db { policies = select (λ p. not (p.id == draft.id)) db.policies }
  found ← gets λ db. find? (has_version draft.tenant_id draft.policy_type next_version) db.policies
  from_option does_not_exist found

unfoldable pub publish : ℕ → Action Policy
publish policy_id = do
  current ← get_policy policy_id
  raise_if (not (status_eq current.status PolicyStatus.draft)) invalid_state_transition
  atomic (publish_draft policy_id)

-- The retired row.
abbrev pub retired_copy : ℕ → Policy → Policy
retired_copy day p = record p {
  status = PolicyStatus.retired;
  effective_to = elim p.effective_to [ none ↦ some day | some d ↦ some d ];
}

unfoldable pub retire_published : ℕ → Action Policy
retire_published policy_id = do
  policy ← get_policy_in PolicyStatus.published policy_id
  day ← gets today
  save_policy (retired_copy day policy)
  pure (retired_copy day policy)

unfoldable pub retire : ℕ → Action Policy
retire policy_id = do
  current ← get_policy policy_id
  raise_if (not (status_eq current.status PolicyStatus.published)) invalid_state_transition
  atomic (retire_published policy_id)

-- `Q(effective_to__isnull=True) | Q(effective_to__gt=context_date)`
abbrev pub not_over : ℕ → Policy → Bool
not_over context_date p = elim p.effective_to [ none ↦ true | some d ↦ ltb context_date d ]

-- The property scope: no filter without a property.
abbrev pub in_scope : Option ℕ → Policy → Bool
in_scope none p = true
in_scope (some i) p = elim p.property_id [ none ↦ true | some j ↦ j == i ]

-- The filters of `resolve`.
abbrev pub is_matching : ℕ → PolicyType → ℕ → Option ℕ → Policy → Bool
is_matching tenant_id policy_type context_date property_id p =
    has_type tenant_id policy_type p
    && (status_eq p.status PolicyStatus.published
        && (leb p.effective_from context_date
            && (in_scope property_id p && not_over context_date p)))

-- `ORDER BY version DESC`: a NULL stands first in PostgreSQL.
abbrev pub version_before : Option ℕ → Option ℕ → Bool
version_before none w = true
version_before (some v) none = false
version_before (some v) (some w) = leb w v

-- `matching.order_by("-version")[0]`
unfoldable pub first_by_version : List Policy → Option Policy
first_by_version [] = none
first_by_version (p ∷ ps) = elim (first_by_version ps) [
  | none ↦ some p
  | some q ↦ if version_before p.version q.version then some p else some q
]

-- The composite primary key of the log.
unfoldable pub is_logged : ℕ → ℕ → List PolicyEvaluationLog → Bool
is_logged moment i [] = false
is_logged moment i (l ∷ logs) = (l.evaluated_at == moment && l.id == i) || is_logged moment i logs

-- `PolicyEvaluationLog.objects.create(…)`
unfoldable pub log_evaluation : PolicyEvaluationLog → Action (Unit {0})
log_evaluation row = do
  logged ← gets λ db. is_logged row.evaluated_at row.id db.policy_evaluation_log
  raise_if logged integrity_error
  modify λ db. record db { policy_evaluation_log = row ∷ db.policy_evaluation_log }

-- `evaluated_at` is the clock of the call, in the clock's own unit: two calls may share a second.
unfoldable pub resolve : ℕ → ℕ → PolicyType → ℕ → Option ℕ → Action (Policy × Rules)
resolve evaluated_at tenant_id policy_type context_date property_id = do
  matching ←
      gets λ db. select (is_matching tenant_id policy_type context_date property_id) db.policies
  policy ← from_option no_policy_found (first_by_version matching)
  log_evaluation (record {
    evaluated_at = evaluated_at;
    id = 1000000 + policy.id;
    tenant_id = tenant_id;
    policy_id = policy.id;
    context_date = context_date;
    context_property_id = property_id;
    answer = answer_of policy.rules;
  })
  pure (policy, answer_of policy.rules)

-- The questions: each resolves its own type and formats the answer.
abbrev pub ask_policy : {A : Type 0} → PolicyType → (Rules → A) → ℕ → ℕ → ℕ → Option ℕ → Action A
ask_policy policy_type format evaluated_at tenant_id context_date property_id = do
  resolved ← resolve evaluated_at tenant_id policy_type context_date property_id
  pure (format resolved.1)

unfoldable pub can_cancel : ℕ → ℕ → ℕ → Option ℕ → Action (RuleValue × Option Rules)
can_cancel =
    ask_policy PolicyType.cancellation
      (λ answer. (get_default "allowed" (truth false) answer, penalty answer))

unfoldable pub refund_rule : ℕ → ℕ → ℕ → Option ℕ → Action (Option Rules)
refund_rule = ask_policy PolicyType.refund rules_or_none

unfoldable pub deposit_required : ℕ → ℕ → ℕ → Option ℕ → Action (RuleValue × RuleValue)
deposit_required =
    ask_policy PolicyType.deposit λ answer.
      (get_default "required" (truth false) answer, get_default "amount" null_value answer)

-- `answer if answer else {…}`
abbrev pub rules_or : Rules → Rules → Rules
rules_or default [] = default
rules_or default (r ∷ rules) = r ∷ rules

-- Without a date, the date is today's.
abbrev pub ask_today : {A : Type 0} → PolicyType → (Rules → A) → ℕ → ℕ → Option ℕ → Action A
ask_today policy_type format evaluated_at tenant_id property_id = do
  day ← gets today
  ask_policy policy_type format evaluated_at tenant_id day property_id

unfoldable pub check_in_time : ℕ → ℕ → Option ℕ → Action Rules
check_in_time = ask_today PolicyType.check_in (rules_or default_check_in)

unfoldable pub check_out_time : ℕ → ℕ → Option ℕ → Action Rules
check_out_time = ask_today PolicyType.check_out (rules_or default_check_out)

unfoldable pub cleaning_standard : ℕ → ℕ → Option ℕ → Action (Option Rules)
cleaning_standard = ask_today PolicyType.cleaning rules_or_none

unfoldable pub pricing_policy : ℕ → ℕ → ℕ → Option ℕ → Action (Option Rules)
pricing_policy = ask_policy PolicyType.pricing rules_or_none
