-- ===== src/Tests/Policies.antt =====
-- Runs of the policy engine.
use hotel_booking.Base.{ℕ, ◌≡◌, refl, true, false, none, some, List, [], ◌∷◌, arith}
use hotel_booking.Tx.{ok, err, no_policy_found, invalid_state_transition, integrity_error}
use hotel_booking.Table.{put_row}
use hotel_booking.Model.{
  Db, empty_db, Policy, PolicyStatus, PolicyStatus-discrete, PolicyType, PolicyType-discrete, Rules,
  truth, number, text_value,
}
use hotel_booking.Policies.Answers.{get, penalty}
use hotel_booking.Policies.{
  is_evaluated, set_fields, set_id, update_draft, set_rules, max_version, publish_draft, publish,
  retire_published, retire, first_by_version, is_logged, log_evaluation, resolve, can_cancel,
}
use hotel_booking.Policies.Frozen.{policy_row, Retained}
use hotel_booking.Policies.Resolution.{evaluation, Resolves, resolve_lem}
use hotel_booking.Policies.Publication.{published_row, published_db, Publishes, publish_lem}
use hotel_booking.Policies.History.{
  PolicyCall, drafts, updates, publishes, retires, resolves, after_policy_calls,
  after_policy_calls-Retained,
}

abbrev refundable : Rules
refundable =
    ("allowed", truth true)
    ∷ ("penalty_type", text_value "nights")
    ∷ ("penalty_value", number 1)
    ∷ []

abbrev strict : Rules
strict = ("allowed", truth false) ∷ []

abbrev policy : ℕ → PolicyStatus → Policy
policy i status = record {
  id = i;
  tenant_id = 1;
  policy_type = PolicyType.cancellation;
  version = some 1;
  status = status;
  effective_from = 100;
  effective_to = none;
  rules = some refundable;
  property_id = none;
  published_at = some 0;
}

abbrev in_force : Policy
in_force = policy 31 PolicyStatus.published

abbrev newer : Policy
newer = record (policy 32 PolicyStatus.published) {
  version = some 2;
  effective_from = 150;
  rules = some strict;
}

abbrev new_draft : Policy
new_draft = record (policy 33 PolicyStatus.draft) { version = none; published_at = none }

abbrev policy_db : Db
policy_db = record empty_db { next_id = 40; policies = new_draft ∷ in_force ∷ newer ∷ [] }

-- Before the newer version starts, the older one answers.
resolve-older :
    (resolve 9 1 PolicyType.cancellation 149 none policy_db).0 ≡ ok (in_force, refundable)
unfolding resolve log_evaluation first_by_version is_logged PolicyType-discrete
    PolicyStatus-discrete
resolve-older = refl

resolve-newer : (resolve 9 1 PolicyType.cancellation 150 none policy_db).0 ≡ ok (newer, strict)
unfolding resolve log_evaluation first_by_version is_logged PolicyType-discrete
    PolicyStatus-discrete
resolve-newer = refl

resolve-early : (resolve 9 1 PolicyType.cancellation 99 none policy_db).0 ≡ err no_policy_found
unfolding resolve log_evaluation first_by_version is_logged PolicyType-discrete
    PolicyStatus-discrete
resolve-early = refl

can_cancel-older :
    (can_cancel 9 1 120 (some 2) policy_db).0
    ≡ ok (
      truth true,
      some (("penalty_type", text_value "nights") ∷ ("penalty_value", number 1) ∷ []),
    )
unfolding can_cancel resolve log_evaluation first_by_version is_logged PolicyType-discrete
    PolicyStatus-discrete penalty get
can_cancel-older = refl

-- A published policy without an end cannot be retired before the day after it starts.
retire-future :
    (retire 31 (record policy_db { policies = record in_force { effective_from = 719163 } ∷ [] })).0
    ≡ err integrity_error
unfolding retire retire_published PolicyStatus-discrete
retire-future = refl

retire-draft : (retire 33 policy_db).0 ≡ err invalid_state_transition
unfolding retire PolicyStatus-discrete
retire-draft = refl

resolve_lem_example :
    Resolves 9 1 PolicyType.cancellation 160 none policy_db
      (ok (newer, strict))
      (record policy_db { policy_evaluation_log = evaluation 9 1 160 none newer ∷ [] })
unfolding resolve log_evaluation first_by_version is_logged PolicyType-discrete
    PolicyStatus-discrete
resolve_lem_example = resolve_lem 9 1 PolicyType.cancellation 160 none policy_db

publish_lem_example :
    Publishes 33 policy_db
      (ok (published_row new_draft 3 policy_db))
      (published_db new_draft 3 policy_db)
unfolding publish publish_draft max_version is_evaluated PolicyType-discrete PolicyStatus-discrete
publish_lem_example = publish_lem 33 policy_db (omega arith, (omega arith, (omega arith, tt)))

abbrev season : List PolicyCall
season =
    updates 33 (set_rules (some strict) ∷ [])
    ∷ publishes 33
    ∷ resolves 9 1 PolicyType.cancellation 120 none
    ∷ drafts 1 PolicyType.cancellation refundable 100 none none
    ∷ retires 31
    ∷ []

-- `update_draft(33, id=31, …)` writes the draft over the published row.
update_draft-key :
    policy_row 31 (update_draft 33 (set_id 31 ∷ set_rules (some strict) ∷ []) policy_db).1.policies
    ≡ some (record new_draft { id = 31; rules = some strict })
unfolding update_draft set_fields PolicyStatus-discrete put_row
update_draft-key = refl

after_policy_calls-Retained_example :
    (q : Policy) × (policy_row 31 (after_policy_calls season policy_db).policies ≡ some q)
    × Retained in_force q
after_policy_calls-Retained_example =
    after_policy_calls-Retained in_force 1 season policy_db ((refl, tt), (tt, (tt, (tt, (tt, tt)))))
      ((refl, (refl, (refl, tt))), (omega arith, (omega arith, (omega arith, tt)))) refl refl
      (λ e. ground (arith, e))
