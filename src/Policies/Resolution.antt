-- ===== src/Policies/Resolution.antt =====
-- What `PolicyService.resolve` answers, by a description of the policies in effect on a date.
use mathlib.Core.Path.{subst}
use hotel_booking.Base.{
  ℕ, ◌+◌, ◌≡◌, ◌⊎◌, refl, sym, Bool, true, false, Option, none, some, List, ◌∷◌, All, select, arith,
  inl, inr, Bool-cases, Option-cases,
}
use hotel_booking.Tx.{ok, err, Result, no_policy_found, integrity_error}
use hotel_booking.Model.{Db, Policy, PolicyType, Rules, PolicyEvaluationLog}
use hotel_booking.Policies.Effect.{
  InEffect, IsIn, is_matching_iff, not-InEffect, first_by_version-none, first_by_version-some,
  IsIn-select, All-select, select-none, All-map,
}
use hotel_booking.Policies.Answers.{answer_of}
use hotel_booking.Policies.{
  is_matching, version_before, first_by_version, is_logged, log_evaluation, resolve,
}

-- The row that a resolution adds to the log.
abbrev pub evaluation : ℕ → ℕ → ℕ → Option ℕ → Policy → PolicyEvaluationLog
evaluation evaluated_at tenant_id date property_id p = record {
  evaluated_at = evaluated_at;
  id = 1000000 + p.id;
  tenant_id = tenant_id;
  policy_id = p.id;
  context_date = date;
  context_property_id = property_id;
  answer = answer_of p.rules;
}

abbrev pub Resolves : ℕ → ℕ → PolicyType → ℕ → Option ℕ → Db → Result (Policy × Rules) → Db → Type 0
Resolves evaluated_at tenant_id policy_type date i db (ok (p, answer)) after =
    IsIn p db.policies
    × InEffect tenant_id policy_type date i p
    × All
        (λ q.
          (¬ InEffect tenant_id policy_type date i q) ⊎ (version_before p.version q.version ≡ true))
        db.policies
    × (answer ≡ answer_of p.rules)
    × (after ≡ record db {
      policy_evaluation_log = evaluation evaluated_at tenant_id date i p ∷ db.policy_evaluation_log;
    })
Resolves evaluated_at tenant_id policy_type date i db (err e) after =
    (after ≡ db)
    × (((e ≡ no_policy_found) × All (λ q. ¬ InEffect tenant_id policy_type date i q) db.policies)
        ⊎ ((e ≡ integrity_error)
            × ((p : Policy) × IsIn p db.policies
                × InEffect tenant_id policy_type date i p
                × (is_logged evaluated_at (1000000 + p.id) db.policy_evaluation_log ≡ true))))

module _ (evaluated_at tenant_id : ℕ) (policy_type : PolicyType) (date : ℕ) (i : Option ℕ)
    (db : Db) where
  abbrev candidates : List Policy
  candidates = select (is_matching tenant_id policy_type date i) db.policies

  abbrev outcome : Result (Policy × Rules) × Db
  outcome = resolve evaluated_at tenant_id policy_type date i db

  resolve-none : first_by_version candidates ≡ none → outcome ≡ (err no_policy_found, db)
  unfolding resolve
  resolve-none nothing = ground (arith, nothing)

  resolve-twice :
      (p : Policy)
      → first_by_version candidates ≡ some p
      → is_logged evaluated_at (1000000 + p.id) db.policy_evaluation_log ≡ true
      → outcome ≡ (err integrity_error, db)
  unfolding resolve log_evaluation
  resolve-twice p at twice = ground (arith, at, twice)

  resolve-once :
      (p : Policy)
      → first_by_version candidates ≡ some p
      → is_logged evaluated_at (1000000 + p.id) db.policy_evaluation_log ≡ false
      → outcome ≡ (
        ok (p, answer_of p.rules),
        record db {
          policy_evaluation_log =
              evaluation evaluated_at tenant_id date i p ∷ db.policy_evaluation_log;
        },
      )
  unfolding resolve log_evaluation
  resolve-once p at once = ground (arith, at, once)

  candidates-first :
      (p : Policy)
      → first_by_version candidates ≡ some p
      → All
          (λ q.
            (¬ InEffect tenant_id policy_type date i q)
            ⊎ (version_before p.version q.version ≡ true))
          db.policies
  candidates-first p at =
      let (_, first) = first_by_version-some candidates p at in
      All-map
        (λ q.
          (is_matching tenant_id policy_type date i q ≡ false)
          ⊎ (version_before p.version q.version ≡ true))
        (λ q.
          (¬ InEffect tenant_id policy_type date i q) ⊎ (version_before p.version q.version ≡ true))
        db.policies
        (λ q h. elim h [
          | inl out ↦ inl (not-InEffect tenant_id policy_type date i q out)
          | inr before ↦ inr before
        ])
        (All-select (is_matching tenant_id policy_type date i)
          (λ q. version_before p.version q.version ≡ true) db.policies first)

-- `PolicyService.resolve` returns a policy in effect on the date, with its own rules as the answer,
-- such that no policy in effect has a higher version, and adds exactly its row to the log; it
-- raises `NoPolicyFound` only when no policy is in effect, and IntegrityError only when the log has
-- a row of a policy in effect at the same moment, and then it changes nothing.
pub resolve_lem :
    (evaluated_at tenant_id : ℕ) (policy_type : PolicyType) (date : ℕ) (i : Option ℕ) (db : Db)
    → let out = resolve evaluated_at tenant_id policy_type date i db in
      Resolves evaluated_at tenant_id policy_type date i db out.0 out.1
resolve_lem evaluated_at tenant_id policy_type date i db =
    let f : Policy → Bool = is_matching tenant_id policy_type date i in
    elim (Option-cases (first_by_version (select f db.policies))) [
      | inl nothing ↦
          subst (λ o. Resolves evaluated_at tenant_id policy_type date i db o.0 o.1)
            (sym (resolve-none evaluated_at tenant_id policy_type date i db nothing))
            (
              refl,
              inl (
                refl,
                All-map (λ q. f q ≡ false) (λ q. ¬ InEffect tenant_id policy_type date i q)
                    db.policies (not-InEffect tenant_id policy_type date i)
                    (select-none f db.policies
                      (first_by_version-none (select f db.policies) nothing)),
              ),
            )
      | inr (p, at) ↦
          let (p-in, _) = first_by_version-some (select f db.policies) p at in
          let (p-at, fits) = IsIn-select f p db.policies p-in in
          let effect : InEffect tenant_id policy_type date i p =
            (is_matching_iff tenant_id policy_type date i p).0 fits in
          elim (Bool-cases (is_logged evaluated_at (1000000 + p.id) db.policy_evaluation_log)) [
            | inl twice ↦
                subst (λ o. Resolves evaluated_at tenant_id policy_type date i db o.0 o.1)
                  (sym (resolve-twice evaluated_at tenant_id policy_type date i db p at twice))
                  (refl, inr (refl, (p, p-at, effect, twice)))
            | inr once ↦
                subst (λ o. Resolves evaluated_at tenant_id policy_type date i db o.0 o.1)
                  (sym (resolve-once evaluated_at tenant_id policy_type date i db p at once))
                  (
                    p-at,
                    effect,
                    candidates-first evaluated_at tenant_id policy_type date i db p at,
                    refl,
                    refl,
                  )
          ]
    ]
