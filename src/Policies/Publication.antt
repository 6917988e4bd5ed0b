-- ===== src/Policies/Publication.antt =====
-- `PolicyService.publish`, branch by branch.
use mathlib.Core.Path.{subst}
use hotel_booking.Base.{
  ltb, ℕ, suc, ◌≤◌, ◌<◌, ◌≡◌, ◌≢◌, ◌⊎◌, refl, sym, ap, ◌∙◌, Bool, true, false, ◌&&◌, not, Option,
  none, some, List, [], ◌∷◌, All, select, find?, arith, ◌==◌, inl, inr, Bool-cases, Option-cases,
  decide_iff, decide_refl,
}
use hotel_booking.Tx.{
  Result, Error, ok, err, data_error, integrity_error, does_not_exist, invalid_state_transition,
  atomic,
}
use hotel_booking.Table.Lookup.{get_row-All}
use hotel_booking.Model.{
  Db, Policy, PolicyStatus, PolicyStatus-discrete, PolicyType, PolicyType-discrete,
}
use hotel_booking.Policies.{
  is_evaluated, status_eq, has_type, dates_fit, version_fits, max_version, publish_draft, publish,
}
use hotel_booking.Policies.Frozen.{policy_row}

abbrev pub IsBelow : ℕ → Option ℕ → Type 0
IsBelow n none = Unit
IsBelow n (some v) = v < n

-- No row of the tenant and the type has the version `n` or a later one.
abbrev pub IsNext : ℕ → PolicyType → ℕ → List Policy → Type 0
IsNext tenant_id kind n ps = All (λ r. (has_type tenant_id kind r ≡ false) ⊎ IsBelow n r.version) ps

IsNext-mono :
    (tenant_id : ℕ) (kind : PolicyType) (n m : ℕ) (ps : List Policy)
    → n ≤ m
    → IsNext tenant_id kind n ps
    → IsNext tenant_id kind m ps
IsNext-mono tenant_id kind n m [] le h = tt
IsNext-mono tenant_id kind n m (p ∷ ps) le h = (
  elim h.0 [
    | inl other ↦ inl other
    | inr below ↦ elim (Option-cases p.version) [
      | inl unset ↦ inr (rw unset tt)
      | inr (v, at) ↦ let less : v < n = rw at at below in inr (rw at (ground (arith, less, le)))
    ]
  ],
  IsNext-mono tenant_id kind n m ps le h.1,
)

module _ (tenant_id : ℕ) (kind : PolicyType) (p : Policy) (ps : List Policy) where
  max_version-step : max_version tenant_id kind ps ≤ max_version tenant_id kind (p ∷ ps)
  unfolding max_version
  max_version-step = elim (Option-cases p.version) [
    | inl unset ↦ ground (arith, unset)
    | inr (v, at) ↦ ground (arith, at)
  ]

  max_version-head :
      (has_type tenant_id kind p ≡ false)
      ⊎ IsBelow (suc (max_version tenant_id kind (p ∷ ps))) p.version
  unfolding max_version
  max_version-head = elim (Option-cases p.version) [
    | inl unset ↦ inr (subst (IsBelow (suc (max_version tenant_id kind (p ∷ ps)))) (sym unset) tt)
    | inr (v, at) ↦ elim (Bool-cases (has_type tenant_id kind p)) [
      | inl own ↦
          let below : v < suc (max_version tenant_id kind (p ∷ ps)) = ground (arith, at, own) in
          inr (subst (IsBelow (suc (max_version tenant_id kind (p ∷ ps)))) (sym at) below)
      | inr other ↦ inl other
    ]
  ]

max_version-IsNext :
    (tenant_id : ℕ) (kind : PolicyType) (ps : List Policy)
    → IsNext tenant_id kind (suc (max_version tenant_id kind ps)) ps
max_version-IsNext tenant_id kind [] = tt
max_version-IsNext tenant_id kind (p ∷ ps) = (
  max_version-head tenant_id kind p ps,
  IsNext-mono tenant_id kind (suc (max_version tenant_id kind ps))
      (suc (max_version tenant_id kind (p ∷ ps))) ps
      (ground (arith, max_version-step tenant_id kind p ps)) (max_version-IsNext tenant_id kind ps),
)

find-first :
    (f : Policy → Bool) (i : ℕ) (ps : List Policy) (d : Policy)
    → policy_row i ps ≡ some d
    → f d ≡ true
    → find? (λ r. r.id == i && f r) ps ≡ some d
find-first f i [] d h fine = ground arith
find-first f i (p ∷ ps) d h fine = elim (Bool-cases (p.id == i)) [
  | inl hit ↦
      let same : p ≡ d = ground (arith, hit, h) in
      let good : f p ≡ true = ap f same ∙ fine in ground (arith, hit, good, h)
  | inr miss ↦ ground (arith, miss, find-first f i ps d (ground (arith, miss, h)) fine)
]

-- Some row of the tenant and the type has the version.
abbrev pub HasVersion : ℕ → PolicyType → ℕ → List Policy → Type 0
HasVersion tenant_id kind n [] = ⊥
HasVersion tenant_id kind n (p ∷ ps) =
    ((has_type tenant_id kind p ≡ true) × (p.version ≡ some n)) ⊎ HasVersion tenant_id kind n ps

max_version-attained :
    (tenant_id : ℕ) (kind : PolicyType) (ps : List Policy)
    → (max_version tenant_id kind ps ≡ 0)
      ⊎ HasVersion tenant_id kind (max_version tenant_id kind ps) ps
unfolding max_version
max_version-attained tenant_id kind [] = inl refl
max_version-attained tenant_id kind (p ∷ ps) =
    let later : (m : ℕ)
        → m ≡ max_version tenant_id kind ps
        → (m ≡ 0) ⊎ HasVersion tenant_id kind m (p ∷ ps) =
      λ m e. elim (max_version-attained tenant_id kind ps) [
        | inl nought ↦ inl (e ∙ nought)
        | inr there ↦ inr (inr (subst (λ k. HasVersion tenant_id kind k ps) (sym e) there))
      ] in
    elim (Option-cases p.version) [
      | inl unset ↦ later (max_version tenant_id kind (p ∷ ps)) (ground (arith, unset))
      | inr (v, at) ↦
          elim (Bool-cases (has_type tenant_id kind p && ltb (max_version tenant_id kind ps) v)) [
            | inl more ↦
                let own : has_type tenant_id kind p ≡ true = ground (arith, more) in
                let e : max_version tenant_id kind (p ∷ ps) ≡ v = ground (arith, at, more) in
                inr (inl (own, at ∙ ap some (sym e)))
            | inr less ↦ later (max_version tenant_id kind (p ∷ ps)) (ground (arith, at, less))
          ]
    ]

-- The version after the last one of the tenant and the type: the first is 1.
abbrev pub IsNextVersion : Policy → ℕ → List Policy → Type 0
IsNextVersion d n ps =
    IsNext d.tenant_id d.policy_type n ps
    × ((m : ℕ) × (n ≡ suc m) × ((m ≡ 0) ⊎ HasVersion d.tenant_id d.policy_type m ps))

abbrev next_version : Policy → Db → ℕ
next_version d db = suc (max_version d.tenant_id d.policy_type db.policies)

-- What `publish` makes of a draft: every column of the draft, published as version `n`.
abbrev pub published_row : Policy → ℕ → Db → Policy
published_row d n db = record {
  id = db.next_id;
  tenant_id = d.tenant_id;
  policy_type = d.policy_type;
  version = some n;
  status = PolicyStatus.published;
  effective_from = d.effective_from;
  effective_to = d.effective_to;
  rules = d.rules;
  property_id = d.property_id;
  published_at = some db.now;
}

abbrev pub published_db : Policy → ℕ → Db → Db
published_db d n db = record db {
  next_id = suc db.next_id;
  policies = published_row d n db ∷ select (λ r. not (r.id == d.id)) db.policies;
}

-- Why a draft was not published: the version is past a smallint, the dates break the constraint, or
-- an evaluation refers to the draft.
abbrev pub DraftFails : Policy → Db → Error → Type 0
DraftFails d db e =
    ((e ≡ data_error)
      × ((m : ℕ) × (32767 ≤ m) × HasVersion d.tenant_id d.policy_type m db.policies))
    ⊎ ((e ≡ integrity_error)
        × ((dates_fit d ≡ false) ⊎ (is_evaluated d.id db.policy_evaluation_log ≡ true)))

abbrev pub Publishes : ℕ → Db → Result Policy → Db → Type 0
Publishes i db (ok q) after =
    (d : Policy) × (n : ℕ) × (policy_row i db.policies ≡ some d)
    × (d.status ≡ PolicyStatus.draft)
    × IsNextVersion d n db.policies
    × (q ≡ published_row d n db)
    × (after ≡ published_db d n db)
Publishes i db (err e) after =
    (after ≡ db)
    × (((e ≡ does_not_exist) × (policy_row i db.policies ≡ none))
        ⊎ ((d : Policy) × (policy_row i db.policies ≡ some d)
            × (((e ≡ invalid_state_transition) × (d.status ≢ PolicyStatus.draft))
                ⊎ DraftFails d db e)))

publish-missing :
    (i : ℕ) (db : Db) → policy_row i db.policies ≡ none → publish i db ≡ (err does_not_exist, db)
unfolding publish
publish-missing i db nothing = ground (arith, nothing)

module _ (i : ℕ) (d : Policy) (db : Db) (at : policy_row i db.policies ≡ some d) where
  publish-checked :
      status_eq d.status PolicyStatus.draft ≡ false
      → publish i db ≡ (err invalid_state_transition, db)
  unfolding publish
  publish-checked bad = ground (arith, at, bad)

  publish-draft :
      status_eq d.status PolicyStatus.draft ≡ true → publish i db ≡ atomic (publish_draft i) db
  unfolding publish
  publish-draft is_draft = ground (arith, at, is_draft)

  publish_draft-large :
      status_eq d.status PolicyStatus.draft ≡ true
      → version_fits (published_row d (next_version d db) db) ≡ false
      → (publish_draft i db).0 ≡ err data_error
  unfolding publish_draft
  publish_draft-large is_draft large = ground (
    arith,
    find-first (λ r. status_eq r.status PolicyStatus.draft) i db.policies d at is_draft,
    large,
  )

  publish_draft-refused :
      status_eq d.status PolicyStatus.draft ≡ true
      → version_fits (published_row d (next_version d db) db) ≡ true
      → dates_fit d ≡ false
      → (publish_draft i db).0 ≡ err integrity_error
  unfolding publish_draft
  publish_draft-refused is_draft small bad = ground (
    arith,
    find-first (λ r. status_eq r.status PolicyStatus.draft) i db.policies d at is_draft,
    small,
    bad,
  )

  publish_draft-restricted :
      status_eq d.status PolicyStatus.draft ≡ true
      → version_fits (published_row d (next_version d db) db) ≡ true
      → dates_fit d ≡ true
      → is_evaluated d.id db.policy_evaluation_log ≡ true
      → (publish_draft i db).0 ≡ err integrity_error
  unfolding publish_draft
  publish_draft-restricted is_draft small fine used = ground (
    arith,
    find-first (λ r. status_eq r.status PolicyStatus.draft) i db.policies d at is_draft,
    small,
    fine,
    used,
  )

  publish_draft-ok :
      status_eq d.status PolicyStatus.draft ≡ true
      → version_fits (published_row d (next_version d db) db) ≡ true
      → dates_fit d ≡ true
      → is_evaluated d.id db.policy_evaluation_log ≡ false
      → d.id < db.next_id
      → publish_draft i db
        ≡ (ok (published_row d (next_version d db) db), published_db d (next_version d db) db)
  unfolding publish_draft
  publish_draft-ok is_draft small fine unused less = ground (
    arith,
    find-first (λ r. status_eq r.status PolicyStatus.draft) i db.policies d at is_draft,
    small,
    fine,
    unused,
    decide_refl PolicyType-discrete d.policy_type,
  )

  publish-failed :
      (e : Error)
      → status_eq d.status PolicyStatus.draft ≡ true
      → (publish_draft i db).0 ≡ err e
      → publish i db ≡ (err e, db)
  publish-failed e is_draft failed = publish-draft is_draft ∙ ground (arith, failed)

  refused-Publishes :
      (e : Error)
      → publish i db ≡ (err e, db)
      → DraftFails d db e
      → Publishes i db (publish i db).0 (publish i db).1
  refused-Publishes e run why =
      subst (λ o. Publishes i db o.0 o.1) (sym run) (refl, inr (d, at, inr why))

  large-HasVersion :
      version_fits (published_row d (next_version d db) db) ≡ false
      → (m : ℕ) × (32767 ≤ m) × HasVersion d.tenant_id d.policy_type m db.policies
  large-HasVersion large = elim (max_version-attained d.tenant_id d.policy_type db.policies) [
    | inl nought ↦ ground (arith, large, nought)
    | inr there ↦ (max_version d.tenant_id d.policy_type db.policies, ground (arith, large), there)
  ]

  -- The branches of the atomic part.
  publish-drafted :
      status_eq d.status PolicyStatus.draft ≡ true
      → d.id < db.next_id
      → Publishes i db (publish i db).0 (publish i db).1
  publish-drafted is_draft less =
      let drafted : d.status ≡ PolicyStatus.draft =
        (decide_iff PolicyStatus-discrete d.status PolicyStatus.draft).0 is_draft in
      elim (Bool-cases (version_fits (published_row d (next_version d db) db))) [
        | inr large ↦
            refused-Publishes data_error
              (publish-failed data_error is_draft (publish_draft-large is_draft large))
              (inl (refl, large-HasVersion large))
        | inl small ↦ elim (Bool-cases (dates_fit d)) [
          | inr bad ↦
              refused-Publishes integrity_error
                (publish-failed integrity_error is_draft (publish_draft-refused is_draft small bad))
                (inr (refl, inl bad))
          | inl fine ↦ elim (Bool-cases (is_evaluated d.id db.policy_evaluation_log)) [
            | inl used ↦
                refused-Publishes integrity_error
                  (publish-failed integrity_error is_draft
                    (publish_draft-restricted is_draft small fine used))
                  (inr (refl, inr used))
            | inr unused ↦
                let ran = publish_draft-ok is_draft small fine unused less in
                let run : publish i db ≡ (
                  ok (published_row d (next_version d db) db),
                  published_db d (next_version d db) db,
                ) =
                  publish-draft is_draft ∙ ground (arith, ran) in
                subst (λ o. Publishes i db o.0 o.1) (sym run)
                  (
                    d,
                    next_version d db,
                    at,
                    drafted,
                    (
                      max_version-IsNext d.tenant_id d.policy_type db.policies,
                      (
                        max_version d.tenant_id d.policy_type db.policies,
                        refl,
                        max_version-attained d.tenant_id d.policy_type db.policies,
                      ),
                    ),
                    refl,
                    refl,
                  )
          ]
        ]
      ]

-- `PolicyService.publish` on every branch, in a table whose keys are below the sequence's next one.
-- When it returns, the row was a draft, the row returned has every column of the draft, published as
-- the version after the last one of the tenant and the type, and the table has that row and no
-- longer the draft, all else unchanged. When it raises, nothing has changed: no row has the key, the
-- row is no draft, some version of the tenant and the type is the last of a smallint or past it, the
-- dates of the draft break the constraint, or an evaluation refers to the draft.
pub publish_lem :
    (i : ℕ) (db : Db)
    → All (λ r. r.id < db.next_id) db.policies
    → Publishes i db (publish i db).0 (publish i db).1
publish_lem i db less = elim (Option-cases (policy_row i db.policies)) [
  | inl nothing ↦
      let run : publish i db ≡ (err does_not_exist, db) = publish-missing i db nothing in
      subst (λ o. Publishes i db o.0 o.1) (sym run) (refl, inl (refl, nothing))
  | inr (d, at) ↦ elim (Bool-cases (status_eq d.status PolicyStatus.draft)) [
    | inl is_draft ↦
        publish-drafted i d db at is_draft
          (get_row-All (λ r. r.id) (λ r. r.id < db.next_id) i db.policies d less at).0
    | inr bad ↦
        subst (λ o. Publishes i db o.0 o.1) (sym (publish-checked i d db at bad))
          (
            refl,
            inr (
              d,
              at,
              inl (
                refl,
                λ e. ground (
                  arith,
                  bad,
                  (decide_iff PolicyStatus-discrete d.status PolicyStatus.draft).1 e,
                ),
              ),
            ),
          )
  ]
]
