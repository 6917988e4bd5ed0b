-- ===== src/Policies/Writes.antt =====
-- What the parts of a call keep: the guards, the look-ups and the writes of `Policy`.
use mathlib.Core.Path.{subst}
use hotel_booking.Base.{
  All, ℕ, suc, ◌≡◌, ◌≢◌, ◌⊎◌, refl, sym, ap, ◌∙◌, Bool, true, false, ◌&&◌, Option, none, some, List,
  [], ◌∷◌, find?, arith, ◌==◌, inl, inr, Bool-cases, Option-cases, decide_iff,
}
use hotel_booking.Tx.{Error, raise_if, from_option, ◌>>=◌, ◌>>◌}
use hotel_booking.Tx.Keeps.{Keeps}
use hotel_booking.Table.{put_row}
use hotel_booking.Model.{Db, Action, Policy, PolicyStatus, PolicyStatus-discrete}
use hotel_booking.Policies.{
  status_eq, dates_fit, version_positive, version_fits, is_immutable, insert_policy, save_policy,
  get_policy_in, PolicyUpdate, set_version, set_status, set_effective_from, set_effective_to,
  set_rules, set_property_id, set_fields, set_id, set_tenant_id, set_policy_type, set_published_at,
  set_attribute,
}
use hotel_booking.Table.Numbered.{found-row}
use hotel_booking.Policies.Frozen.{policy_row, Retained, IsKept, skip-IsKept, insert-IsKept}

pub insert_policy-cases :
    (row : Policy) (db : Db)
    → ((insert_policy row db).1 ≡ db)
      ⊎ ((insert_policy row db).1 ≡ record db { policies = row ∷ db.policies })
insert_policy-cases row db = elim (Bool-cases (version_fits row)) [
  | inl fits ↦ elim (Bool-cases (dates_fit row && version_positive row)) [
    | inl fine ↦ inr (rw (fits, fine) refl)
    | inr bad ↦ inl (rw (fits, bad) refl)
  ]
  | inr large ↦ inl (rw large refl)
]

-- The save of a row that the table has.
pub save_policy-cases :
    (row d : Policy) (db : Db)
    → policy_row row.id db.policies ≡ some d
    → ((save_policy row db).1 ≡ db)
      ⊎ ((save_policy row db).1 ≡ record db { policies = put_row (λ p. p.id) row db.policies })
save_policy-cases row d db at = elim (Bool-cases (is_immutable row (some d))) [
  | inl frozen ↦ inl (ground (arith, at, frozen))
  | inr free ↦ elim (Bool-cases (version_fits row)) [
    | inl fits ↦ elim (Bool-cases (dates_fit row && version_positive row)) [
      | inl fine ↦ inr (ground (arith, at, free, fits, fine))
      | inr bad ↦ inl (ground (arith, at, free, fits, bad))
    ]
    | inr large ↦ inl (ground (arith, at, free, large))
  ]
]

-- Does the keyword set the primary key?
abbrev pub sets_key : PolicyUpdate → Bool
sets_key (set_id _) = true
sets_key _ = false

abbrev pub SparesKey : List PolicyUpdate → Type 0
SparesKey = All (λ u. sets_key u ≡ false)

set_attribute-id :
    (u : PolicyUpdate) (p : Policy) → sets_key u ≡ false → (set_attribute u p).id ≡ p.id
set_attribute-id (set_id i) p h = ground arith
set_attribute-id (set_tenant_id _) p h = refl
set_attribute-id (set_policy_type _) p h = refl
set_attribute-id (set_version _) p h = refl
set_attribute-id (set_status _) p h = refl
set_attribute-id (set_effective_from _) p h = refl
set_attribute-id (set_effective_to _) p h = refl
set_attribute-id (set_rules _) p h = refl
set_attribute-id (set_property_id _) p h = refl
set_attribute-id (set_published_at _) p h = refl

pub set_fields-id :
    (fields : List PolicyUpdate) (p : Policy) → SparesKey fields → (set_fields fields p).id ≡ p.id
unfolding set_fields
set_fields-id [] p h = refl
set_fields-id (u ∷ fields) p h =
    set_fields-id fields (set_attribute u p) h.1 ∙ set_attribute-id u p h.0

module _ (Kept : Db → Type 0) where
  pub guard-Keeps :
      {A : Type 0} (b : Bool) (e : Error) (k : Action A) (db : Db)
      → Kept db
      → Kept (k db).1
      → Kept ((raise_if b e >> k) db).1
  guard-Keeps true e k db h g = h
  guard-Keeps false e k db h g = g

  pub option-Keeps : {A : Type 0} (e : Error) (o : Option A) → Keeps Kept (from_option e o)
  option-Keeps e none db h = h
  option-Keeps e (some a) db h = h

  pub found-Keeps :
      {A : Type 0} (status : PolicyStatus) (i : ℕ) (k : Policy → Action A) (db : Db)
      → Kept db
      → ((d : Policy)
          → find? (λ r. r.id == i && status_eq r.status status) db.policies ≡ some d
          → Kept (k d db).1)
      → Kept ((get_policy_in status i >>= k) db).1
  found-Keeps status i k db h next =
      elim (Option-cases (find? (λ r. r.id == i && status_eq r.status status) db.policies)) [
        | inl nothing ↦
            let run : ((get_policy_in status i >>= k) db).1 ≡ db = ground (arith, nothing) in
            subst Kept (sym run) h
        | inr (d, found) ↦
            let run : (get_policy_in status i >>= k) db ≡ k d db = ground (arith, found) in
            subst (λ o. Kept o.1) (sym run) (next d found)
      ]

-- A policy that has a version and is no draft any more.
abbrev pub IsReleased : Policy → Type 0
IsReleased p = ((v : ℕ) × (p.version ≡ some v)) × (p.status ≢ PolicyStatus.draft)

abbrev pub IsKeptIn : Policy → Db → Type 0
IsKeptIn p db = IsKept p db.next_id db.policies

module _ (p : Policy) (released : IsReleased p) where
  pub kept-version : (q : Policy) → Retained p q → q.version ≡ some released.0.0
  kept-version q (inl same) = ap (λ r. r.version) same ∙ released.0.1
  kept-version q (inr (_, same, _)) = ap (λ r. r.version) same ∙ released.0.1

  kept-status : (q : Policy) → Retained p q → q.status ≢ PolicyStatus.draft
  kept-status q (inl same) h = released.1 (sym (ap (λ r. r.status) same) ∙ h)
  kept-status q (inr (_, same, _)) h = ground (arith, sym (ap (λ r. r.status) same) ∙ h)

  -- The draft that a call found is another row.
  pub draft-other :
      (i : ℕ) (d : Policy) (db : Db)
      → IsKeptIn p db
      → find? (λ r. r.id == i && status_eq r.status PolicyStatus.draft) db.policies ≡ some d
      → ((d.id == p.id) ≡ false) × (policy_row d.id db.policies ≡ some d)
  draft-other i d db h found =
      let (at, is_draft, one) =
        found-row (λ r. r.id) (λ r. status_eq r.status PolicyStatus.draft) i db.policies d h.0.0
          found in
      let (q, q-at, kept) = h.1 in
      let here : policy_row d.id db.policies ≡ some d =
        subst (λ j. policy_row j db.policies ≡ some d) (sym one) at in
      elim (Bool-cases (d.id == p.id)) [
        | inl hit ↦
            let e : d.id ≡ p.id = ground (arith, hit) in
            let there : policy_row p.id db.policies ≡ some d =
              subst (λ j. policy_row j db.policies ≡ some d) e here in
            let same : q ≡ d = ground (arith, sym q-at ∙ there) in
            absurd (
              kept-status d (subst (Retained p) same kept)
                ((decide_iff PolicyStatus-discrete d.status PolicyStatus.draft).0 is_draft))
        | inr miss ↦ (miss, here)
      ]

  pub insert_policy-Keeps :
      (row : Policy) (db : Db)
      → row.id ≡ db.next_id
      → IsKeptIn p db
      → IsKeptIn p (insert_policy row (record db { next_id = suc db.next_id })).1
  insert_policy-Keeps row db new h =
      elim (insert_policy-cases row (record db { next_id = suc db.next_id })) [
        | inl same ↦ subst (IsKeptIn p) (sym same) (skip-IsKept p db.next_id db.policies h)
        | inr added ↦
            subst (IsKeptIn p) (sym added) (insert-IsKept p db.next_id row db.policies new h)
      ]
