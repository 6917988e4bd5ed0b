-- ===== src/Policies/Effect.antt =====
-- The policies in effect on a date, and the first by version among the rows that a query selects.
use mathlib.Core.Path.{subst}
use hotel_booking.Base.{
  ℕ, ◌≤◌, ◌<◌, ◌≡◌, ◌⊎◌, ◌↔◌, refl, sym, ap, ◌∙◌, Bool, true, false, Option, none, some, List, [],
  ◌∷◌, All, select, arith, decide_iff, inl, inr, Bool-cases, Option-cases,
}
use hotel_booking.Model.{
  Policy, PolicyStatus, PolicyStatus-discrete, PolicyType, PolicyType-discrete,
}
use hotel_booking.Policies.{not_over, in_scope, is_matching, version_before, first_by_version}

abbrev pub EndsAfter : ℕ → Option ℕ → Type 0
EndsAfter date none = Unit
EndsAfter date (some d) = date < d

abbrev pub Covers : Option ℕ → Option ℕ → Type 0
Covers none scope = Unit
Covers (some i) none = Unit
Covers (some i) (some j) = j ≡ i

-- A published policy of the tenant and the type whose dates hold the date and whose property is the
-- one asked for, or that has none.
abbrev pub InEffect : ℕ → PolicyType → ℕ → Option ℕ → Policy → Type 0
InEffect tenant_id policy_type date property_id p =
    (p.tenant_id ≡ tenant_id)
    × (p.policy_type ≡ policy_type)
    × (p.status ≡ PolicyStatus.published)
    × (p.effective_from ≤ date)
    × EndsAfter date p.effective_to
    × Covers property_id p.property_id

abbrev pub IsIn : Policy → List Policy → Type 0
IsIn p [] = ⊥
IsIn p (q ∷ qs) = (p ≡ q) ⊎ IsIn p qs

not_over_iff : (date : ℕ) (p : Policy) → (not_over date p ≡ true) ↔ EndsAfter date p.effective_to
not_over_iff date p = elim (Option-cases p.effective_to) [
  | inl endless ↦ rw endless (ground arith)
  | inr (d, ends) ↦ rw ends (ground arith)
]

in_scope_iff : (i : Option ℕ) (p : Policy) → (in_scope i p ≡ true) ↔ Covers i p.property_id
in_scope_iff none p = ground arith
in_scope_iff (some i) p = elim (Option-cases p.property_id) [
  | inl all ↦ rw all (ground arith)
  | inr (j, own) ↦ rw own (ground arith)
]

pub is_matching_iff :
    (tenant_id : ℕ) (policy_type : PolicyType) (date : ℕ) (i : Option ℕ) (p : Policy)
    → (is_matching tenant_id policy_type date i p ≡ true) ↔ InEffect tenant_id policy_type date i p
is_matching_iff tenant_id policy_type date i p = ground (
  arith,
  decide_iff PolicyStatus-discrete p.status PolicyStatus.published,
  decide_iff PolicyType-discrete p.policy_type policy_type,
  not_over_iff date p,
  in_scope_iff i p,
)

version_before_total : (v w : Option ℕ) → version_before v w ≡ false → version_before w v ≡ true
version_before_total v w h = ground arith

version_before_trans :
    (u v w : Option ℕ)
    → version_before u v ≡ true
    → version_before v w ≡ true
    → version_before u w ≡ true
version_before_trans u v w h k = ground arith

version_before_refl : (v : Option ℕ) → version_before v v ≡ true
version_before_refl v = ground arith

abbrev IsFirst : Policy → List Policy → Type 0
IsFirst p ps = All (λ q. version_before p.version q.version ≡ true) ps

IsFirst-trans :
    (p q : Policy) (qs : List Policy)
    → version_before p.version q.version ≡ true
    → IsFirst q qs
    → IsFirst p qs
IsFirst-trans p q [] h k = tt
IsFirst-trans p q (x ∷ xs) h k =
    (version_before_trans p.version q.version x.version h k.0, IsFirst-trans p q xs h k.1)

pub first_by_version-none : (ps : List Policy) → first_by_version ps ≡ none → ps ≡ []
unfolding first_by_version
first_by_version-none [] h = refl
first_by_version-none (p ∷ ps) h = ground (arith, Option-cases (first_by_version ps))

pub first_by_version-some :
    (ps : List Policy) (p : Policy) → first_by_version ps ≡ some p → IsIn p ps × IsFirst p ps
unfolding first_by_version
first_by_version-some [] p h = ground arith
first_by_version-some (x ∷ ps) p h = elim (Option-cases (first_by_version ps)) [
  | inl nothing ↦
      let same : x ≡ p = ground (arith, h, nothing) in
      subst (λ y. IsIn y (x ∷ ps) × IsFirst y (x ∷ ps)) same
        (
          inl refl,
          (
            version_before_refl x.version,
            subst (IsFirst x) (sym (first_by_version-none ps nothing)) tt,
          ),
        )
  | inr (q, at) ↦
      let (q-in, q-first) = first_by_version-some ps q at in
      elim (Bool-cases (version_before x.version q.version)) [
        | inl before ↦
            let same : x ≡ p = ground (arith, h, at, before) in
            subst (λ y. IsIn y (x ∷ ps) × IsFirst y (x ∷ ps)) same
              (inl refl, (version_before_refl x.version, IsFirst-trans x q ps before q-first))
        | inr after ↦
            let same : q ≡ p = ground (arith, h, at, after) in
            subst (λ y. IsIn y (x ∷ ps) × IsFirst y (x ∷ ps)) same
              (inr q-in, (version_before_total x.version q.version after, q-first))
      ]
]

module _ (f : Policy → Bool) where
  pub IsIn-select :
      (p : Policy) (ps : List Policy) → IsIn p (select f ps) → IsIn p ps × (f p ≡ true)
  IsIn-select p [] h = elim h [ ]
  IsIn-select p (x ∷ ps) h = elim (Bool-cases (f x)) [
    | inl kept ↦
        let h' : (p ≡ x) ⊎ IsIn p (select f ps) = rw kept at h in
        elim h' [
          | inl same ↦ (inl same, ap f same ∙ kept)
          | inr later ↦ let (at, fine) = IsIn-select p ps later in (inr at, fine)
        ]
    | inr left ↦
        let h' : IsIn p (select f ps) = rw left at h in
        let (at, fine) = IsIn-select p ps h' in (inr at, fine)
  ]

  pub All-select :
      (P : Policy → Type 0) (ps : List Policy)
      → All P (select f ps)
      → All (λ q. (f q ≡ false) ⊎ P q) ps
  All-select P [] h = tt
  All-select P (x ∷ ps) h = elim (Bool-cases (f x)) [
    | inl kept ↦
        let h' : P x × All P (select f ps) = rw kept at h in (inr h'.0, All-select P ps h'.1)
    | inr left ↦ let h' : All P (select f ps) = rw left at h in (inl left, All-select P ps h')
  ]

  pub select-none : (ps : List Policy) → select f ps ≡ [] → All (λ q. f q ≡ false) ps
  select-none [] h = tt
  select-none (x ∷ ps) h = elim (Bool-cases (f x)) [
    | inl kept ↦ ground (arith, kept, h)
    | inr left ↦ (left, select-none ps (ground (arith, left, h)))
  ]

pub All-map :
    (P Q : Policy → Type 0) (ps : List Policy) → ((p : Policy) → P p → Q p) → All P ps → All Q ps
All-map P Q [] f h = tt
All-map P Q (p ∷ ps) f h = (f p h.0, All-map P Q ps f h.1)

pub not-InEffect :
    (tenant_id : ℕ) (policy_type : PolicyType) (date : ℕ) (i : Option ℕ) (p : Policy)
    → is_matching tenant_id policy_type date i p ≡ false
    → ¬ InEffect tenant_id policy_type date i p
not-InEffect tenant_id policy_type date i p h e =
    ground (arith, h, (is_matching_iff tenant_id policy_type date i p).1 e)
