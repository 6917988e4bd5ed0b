-- ===== src/Policies/Frozen.antt =====
-- A policy that left the draft state with its version, through the changes of the table.
use hotel_booking.Base.{
  ℕ, suc, ◌<◌, ◌≡◌, ◌⊎◌, refl, ap, ◌∙◌, Bool, true, false, Option, none, some, List, [], ◌∷◌,
  select, arith, ◌==◌, inl, inr, Bool-cases,
}
use hotel_booking.Table.{get_row, put_row}
use hotel_booking.Table.Versions.{get-put_row}
use hotel_booking.Table.Lookup.{get_row-All}
use hotel_booking.Table.Numbered.{IsNumbered, less-All, insert-IsNumbered, put-IsNumbered}
use hotel_booking.Model.{Policy, PolicyStatus}
use hotel_booking.Policies.{retired_copy}

abbrev pub policy_row : ℕ → List Policy → Option Policy
policy_row = get_row (λ p. p.id)

-- An end that was set stays; one that was not set is set to some day.
abbrev pub KeepsEnd : Option ℕ → Option ℕ → Type 0
KeepsEnd none e = (day : ℕ) × (e ≡ some day)
KeepsEnd (some d) e = e ≡ some d

-- Only the status and an end that was not set may differ.
abbrev pub IsRetiredFrom : Policy → Policy → Type 0
IsRetiredFrom p q =
    (p.status ≡ PolicyStatus.published)
    × (q ≡ record p { status = PolicyStatus.retired; effective_to = q.effective_to })
    × KeepsEnd p.effective_to q.effective_to

-- Either the row as it was, or the published row retired.
abbrev pub Retained : Policy → Policy → Type 0
Retained p q = (q ≡ p) ⊎ IsRetiredFrom p q

pub retired_copy-IsRetiredFrom :
    (day : ℕ) (p : Policy)
    → p.status ≡ PolicyStatus.published
    → IsRetiredFrom p (retired_copy day p)
retired_copy-IsRetiredFrom day p h = (h, refl, ends p.effective_to)
  where
    ends : (e : Option ℕ) → KeepsEnd e (elim e [ none ↦ some day | some d ↦ some d ])
    ends none = (day, refl)
    ends (some d) = refl

abbrev pub IsKept : Policy → ℕ → List Policy → Type 0
IsKept p n ps =
    IsNumbered (λ p. p.id) n ps × ((q : Policy) × (policy_row p.id ps ≡ some q) × Retained p q)

module _ (f : Policy → Bool) where
  policy_row-select-none :
      (i : ℕ) (ps : List Policy) → policy_row i ps ≡ none → policy_row i (select f ps) ≡ none
  policy_row-select-none i [] h = refl
  policy_row-select-none i (p ∷ ps) h = elim (Bool-cases (p.id == i)) [
    | inl hit ↦ ground (arith, hit, h)
    | inr miss ↦
        let rest = policy_row-select-none i ps (ground (arith, miss, h)) in
        ground (arith, miss, rest, Bool-cases (f p))
  ]

  policy_row-select :
      (i : ℕ) (q : Policy) (ps : List Policy)
      → policy_row i ps ≡ some q
      → f q ≡ true
      → policy_row i (select f ps) ≡ some q
  policy_row-select i q [] h fine = ground arith
  policy_row-select i q (p ∷ ps) h fine = elim (Bool-cases (p.id == i)) [
    | inl hit ↦
        let same : p ≡ q = ground (arith, hit, h) in
        let kept : f p ≡ true = ap f same ∙ fine in ground (arith, hit, kept, h)
    | inr miss ↦
        let rest = policy_row-select i q ps (ground (arith, miss, h)) fine in
        ground (arith, miss, rest, Bool-cases (f p))
  ]

  select-IsNumbered :
      (n : ℕ) (ps : List Policy)
      → IsNumbered (λ p. p.id) n ps
      → IsNumbered (λ p. p.id) n (select f ps)
  select-IsNumbered n [] h = h
  select-IsNumbered n (p ∷ ps) h =
      let rest = select-IsNumbered n ps (h.0.1, h.1.1) in
      elim (Bool-cases (f p)) [
        | inl kept ↦ rw kept ((policy_row-select-none p.id ps h.0.0, rest.0), (h.1.0, rest.1))
        | inr left ↦ rw left rest
      ]

pub skip-IsKept : (p : Policy) (n : ℕ) (ps : List Policy) → IsKept p n ps → IsKept p (suc n) ps
skip-IsKept p n ps h = ((h.0.0, less-All (λ p. p.id) n (suc n) ps (ground arith) h.0.1), h.1)

pub insert-IsKept :
    (p : Policy) (n : ℕ) (row : Policy) (ps : List Policy)
    → row.id ≡ n
    → IsKept p n ps
    → IsKept p (suc n) (row ∷ ps)
insert-IsKept p n row ps new h =
    let (q, at, same) = h.1 in
    let (less, one) = get_row-All (λ r. r.id) (λ r. r.id < n) p.id ps q h.0.1 at in
    let away : (row.id == p.id) ≡ false = ground (arith, new, less, one) in
    (insert-IsNumbered (λ r. r.id) n row ps new h.0, (q, ground (arith, away, at), same))

pub select-IsKept :
    (p : Policy) (n : ℕ) (f : Policy → Bool) (ps : List Policy)
    → ((q : Policy) → policy_row p.id ps ≡ some q → Retained p q → f q ≡ true)
    → IsKept p n ps
    → IsKept p n (select f ps)
select-IsKept p n f ps fine h =
    let (q, at, same) = h.1 in
    (select-IsNumbered f n ps h.0, (q, policy_row-select f p.id q ps at (fine q at same), same))

pub put-IsKept :
    (p : Policy) (n : ℕ) (d row : Policy) (ps : List Policy)
    → policy_row row.id ps ≡ some d
    → IsKept p n ps
    → ((q : Policy) → policy_row p.id ps ≡ some q → row.id ≡ p.id → Retained p q → Retained p row)
    → IsKept p n (put_row (λ r. r.id) row ps)
put-IsKept p n d row ps at h same =
    let (q, found, kept) = h.1 in
    let numbered = put-IsNumbered (λ r. r.id) n d row ps at h.0 in
    elim (Bool-cases (row.id == p.id)) [
      | inl hit ↦ (
        numbered,
        (
          row,
          ground (arith, get-put_row (λ r. r.id) p.id row ps, hit, found),
          same q found (ground (arith, hit)) kept,
        ),
      )
      | inr miss ↦
          (numbered, (q, ground (arith, get-put_row (λ r. r.id) p.id row ps, miss, found), kept))
    ]
