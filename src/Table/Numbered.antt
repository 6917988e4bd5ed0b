-- ===== src/Table/Numbered.antt =====
-- Tables whose keys are unique and below the next one of the sequence.
use mathlib.Core.Path.{subst}
use hotel_booking.Base.{
  ℕ, suc, ◌≤◌, ◌<◌, ◌≡◌, refl, sym, ap, ◌∙◌, Bool, true, ◌&&◌, none, some, List, [], ◌∷◌, ◌==◌, All,
  find?, arith, inl, inr, Bool-cases,
}
use hotel_booking.Table.{get_row, put_row}
use hotel_booking.Table.Versions.{IsKeyed}
use hotel_booking.Table.Lookup.{get_row-All, put_row-IsKeyed}

module _ {Row : Type 0} (id : Row → ℕ) where
  abbrev pub IsNumbered : ℕ → List Row → Type 0
  IsNumbered n rows = IsKeyed id rows × All (λ r. id r < n) rows

  pub less-All :
      (n m : ℕ) (rows : List Row) → n ≤ m → All (λ r. id r < n) rows → All (λ r. id r < m) rows
  less-All n m [] h all = tt
  less-All n m (r ∷ rows) h all = (ground (arith, h, all.0), less-All n m rows h all.1)

  pub fresh : (n : ℕ) (rows : List Row) → All (λ r. id r < n) rows → get_row id n rows ≡ none
  fresh n [] h = refl
  fresh n (r ∷ rows) h = ground (arith, h.0, fresh n rows h.1)

  put-less :
      (n : ℕ) (row : Row) (rows : List Row)
      → id row < n
      → All (λ r. id r < n) rows
      → All (λ r. id r < n) (put_row id row rows)
  unfolding put_row
  put-less n row [] h all = tt
  put-less n row (r ∷ rows) h all = elim (Bool-cases (id r == id row)) [
    | inl hit ↦ rw hit (h, put-less n row rows h all.1)
    | inr miss ↦ rw miss (all.0, put-less n row rows h all.1)
  ]

  -- An insertion under the next key.
  pub insert-IsNumbered :
      (n : ℕ) (row : Row) (rows : List Row)
      → id row ≡ n
      → IsNumbered n rows
      → IsNumbered (suc n) (row ∷ rows)
  insert-IsNumbered n row rows new h = (
    (subst (λ j. get_row id j rows ≡ none) (sym new) (fresh n rows h.1), h.0),
    (ground (arith, new), less-All n (suc n) rows (ground arith) h.1),
  )

  -- An update of a row that the table has.
  pub put-IsNumbered :
      (n : ℕ) (d row : Row) (rows : List Row)
      → get_row id (id row) rows ≡ some d
      → IsNumbered n rows
      → IsNumbered n (put_row id row rows)
  put-IsNumbered n d row rows at h =
      let (less, one) = get_row-All id (λ r. id r < n) (id row) rows d h.1 at in
      (put_row-IsKeyed id row rows h.0, put-less n row rows (ground (arith, less, one)) h.1)

  -- The row that a look-up by key and condition finds is the row of its key.
  pub found-row :
      (f : Row → Bool) (i : ℕ) (rows : List Row) (d : Row)
      → IsKeyed id rows
      → find? (λ r. id r == i && f r) rows ≡ some d
      → (get_row id i rows ≡ some d) × (f d ≡ true) × (id d ≡ i)
  found-row f i [] d k h = ground arith
  found-row f i (r ∷ rows) d k h = elim (Bool-cases (id r == i)) [
    | inl hit ↦ elim (Bool-cases (f r)) [
      | inl fine ↦
          let same : r ≡ d = ground (arith, h, hit, fine) in
          (ground (arith, hit, same), ap f (sym same) ∙ fine, ground (arith, hit, ap id same))
      | inr bad ↦
          let (at, _, _) = found-row f i rows d k.1 (ground (arith, h, hit, bad)) in
          let one : i ≡ id r = ground (arith, hit) in
          let away : get_row id i rows ≡ none =
            subst (λ j. get_row id j rows ≡ none) (sym one) k.0 in
          ground (arith, at, away)
    ]
    | inr miss ↦
        let (at, fine, same) = found-row f i rows d k.1 (ground (arith, h, miss)) in
        (ground (arith, miss, at), fine, same)
  ]
