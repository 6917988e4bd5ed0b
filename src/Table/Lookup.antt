-- ===== src/Table/Lookup.antt =====
-- What a look-up by primary key finds, and what an UPDATE by key leaves.
use mathlib.Core.Path.{subst}
use hotel_booking.Base.{
  ℕ, ◌≡◌, refl, false, none, some, List, [], ◌∷◌, ◌==◌, arith, All, inl, inr, Bool-cases,
}
use hotel_booking.Table.{get_row, put_row}
use hotel_booking.Table.Versions.{IsKeyed}

module _ {Row : Type 0} (id : Row → ℕ) where
  pub get_row-All :
      (P : Row → Type 0) (i : ℕ) (rows : List Row) (r : Row)
      → All P rows
      → get_row id i rows ≡ some r
      → P r × (id r ≡ i)
  get_row-All P i [] r h found = ground arith
  get_row-All P i (x ∷ rows) r h found = elim (Bool-cases (id x == i)) [
    | inl hit ↦
        let same : x ≡ r = ground (arith, hit, found) in
        (subst P same h.0, ground (arith, hit, same))
    | inr miss ↦ get_row-All P i rows r h.1 (ground (arith, miss, found))
  ]

  put_row-none :
      (i : ℕ) (row : Row) (rows : List Row)
      → get_row id i rows ≡ none
      → get_row id i (put_row id row rows) ≡ none
  unfolding put_row
  put_row-none i row [] h = refl
  put_row-none i row (r ∷ rows) h = elim (Bool-cases (id r == i)) [
    | inl hit ↦ ground (arith, hit)
    | inr miss ↦ ground (arith, miss, put_row-none i row rows)
  ]

  pub put_row-IsKeyed :
      (row : Row) (rows : List Row) → IsKeyed id rows → IsKeyed id (put_row id row rows)
  unfolding put_row
  put_row-IsKeyed row [] k = tt
  put_row-IsKeyed row (r ∷ rows) k = elim (Bool-cases (id r == id row)) [
    | inl hit ↦
        let same : get_row id (id row) rows ≡ none = ground (arith, hit, k.0) in
        rw hit (put_row-none (id row) row rows same, put_row-IsKeyed row rows k.1)
    | inr miss ↦ rw miss (put_row-none (id r) row rows k.0, put_row-IsKeyed row rows k.1)
  ]

  later-All :
      (x : Row) (rows all : List Row)
      → get_row id (id x) rows ≡ none
      → All (λ r. get_row id (id r) all ≡ some r) rows
      → All (λ r. get_row id (id r) (x ∷ all) ≡ some r) rows
  later-All x [] all new h = tt
  later-All x (r ∷ rows) all new h =
      let apart : (id x == id r) ≡ false = ground (arith, new, Bool-cases (id x == id r)) in
      let rest : get_row id (id x) rows ≡ none = ground (arith, new, Bool-cases (id r == id x)) in
      (rw apart h.0, later-All x rows all rest h.1)

  -- Each row of a keyed table is the one that its key finds.
  pub IsKeyed-All :
      (rows : List Row) → IsKeyed id rows → All (λ r. get_row id (id r) rows ≡ some r) rows
  IsKeyed-All [] k = tt
  IsKeyed-All (r ∷ rows) k = (ground arith, later-All r rows rows k.0 (IsKeyed-All rows k.1))
