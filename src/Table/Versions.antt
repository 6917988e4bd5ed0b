-- ===== src/Table/Versions.antt =====
-- `save()` of a versioned model: lost updates are detected, once.
use hotel_booking.Base.{
  ℕ, suc, ◌≡◌, ◌≢◌, refl, false, none, some, List, [], ◌∷◌, ◌==◌, if◌then◌else◌, arith, inl, inr,
  Bool-cases,
}
use hotel_booking.Tx.{ok, err, concurrency_error}
use hotel_booking.Table.{get_row, put_row, Versioned, current, put_current, save}

module _ {Row : Type 0} (id : Row → ℕ) where
  pub get-put_row :
      (i : ℕ) (row : Row) (rows : List Row)
      → get_row id i (put_row id row rows) ≡ (
          if id row == i
          then elim (get_row id i rows) [ none ↦ none | some _ ↦ some row ]
          else get_row id i rows)
  unfolding put_row
  get-put_row i row [] = ground arith
  get-put_row i row (r ∷ rows) = ground (arith, get-put_row i row rows)

-- No two rows share a primary key.
abbrev pub IsKeyed : {Row : Type 0} → (Row → ℕ) → List Row → Type 0
IsKeyed id [] = Unit
IsKeyed id (r ∷ rows) = (get_row id (id r) rows ≡ none) × IsKeyed id rows

module _ {Row : Type 0} (v : Versioned Row) where
  current-none :
      (i n : ℕ) (rows : List Row) → get_row v.id i rows ≡ none → current v i n rows ≡ false
  unfolding current
  current-none i n [] h = refl
  current-none i n (r ∷ rows) h = ground (arith, current-none i n rows)

  -- With unique keys the WHERE clause asks for the stored version.
  pub current-get_row :
      (i n : ℕ) (rows : List Row)
      → IsKeyed v.id rows
      → current v i n rows
        ≡ (elim (get_row v.id i rows) [ none ↦ false | some r ↦ v.version r == n ])
  unfolding current
  current-get_row i n [] k = refl
  current-get_row i n (r ∷ rows) k = elim (Bool-cases (v.id r == i)) [
    | inl here ↦ ground (arith, here, current-none i n rows)
    | inr away ↦ ground (arith, away, current-get_row i n rows k.1)
  ]

  put_current-none :
      (n : ℕ) (row : Row) (rows : List Row)
      → get_row v.id (v.id row) rows ≡ none
      → put_current v n row rows ≡ put_row v.id row rows
  unfolding put_current put_row
  put_current-none n row [] h = refl
  put_current-none n row (r ∷ rows) h = ground (arith, put_current-none n row rows)

  pub put_current-put_row :
      (n : ℕ) (row r0 : Row) (rows : List Row)
      → IsKeyed v.id rows
      → get_row v.id (v.id row) rows ≡ some r0
      → v.version r0 ≡ n
      → put_current v n row rows ≡ put_row v.id row rows
  unfolding put_current put_row
  put_current-put_row n row r0 [] k h e = refl
  put_current-put_row n row r0 (r ∷ rows) k h e = elim (Bool-cases (v.id r == v.id row)) [
    | inl here ↦ ground (arith, here, put_current-none n row rows)
    | inr away ↦ ground (arith, away, put_current-put_row n row r0 rows k.1)
  ]

  pub put_row-IsKeyed :
      (row : Row) (rows : List Row) → IsKeyed v.id rows → IsKeyed v.id (put_row v.id row rows)
  unfolding put_row
  put_row-IsKeyed row [] k = tt
  put_row-IsKeyed row (r ∷ rows) k =
      ground (arith, put_row-IsKeyed row rows k.1, get-put_row v.id (v.id r) row rows)

  -- With unique primary keys, a save against a row that stands in the table writes it exactly when
  -- the instance has the stored version, and counts the version up; otherwise it raises
  -- `ConcurrencyError` and the table is as it was.
  pub save_lem :
      (instance' stored : Row) (rows : List Row)
      → IsKeyed v.id rows
      → get_row v.id (v.id instance') rows ≡ some stored
      → let (r, bumped, rows') = save v instance' rows in
        (bumped ≡ v.set_version (suc (v.version instance')) instance')
        × (v.version stored ≡ v.version instance'
            → (r ≡ ok tt) × (rows' ≡ put_row v.id bumped rows))
        × (v.version stored ≢ v.version instance' → (r ≡ err concurrency_error) × (rows' ≡ rows))
  unfolding save
  save_lem instance' stored rows k h =
      let n = v.version instance' in
      let bumped = v.set_version (suc n) instance' in
      let found = current-get_row (v.id instance') n rows k in
      (
        ground (arith, Bool-cases (current v (v.id instance') n rows)),
        λ same. ground (
          arith,
          found,
          h,
          put_current-put_row n bumped stored rows k,
          v.id-set_version (suc n) instance',
        ),
        λ other. ground (arith, found, h),
      )

  -- The detection works once for an instance: when one other writer was first, `save` raises
  -- `ConcurrencyError`, but it leaves the instance with the version of that writer, and a second
  -- `save` of the same instance, without a reload, overwrites the other writer's row.
  pub save-save_stale :
      (instance' stored : Row) (rows : List Row)
      → IsKeyed v.id rows
      → get_row v.id (v.id instance') rows ≡ some stored
      → v.version stored ≡ suc (v.version instance')
      → let (r, bumped, rows') = save v instance' rows in
        let (r2, twice, rows2) = save v bumped rows' in
        (r ≡ err concurrency_error) × (r2 ≡ ok tt) × (rows2 ≡ put_row v.id twice rows)
  save-save_stale instance' stored rows k h stale =
      let (grown, _, refused) = save_lem instance' stored rows k h in
      let (failed, same) = refused (ground arith) in
      let bumped = (save v instance' rows).1 in
      let id_kept : v.id bumped ≡ v.id instance' =
        rw grown (v.id-set_version (suc (v.version instance')) instance') in
      let counted : v.version bumped ≡ suc (v.version instance') =
        rw grown (v.version-set_version (suc (v.version instance')) instance') in
      let (_, written, _) = save_lem bumped stored rows k (rw id_kept h) in
      let (done, table) = written (ground arith) in (failed, rw same done, rw same table)
