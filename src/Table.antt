-- ===== src/Table.antt =====
-- Tables whose rows have a primary key, and `VersionedMixin` of apps/shared/models/mixins.py.
pub mod Lookup
pub mod Numbered
pub mod Versions
use hotel_booking.Base.{
  ℕ, suc, ◌+◌, ◌≡◌, Bool, true, false, ◌&&◌, ◌||◌, Option, none, some, List, [], ◌∷◌, ◌==◌,
  if◌then◌else◌, find?,
}
use hotel_booking.Tx.{Error, Result, ok, err, concurrency_error, does_not_exist}

module _ {Row : Type 0} (id : Row → ℕ) where
  -- `.get(pk=…)`
  abbrev pub get_row : ℕ → List Row → Option Row
  get_row i = find? (λ r. id r == i)

  -- `UPDATE … WHERE id = …` with the columns of `row`
  unfoldable pub put_row : Row → List Row → List Row
  put_row row [] = []
  put_row row (r ∷ rows) = (if id r == id row then row else r) ∷ put_row row rows

-- The interface of a model with a `version` column.
pub record Versioned (Row : Type 0) : Type 0 where
  pub id : Row → ℕ
  pub version : Row → ℕ
  pub set_version : ℕ → Row → Row
  pub id-set_version : (n : ℕ) (r : Row) → id (set_version n r) ≡ id r
  pub version-set_version : (n : ℕ) (r : Row) → version (set_version n r) ≡ n

module _ {Row : Type 0} (v : Versioned Row) where
  -- `WHERE id = … AND version = …`
  unfoldable pub current : ℕ → ℕ → List Row → Bool
  current i n [] = false
  current i n (r ∷ rows) = (v.id r == i && v.version r == n) || current i n rows

  unfoldable pub put_current : ℕ → Row → List Row → List Row
  put_current n row [] = []
  put_current n row (r ∷ rows) =
      (if v.id r == v.id row && v.version r == n then row else r) ∷ put_current n row rows

  -- `save()` of an existing instance, without `force_update`, which no caller passes: the outcome,
  -- the instance in memory afterwards, the table.
  -- `_conditional_update` counts the version up before the UPDATE, whatever the UPDATE finds.
  unfoldable pub save : Row → List Row → Result (Unit {0}) × Row × List Row
  save instance' rows =
      let old_version = v.version instance' in
      let bumped = v.set_version (suc old_version) instance' in
      if current (v.id instance') old_version rows
      then (ok tt, bumped, put_current old_version bumped rows)
      else (err concurrency_error, bumped, rows)
