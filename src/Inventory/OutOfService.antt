-- ===== src/Inventory/OutOfService.antt =====
-- `adjust_out_of_service_window`: the loop over the initialised rows of a date interval.
use mathlib.Core.Option
use hotel_booking.Base.{
  ℕ, ◌≡◌, refl, Bool, true, false, ◌&&◌, Option, none, some, List, [], ◌∷◌, arith, leb, ltb, ◌==◌,
  if◌then◌else◌, all, elem, inl, inr, Bool-cases, length, select, All, Option-cases,
}
use hotel_booking.Base.Int.{ℤ, pos, ◌+ℤ◌, pos_part}
use hotel_booking.Tx.{ok, err, integrity_error}
use hotel_booking.Inventory.{
  SlotKey, Slot, key_eq, pk_eq, update_rows, by_date, update_each, shift_each, shift_out_of_service,
  adjust_out_of_service_window,
}
use hotel_booking.Inventory.View.{
  view, IsValid, SameRow, put, key_eq_iff, view_sound, view-put, put-IsValid, update_rows-view,
  update_rows-refused, view-within_total,
}
use hotel_booking.Inventory.Window.{
  IsDistinct, IsReady, Updates, rewritten, update_each-rewritten, view-rewritten,
}

-- The rows of key `k` in [start, end).
abbrev pub in_window : SlotKey → ℕ → ℕ → Slot → Bool
in_window k start_date end_date s =
    key_eq s.key k && (leb start_date s.business_date && ltb s.business_date end_date)

-- The database accepts the shift of this row.
abbrev pub shifts : ℤ → Slot → Bool
shifts delta s = elim (shift_out_of_service delta s) [ none ↦ false | some _ ↦ true ]

-- The row after the shift, where it is accepted.
abbrev pub shifted : ℤ → Slot → Slot
shifted delta s = record s { out_of_service = pos_part (pos s.out_of_service +ℤ delta) }

abbrev dates_of : List Slot → List ℕ
dates_of [] = []
dates_of (s ∷ t) = s.business_date ∷ dates_of t

shift-Updates :
    (delta : ℤ) → Updates (shifts delta) (λ _. shift_out_of_service delta) (shifted delta)
unfolding ◌+ℤ◌
shift-Updates delta r h v = ground arith

-- The rows of the window stand in the table, each under its own date.
select-elem :
    (k : SlotKey) (a b d : ℕ) (t : List Slot)
    → elem d (dates_of (select (in_window k a b) t))
      ≡ (elim (view k d t) [ none ↦ false | some _ ↦ leb a d && ltb d b ])
unfolding view
select-elem k a b d [] = refl
select-elem k a b d (s ∷ t) = ground (arith, select-elem k a b d t)

select-IsDistinct :
    (k : SlotKey) (a b : ℕ) (t : List Slot)
    → IsValid t
    → IsDistinct (dates_of (select (in_window k a b) t))
select-IsDistinct k a b [] v = tt
select-IsDistinct k a b (s ∷ t) v =
    ground (
      arith,
      select-IsDistinct k a b t v.3,
      select-elem k a b s.business_date t,
      key_eq_iff s.key k,
    )

pub by_date-select :
    (k : SlotKey) (a b d : ℕ) (t : List Slot)
    → by_date (select (in_window k a b) t) d ≡ (if leb a d && ltb d b then view k d t else none)
unfolding view by_date
by_date-select k a b d [] = ground arith
by_date-select k a b d (s ∷ t) = ground (arith, by_date-select k a b d t)

-- Each row of the list is the table's row of its date.
abbrev Stands : SlotKey → List Slot → List Slot → Type 0
Stands k t = All (λ r. view k r.business_date t ≡ some r)

Stands-cons :
    (k : SlotKey) (s : Slot) (t rows : List Slot) → Stands k t rows → Stands k (s ∷ t) rows
unfolding view
Stands-cons k s t [] h = tt
Stands-cons k s t (r ∷ rows) h = ground (arith, Stands-cons k s t rows h.1)

select-Stands :
    (k : SlotKey) (a b : ℕ) (t : List Slot) → IsValid t → Stands k t (select (in_window k a b) t)
unfolding view
select-Stands k a b [] v = tt
select-Stands k a b (s ∷ t) v =
    let rest = Stands-cons k s t (select (in_window k a b) t) (select-Stands k a b t v.3) in
    elim (Bool-cases (in_window k a b s)) [
      | inl here ↦ rw here (ground (arith, here, key_eq_iff s.key k), rest)
      | inr away ↦ rw away rest
    ]

Stands-put :
    (k : SlotKey) (r r' : Slot) (t rows : List Slot)
    → IsValid t
    → view r.key r.business_date t ≡ some r
    → SameRow r r'
    → elem r.business_date (dates_of rows) ≡ false
    → Stands k t rows
    → Stands k (put r' t) rows
Stands-put k r r' t [] v h q n all_stand = tt
Stands-put k r r' t (x ∷ rows) v h q n all_stand =
    ground (arith, view-put k x.business_date r r' t v h q, Stands-put k r r' t rows v h q)

-- The loop fails where the constraints refuse the shift of some row.
shift_each-refused :
    (delta : ℤ) (k : SlotKey) (rows t : List Slot)
    → IsValid t
    → IsDistinct (dates_of rows)
    → Stands k t rows
    → all (shifts delta) rows ≡ false
    → (shift_each delta rows t).0 ≡ err integrity_error
unfolding shift_each
shift_each-refused delta k [] t v n stands h = cc
shift_each-refused delta k (r ∷ rows) t v n stands h =
    let at = view_sound k r.business_date t r stands.0 in
    let there : view r.key r.business_date t ≡ some r = ground arith in
    elim (Bool-cases (shifts delta r)) [
      | inr no_shift ↦ ground (
        arith,
        no_shift,
        update_rows-refused k r.business_date (shift_out_of_service delta) t r stands.0,
      )
      | inl shift ↦
          let (done, same, fits) =
            shift-Updates delta r shift (view-within_total k r.business_date t r v stands.0) in
          ground (
            arith,
            shift,
            update_rows-view k r.business_date (shift_out_of_service delta) t r (shifted delta r) v
                stands.0 done same,
            shift_each-refused delta k rows (put (shifted delta r) t)
                (put-IsValid r (shifted delta r) t v there same fits) n.1
                (Stands-put k r (shifted delta r) t rows v there same n.0 stands.1),
          )
    ]

-- A loop over the rows is a loop over their dates.
shift_each-update_each :
    (delta : ℤ) (locked : ℕ → Option Slot) (rows t : List Slot)
    → All (λ r. locked r.business_date ≡ some r) rows
    → shift_each delta rows t
      ≡ update_each (λ _. shift_out_of_service delta) locked (dates_of rows) t
unfolding shift_each update_each
shift_each-update_each delta locked [] t h = refl
shift_each-update_each delta locked (r ∷ rows) t h =
    elim (Option-cases (update_rows (pk_eq r.business_date r.id) (shift_out_of_service delta) t)) [
      | inl refused ↦ ground (arith, refused)
      | inr (t', done) ↦ ground (arith, done, shift_each-update_each delta locked rows t' h.1)
    ]

by_date_of_Stands :
    (k : SlotKey) (a b : ℕ) (t rows : List Slot)
    → Stands k t rows
    → All (λ r. in_window k a b r ≡ true) rows
    → All (λ r. by_date (select (in_window k a b) t) r.business_date ≡ some r) rows
by_date_of_Stands k a b t [] h w = tt
by_date_of_Stands k a b t (r ∷ rows) h w =
    ground (arith, by_date-select k a b r.business_date t, by_date_of_Stands k a b t rows h.1 w.1)

select-All : (p : Slot → Bool) (t : List Slot) → All (λ r. p r ≡ true) (select p t)
select-All p [] = tt
select-All p (s ∷ t) = elim (Bool-cases (p s)) [
  | inl here ↦ rw here (here, select-All p t)
  | inr away ↦ rw away (select-All p t)
]

all-elem :
    (p : Slot → Bool) (d : ℕ) (rows : List Slot) (locked : ℕ → Option Slot)
    → All (λ r. locked r.business_date ≡ some r) rows
    → all p rows ≡ true
    → elem d (dates_of rows) ≡ true
    → (r : Slot) × (locked d ≡ some r) × (p r ≡ true)
all-elem p d [] locked h g m = ground arith
all-elem p d (r ∷ rows) locked h g m = elim (Bool-cases (d == r.business_date)) [
  | inl same ↦ (r, ground (arith, same), ground arith)
  | inr other ↦ all-elem p d rows locked h.1 (ground arith) (ground (arith, other))
]

module _ (k : SlotKey) (a b : ℕ) (delta : ℤ) (t : List Slot) (v : IsValid t) where
  abbrev rows : List Slot
  rows = select (in_window k a b) t

  rows-IsReady :
      all (shifts delta) rows ≡ true → IsReady (shifts delta) k (by_date rows) (dates_of rows) t
  rows-IsReady good d m =
      let (r, held, fits) =
        all-elem (shifts delta) d rows (by_date rows)
          (by_date_of_Stands k a b t rows (select-Stands k a b t v)
            (select-All (in_window k a b) t))
          good m in
      (r, ground (arith, by_date-select k a b d t, held), held, fits)

  adjust_ok :
      all (shifts delta) rows ≡ true
      → let t' = rewritten (shifted delta) k (dates_of rows) t in
        (adjust_out_of_service_window k a b delta t ≡ (ok (length rows), t'))
        × IsValid t'
        × ((k' : SlotKey) (d : ℕ)
            → view k' d t' ≡ (
                if key_eq k k' && elem d (dates_of rows)
                then Option.map (shifted delta) (view k' d t)
                else view k' d t))
  unfolding adjust_out_of_service_window
  adjust_ok good =
      let distinct = select-IsDistinct k a b t v in
      let ready = rows-IsReady good in
      let (loop, valid) =
        update_each-rewritten (shifts delta) (λ _. shift_out_of_service delta) (shifted delta)
          (shift-Updates delta) k (by_date rows) (dates_of rows) t v distinct ready in
      let same = shift_each-update_each delta (by_date rows) rows t (
        by_date_of_Stands k a b t rows (select-Stands k a b t v)
          (select-All (in_window k a b) t)) in
      (
        ground (arith, loop, same),
        valid,
        λ k' d.
            view-rewritten (shifts delta) (λ _. shift_out_of_service delta) (shifted delta)
              (shift-Updates delta) k (by_date rows) (dates_of rows) t k' d v distinct ready,
      )

  adjust_refused :
      all (shifts delta) rows ≡ false
      → adjust_out_of_service_window k a b delta t ≡ (err integrity_error, t)
  unfolding adjust_out_of_service_window
  adjust_refused bad = ground (
    arith,
    shift_each-refused delta k rows t v (select-IsDistinct k a b t v) (select-Stands k a b t v) bad,
  )

-- The adjustment touches exactly the initialised rows of the key in [start, end): if the database
-- accepts the shift of each, then all are shifted, no other row changes, the constraints hold and
-- the number of the rows is returned; if it refuses one, the call raises and changes nothing.
pub adjust_out_of_service_window_lem :
    (k : SlotKey) (start_date end_date : ℕ) (delta : ℤ) (t : List Slot)
    → IsValid t
    → let rows = select (in_window k start_date end_date) t in
      let out = adjust_out_of_service_window k start_date end_date delta t in
      (all (shifts delta) rows ≡ true
        → (out.0 ≡ ok (length rows))
          × IsValid out.1
          × ((k' : SlotKey) (d : ℕ)
              → view k' d out.1 ≡ (
                  if key_eq k k' && (leb start_date d && ltb d end_date)
                  then Option.map (shifted delta) (view k' d t)
                  else view k' d t)))
      × (all (shifts delta) rows ≡ false → out ≡ (err integrity_error, t))
adjust_out_of_service_window_lem k a b delta t v = (
  λ good.
      let (done, valid, seen) = adjust_ok k a b delta t v good in
      rw done
        (refl, valid, λ k' d. ground (arith, seen k' d, select-elem k a b d t, key_eq_iff k k')),
  adjust_refused k a b delta t v,
)
