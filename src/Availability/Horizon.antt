-- ===== src/Availability/Horizon.antt =====
-- `initialize_horizon`: which rows it creates, and that it leaves the others alone.
use hotel_booking.Base.{
  ℕ, suc, ◌+◌, ◌≤◌, ◌<◌, ◌≡◌, refl, Bool, true, false, ◌&&◌, ◌||◌, not, all, Option, none, some,
  List, [], ◌∷◌, arith, ◌==◌, if◌then◌else◌, select, All, elem, length, range_from, inl, inr,
  Bool-cases,
}
use hotel_booking.Tx.{ok, err, Error, Result, data_error, integrity_error}
use hotel_booking.Inventory.{SlotKey, Slot, key_eq, window_rows}
use hotel_booking.Inventory.View.{view, pk_free, IsValid, key_eq_iff}
use hotel_booking.Inventory.Window.{IsDistinct}
use hotel_booking.Model.{Db, Env, today}
use hotel_booking.Availability.{
  fits_integer, dates_of, fresh_slot, conflicts, create_slots, missing_dates, open_horizon,
  initialize_horizon, get_or,
}
use hotel_booking.Availability.Sellable.{range-IsDistinct}

-- The sequence is ahead of every id in the table.
abbrev pub IdsBelow : ℕ → List Slot → Type 0
IdsBelow n = All (λ s. s.id < n)

IdsBelow-mono : (n m : ℕ) (t : List Slot) → n ≤ m → IdsBelow n t → IdsBelow m t
IdsBelow-mono n m [] le h = tt
IdsBelow-mono n m (s ∷ t) le h = (omega arith, IdsBelow-mono n m t le h.1)

IdsBelow-pk_free : (d i : ℕ) (t : List Slot) → IdsBelow i t → pk_free d i t ≡ true
unfolding pk_free
IdsBelow-pk_free d i [] h = refl
IdsBelow-pk_free d i (s ∷ t) h = ground (arith, IdsBelow-pk_free d i t h.1)

conflicts_lem :
    (s : Slot) (t : List Slot)
    → view s.key s.business_date t ≡ none
    → IdsBelow s.id t
    → conflicts s t ≡ false
unfolding view conflicts
conflicts_lem s [] h b = refl
conflicts_lem s (r ∷ t) h b = ground (arith, conflicts_lem s t, key_eq_iff r.key s.key)

-- The table after the rows of the dates were created.
opened : SlotKey → ℕ → ℕ → List ℕ → List Slot → List Slot
opened k total_units i [] t = t
opened k total_units i (d ∷ ds) t =
    opened k total_units (suc i) ds (fresh_slot k total_units i d ∷ t)

abbrev Absent : SlotKey → List ℕ → List Slot → Type 0
Absent k ds t = (d : ℕ) → elem d ds ≡ true → view k d t ≡ none

Absent-cons :
    (k : SlotKey) (total_units i d : ℕ) (ds : List ℕ) (t : List Slot)
    → elem d ds ≡ false
    → Absent k (d ∷ ds) t
    → Absent k ds (fresh_slot k total_units i d ∷ t)
unfolding view
Absent-cons k total_units i d ds t n h e m = ground (arith, h e)

-- Can the table take the rows of the dates: no date, or a count that fits and a partition for each?
abbrev pub accepts : Env → ℕ → List ℕ → Bool
accepts env total_units ds =
    length ds == 0 || (fits_integer total_units && all env.has_partition ds)

create_slots-opened :
    (has_partition : ℕ → Bool) (k : SlotKey) (total_units i : ℕ) (ds : List ℕ) (t : List Slot)
    → fits_integer total_units ≡ true
    → all has_partition ds ≡ true
    → IsValid t
    → IdsBelow i t
    → IsDistinct ds
    → Absent k ds t
    → (create_slots has_partition k total_units i ds t ≡ ok (opened k total_units i ds t))
      × IsValid (opened k total_units i ds t)
      × IdsBelow (i + length ds) (opened k total_units i ds t)
unfolding create_slots opened
create_slots-opened has_partition k total_units i [] t fits placed v b n a =
    (refl, v, IdsBelow-mono i (i + 0) t (omega arith) b)
create_slots-opened has_partition k total_units i (d ∷ ds) t fits placed v b n a =
    let s = fresh_slot k total_units i d in
    let free = a d (ground arith) in
    let (made, valid, below) =
      create_slots-opened has_partition k total_units (suc i) ds (s ∷ t) fits (ground arith)
        (omega arith, free, IdsBelow-pk_free d i t b, v)
        (omega arith, IdsBelow-mono i (suc i) t (omega arith) b) n.1
        (Absent-cons k total_units i d ds t n.0 a) in
    (
      ground (arith, conflicts_lem s t free b, made),
      valid,
      IdsBelow-mono (suc i + length ds) (i + suc (length ds)) _ (omega arith) below,
    )

refusal : ℕ → Error
refusal total_units = if fits_integer total_units then integrity_error else data_error

create_slots-too_many :
    (has_partition : ℕ → Bool) (k : SlotKey) (total_units i d : ℕ) (ds : List ℕ) (t : List Slot)
    → fits_integer total_units ≡ false
    → create_slots has_partition k total_units i (d ∷ ds) t ≡ err data_error
unfolding create_slots
create_slots-too_many has_partition k total_units i d ds t big = rw big refl

create_slots-unplaced :
    (has_partition : ℕ → Bool) (k : SlotKey) (total_units i : ℕ) (ds : List ℕ) (t : List Slot)
    → fits_integer total_units ≡ true
    → all has_partition ds ≡ false
    → create_slots has_partition k total_units i ds t ≡ err integrity_error
unfolding create_slots
create_slots-unplaced has_partition k total_units i [] t fits h = ground arith
create_slots-unplaced has_partition k total_units i (d ∷ ds) t fits h =
    let s = fresh_slot k total_units i d in
    elim (Bool-cases (has_partition d)) [
      | inl placed ↦ elim (Bool-cases (conflicts s t)) [
        | inl taken ↦ rw (fits, placed, taken) refl
        | inr free ↦
            rw (fits, placed, free)
              (create_slots-unplaced has_partition k total_units (suc i) ds (s ∷ t) fits
                (ground arith))
      ]
      | inr unplaced ↦ rw (fits, unplaced) refl
    ]

create_slots-refused :
    (has_partition : ℕ → Bool) (k : SlotKey) (total_units i : ℕ) (ds : List ℕ) (t : List Slot)
    → (length ds == 0) ≡ false
    → (fits_integer total_units && all has_partition ds) ≡ false
    → create_slots has_partition k total_units i ds t ≡ err (refusal total_units)
unfolding refusal
create_slots-refused has_partition k total_units i [] t some_date h = ground arith
create_slots-refused has_partition k total_units i (d ∷ ds) t some_date h =
    elim (Bool-cases (fits_integer total_units)) [
      | inl fits ↦
          rw fits
            (create_slots-unplaced has_partition k total_units i (d ∷ ds) t fits (ground arith))
      | inr big ↦ rw big (create_slots-too_many has_partition k total_units i d ds t big)
    ]

-- A slot up to its surrogate id.
abbrev pub without_id : Option Slot → Option Slot
without_id none = none
without_id (some s) = some (record s { id = 0 })

view-opened :
    (k : SlotKey) (total_units i : ℕ) (ds : List ℕ) (t : List Slot) (k' : SlotKey) (d' : ℕ)
    → IsDistinct ds
    → Absent k ds t
    → without_id (view k' d' (opened k total_units i ds t)) ≡ (
        if key_eq k k' && elem d' ds
        then some (fresh_slot k total_units 0 d')
        else without_id (view k' d' t))
unfolding view opened
view-opened k total_units i [] t k' d' n a = ground arith
view-opened k total_units i (d ∷ ds) t k' d' n a = ground (
  arith,
  view-opened k total_units (suc i) ds (fresh_slot k total_units i d ∷ t) k' d' n.1
      (Absent-cons k total_units i d ds t n.0 a),
  a d,
  key_eq_iff k k',
)

-- Is there a row?
abbrev pub exists : Option Slot → Bool
exists none = false
exists (some _) = true

elem-existing :
    (k : SlotKey) (wanted : List ℕ) (t : List Slot) (d : ℕ)
    → elem d (dates_of (window_rows k wanted t)) ≡ (elem d wanted && exists (view k d t))
unfolding view
elem-existing k wanted [] d = ground arith
elem-existing k wanted (s ∷ t) d = ground (arith, elem-existing k wanted t d)

elem-select : (q : ℕ → Bool) (ds : List ℕ) (d : ℕ) → elem d (select q ds) ≡ (elem d ds && q d)
elem-select q [] d = refl
elem-select q (x ∷ ds) d = elim (Bool-cases (d == x)) [
  | inl same ↦ let e : d ≡ x = ground arith in rw e (ground (arith, elem-select q ds x))
  | inr other ↦ ground (arith, other, elem-select q ds d)
]

select-IsDistinct : (q : ℕ → Bool) (ds : List ℕ) → IsDistinct ds → IsDistinct (select q ds)
select-IsDistinct q [] n = tt
select-IsDistinct q (x ∷ ds) n = ground (arith, select-IsDistinct q ds n.1, elem-select q ds x)

elem-missing :
    (k : SlotKey) (wanted : List ℕ) (t : List Slot) (d : ℕ)
    → elem d (missing_dates k wanted t) ≡ (elem d wanted && not (exists (view k d t)))
elem-missing k wanted t d = ground (
  arith,
  elem-select (λ e. not (elem e (dates_of (window_rows k wanted t)))) wanted d,
  elem-existing k wanted t d,
)

missing-Absent :
    (k : SlotKey) (wanted : List ℕ) (t : List Slot) → Absent k (missing_dates k wanted t) t
missing-Absent k wanted t d m = ground (arith, elem-missing k wanted t d)

-- The row of a wanted date after the call: the old one, or a fresh one.
abbrev pub opened_row : SlotKey → ℕ → ℕ → Option Slot → Option Slot
opened_row k total_units d none = some (fresh_slot k total_units 0 d)
opened_row k total_units d (some s) = without_id (some s)

empty_of_no_elem : (ds : List ℕ) → ((d : ℕ) → elem d ds ≡ false) → ds ≡ []
empty_of_no_elem [] h = refl
empty_of_no_elem (d ∷ ds) h = ground (arith, h d)

empty_of_length : (ds : List ℕ) → (length ds == 0) ≡ true → ds ≡ []
empty_of_length [] h = refl
empty_of_length (d ∷ ds) h = ground arith

open_horizon_none :
    (env : Env) (k : SlotKey) (total_units : ℕ) (wanted : List ℕ) (db : Db)
    → missing_dates k wanted db.slots ≡ []
    → open_horizon env k total_units wanted db ≡ (ok 0, db)
unfolding open_horizon
open_horizon_none env k total_units wanted db e = rw e refl

open_horizon-refused :
    (env : Env) (k : SlotKey) (total_units : ℕ) (wanted : List ℕ) (db : Db)
    → accepts env total_units (missing_dates k wanted db.slots) ≡ false
    → open_horizon env k total_units wanted db ≡ (err (refusal total_units), db)
unfolding open_horizon
open_horizon-refused env k total_units wanted db h =
    let missing = missing_dates k wanted db.slots in
    ground (
      arith,
      create_slots-refused env.has_partition k total_units db.next_id missing db.slots
          (ground (arith, h)) (ground (arith, h)),
      h,
    )

module _ (k : SlotKey) (total_units : ℕ) (wanted : List ℕ) (db : Db) (v : IsValid db.slots)
    (b : IdsBelow db.next_id db.slots) (n : IsDistinct wanted) where
  abbrev opened_slots : List Slot
  opened_slots = opened k total_units db.next_id (missing_dates k wanted db.slots) db.slots

  open_horizon-opened :
      (env : Env)
      → accepts env total_units (missing_dates k wanted db.slots) ≡ true
      → let missing = missing_dates k wanted db.slots in
        (open_horizon env k total_units wanted db ≡ (
          ok (length missing),
          record db { slots = opened_slots; next_id = db.next_id + length missing },
        ))
        × IsValid opened_slots
        × IdsBelow (db.next_id + length missing) opened_slots
  unfolding open_horizon opened
  open_horizon-opened env h =
      let missing = missing_dates k wanted db.slots in
      elim (Bool-cases (length missing == 0)) [
        | inl none_missing ↦
            let e = empty_of_length missing none_missing in
            (
              ground (arith, open_horizon_none env k total_units wanted db e, e),
              rw e v,
              rw e (IdsBelow-mono db.next_id (db.next_id + 0) db.slots (omega arith) b),
            )
        | inr some_missing ↦
            let (made, valid, below) =
              create_slots-opened env.has_partition k total_units db.next_id missing db.slots
                (ground (arith, h, some_missing)) (ground (arith, h, some_missing)) v b
                (select-IsDistinct _ wanted n) (missing-Absent k wanted db.slots) in
            (ground (arith, made, some_missing), valid, below)
      ]

  opened_slots-view :
      (k' : SlotKey) (d : ℕ)
      → without_id (view k' d opened_slots) ≡ (
          if key_eq k k' && elem d wanted
          then opened_row k total_units d (view k' d db.slots)
          else without_id (view k' d db.slots))
  opened_slots-view k' d =
      let missing = missing_dates k wanted db.slots in
      ground (
        arith,
        view-opened k total_units db.next_id missing db.slots k' d (select-IsDistinct _ wanted n)
            (missing-Absent k wanted db.slots),
        elem-missing k wanted db.slots d,
        key_eq_iff k k',
      )

abbrev pub wanted_dates : Env → Option ℕ → Option ℕ → Db → List ℕ
wanted_dates env start_date horizon_days db =
    range_from (get_or start_date (today db)) (get_or horizon_days env.availability_horizon_days)

-- What an accepted call leaves: every other table as it was, and each wanted date of the key with a row.
abbrev pub Initialized : Env → SlotKey → ℕ → Option ℕ → Option ℕ → Db → Result ℕ → Db → Type 0
Initialized env k total_units start_date horizon_days db r db' =
    let wanted = wanted_dates env start_date horizon_days db in
    (r ≡ ok (length (missing_dates k wanted db.slots)))
    × IsValid db'.slots
    × IdsBelow db'.next_id db'.slots
    × (db' ≡ record db { slots = db'.slots; next_id = db'.next_id })
    × ((k' : SlotKey) (d : ℕ)
        → without_id (view k' d db'.slots) ≡ (
            if key_eq k k' && elem d wanted
            then opened_row k total_units d (view k' d db.slots)
            else without_id (view k' d db.slots)))

-- On a valid table with a sequence ahead of its ids, `initialize_horizon` succeeds exactly when no
-- wanted date lacks a row, or the unit count fits the column and every date that lacks one has a
-- partition. Then it returns the number of wanted dates that had no row, keeps the table valid and
-- the sequence ahead, and touches no other table; each wanted date of the key has its old row with
-- all its counters, or a fresh one when it had none; every other key and date has the row it had.
-- Otherwise it raises, a DataError for the count and else an IntegrityError, and changes nothing.
pub initialize_horizon_lem :
    (env : Env) (k : SlotKey) (total_units : ℕ) (start_date horizon_days : Option ℕ) (db : Db)
    → IsValid db.slots
    → IdsBelow db.next_id db.slots
    → (let (r, db') = initialize_horizon env k total_units start_date horizon_days db in
        let missing = missing_dates k (wanted_dates env start_date horizon_days db) db.slots in
        (accepts env total_units missing ≡ true
          → Initialized env k total_units start_date horizon_days db r db')
        × (accepts env total_units missing ≡ false
            → (r ≡ err (if fits_integer total_units then integrity_error else data_error))
              × (db' ≡ db)))
unfolding initialize_horizon refusal
initialize_horizon_lem env k total_units start_date horizon_days db v b =
    let start = get_or start_date (today db) in
    let horizon = get_or horizon_days env.availability_horizon_days in
    let wanted = range_from start horizon in
    let n = range-IsDistinct start horizon in
    (
      λ h.
          let (made, valid, below) = open_horizon-opened k total_units wanted db v b n env h in
          rw made (refl, valid, below, refl, opened_slots-view k total_units wanted db v b n),
      λ h. rw (open_horizon-refused env k total_units wanted db h) (refl, refl),
    )

none_missing_after :
    (k : SlotKey) (total_units : ℕ) (wanted : List ℕ) (db : Db)
    → IsValid db.slots
    → IdsBelow db.next_id db.slots
    → IsDistinct wanted
    → let missing = missing_dates k wanted db.slots in
      missing_dates k wanted (opened k total_units db.next_id missing db.slots) ≡ []
none_missing_after k total_units wanted db v b n =
    let t = opened_slots k total_units wanted db v b n in
    empty_of_no_elem (missing_dates k wanted t) (λ d. ground (
      arith,
      elem-missing k wanted t d,
      opened_slots-view k total_units wanted db v b n k d,
      key_eq_iff k k,
    ))

-- After an `initialize_horizon` that returned, a second one of the same key and dates, whatever its
-- unit count, returns 0 and changes nothing, on a valid table with a sequence ahead of its ids.
pub initialize_horizon-initialize_horizon :
    (env : Env) (k : SlotKey) (total_units total_units' : ℕ) (start_date horizon_days : Option ℕ)
    (db : Db) (created : ℕ)
    → IsValid db.slots
    → IdsBelow db.next_id db.slots
    → (initialize_horizon env k total_units start_date horizon_days db).0 ≡ ok created
    → (let (_, db') = initialize_horizon env k total_units start_date horizon_days db in
        initialize_horizon env k total_units' start_date horizon_days db' ≡ (ok 0, db'))
unfolding initialize_horizon
initialize_horizon-initialize_horizon env k total_units total_units' start_date horizon_days db
      created v b done =
    let start = get_or start_date (today db) in
    let horizon = get_or horizon_days env.availability_horizon_days in
    let wanted = range_from start horizon in
    let n = range-IsDistinct start horizon in
    elim (Bool-cases (accepts env total_units (missing_dates k wanted db.slots))) [
      | inl yes' ↦
          let (made, valid, below) = open_horizon-opened k total_units wanted db v b n env yes' in
          rw made (
            open_horizon_none env k total_units' wanted _
              (none_missing_after k total_units wanted db v b n))
      | inr no' ↦ ground (arith, open_horizon-refused env k total_units wanted db no', done)
    ]
