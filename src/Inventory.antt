-- ===== src/Inventory.antt =====
-- The anti-oversell table and its repository: apps/availability/models.py (`AvailabilitySlot`)
-- and apps/availability/repository.py. A date is its proleptic ordinal (`date.toordinal()`).
-- One transaction runs at a time here: `select_for_update` in date order serialises the writers
-- of a window, so the order of the locks does not show.
pub mod View
pub mod Window
pub mod Writes
pub mod OutOfService
pub mod Roundtrip
use hotel_booking.Base.{
  ℕ, ◌+◌, ◌-◌, Bool, true, false, ◌&&◌, not, Option, none, some, List, [], ◌∷◌, min, ltb, leb, ◌==◌,
  if◌then◌else◌, select, all, elem, length,
}
use hotel_booking.Base.Int.{ℤ, pos, negsuc, ◌+ℤ◌}
use hotel_booking.Tx.{
  Tx, Error, ok, err, insufficient_availability, integrity_error, key_error, pure, raise, raise_if,
  gets, from_option, atomic, ◌>>=◌, ◌>>◌,
}

pub data Channel : Type 0 where
  direct : Channel

-- The columns that name a sellable line of inventory: tenant, property, room type and channel.
pub record SlotKey : Type 0 where
  pub tenant_id : ℕ
  pub property_id : ℕ
  pub room_type_id : ℕ
  pub channel : Channel

pub record Slot : Type 0 where
  pub key : SlotKey
  pub business_date : ℕ
  pub id : ℕ
  pub total_units : ℕ
  pub sold : ℕ
  pub reserved : ℕ
  pub blocked : ℕ
  pub out_of_service : ℕ

unfoldable pub key_eq : SlotKey → SlotKey → Bool
key_eq a b =
    a.tenant_id == b.tenant_id
    && (a.property_id == b.property_id && a.room_type_id == b.room_type_id)

abbrev pub used : Slot → ℕ
used s = s.sold + s.reserved + s.blocked + s.out_of_service

-- The generated column. The CHECK `within_total` keeps the difference from going below 0.
abbrev pub remaining : Slot → ℕ
remaining s = s.total_units - used s

-- The CHECK `availability_slot_within_total`; `none` is an update that the database refuses.
abbrev pub checked : Slot → Option Slot
checked s = if leb (used s) s.total_units then some s else none

pub data CounterField : Type 0 where
  sold_field reserved_field : CounterField

abbrev pub get_field : CounterField → Slot → ℕ
get_field sold_field s = s.sold
get_field reserved_field s = s.reserved

abbrev pub set_field : CounterField → ℕ → Slot → Slot
set_field sold_field n s = record s { sold = n }
set_field reserved_field n s = record s { reserved = n }

-- `.update(**{field: F(field) + quantity})` on one row
abbrev pub add_to : CounterField → ℕ → Slot → Option Slot
add_to field quantity s = checked (set_field field (get_field field s + quantity) s)

-- `.update(**{field: F(field) - actual})`; a counter below 0 breaks `non_negative`.
abbrev pub take_from : CounterField → ℕ → Slot → Option Slot
take_from field actual s =
    if ltb (get_field field s) actual
    then none
    else checked (set_field field (get_field field s - actual) s)

-- `.update(reserved=F("reserved") - quantity, sold=F("sold") + quantity)`
abbrev pub convert_row : ℕ → Slot → Option Slot
convert_row quantity s =
    if ltb s.reserved quantity
    then none
    else checked (record s { reserved = s.reserved - quantity; sold = s.sold + quantity })

-- `.update(out_of_service=F("out_of_service") + delta)`
abbrev pub shift_out_of_service : ℤ → Slot → Option Slot
shift_out_of_service delta s = elim (pos s.out_of_service +ℤ delta) [
  | pos n ↦ checked (record s { out_of_service = n })
  | negsuc _ ↦ none
]

-- `WHERE business_date = … AND id = …`
abbrev pub pk_eq : ℕ → ℕ → Slot → Bool
pk_eq d i s = s.business_date == d && s.id == i

-- One UPDATE statement: every matching row is rewritten, or the statement fails as a whole.
unfoldable pub update_rows : (Slot → Bool) → (Slot → Option Slot) → List Slot → Option (List Slot)
update_rows p f [] = some []
update_rows p f (s ∷ t) = elim (if p s then f s else some s) [
  | none ↦ none
  | some s' ↦ elim (update_rows p f t) [ none ↦ none | some t' ↦ some (s' ∷ t') ]
]

abbrev pub Slots : Type 0 → Type 0
Slots A = Tx (List Slot) A

abbrev pub update_row : ℕ → ℕ → (Slot → Option Slot) → Slots (Unit {0})
update_row d i f t = elim (update_rows (pk_eq d i) f t) [
  | none ↦ (err integrity_error, t)
  | some t' ↦ (ok tt, t')
]

-- `by_date.get(d)` of `{row.business_date: row for row in rows}`: the later row of a date wins.
unfoldable pub by_date : List Slot → ℕ → Option Slot
by_date [] d = none
by_date (s ∷ t) d = elim (by_date t d) [
  | some r ↦ some r
  | none ↦ if s.business_date == d then some s else none
]

-- Is any date of the window without a row?
abbrev pub all_found : (ℕ → Option Slot) → List ℕ → Bool
all_found locked [] = true
all_found locked (d ∷ ds) = elim (locked d) [ none ↦ false | some _ ↦ all_found locked ds ]

abbrev pub window_rows : SlotKey → List ℕ → List Slot → List Slot
window_rows k dates = select (λ s. key_eq s.key k && elem s.business_date dates)

-- `lock_window`: the rows of the window; every date must have one.
unfoldable pub lock_window : SlotKey → List ℕ → Slots (List Slot)
lock_window k dates = do
  rows ← gets (window_rows k dates)
  raise_if (not (all_found (by_date rows) dates)) insufficient_availability
  pure rows

-- The loop `for d in business_dates: row = locked[d]; ….update(…)`.
unfoldable pub update_each :
    (Slot → Slot → Option Slot) → (ℕ → Option Slot) → List ℕ → Slots (Unit {0})
update_each f locked [] = pure tt
update_each f locked (d ∷ ds) = do
  row ← from_option key_error (locked d)
  update_row row.business_date row.id (f row)
  update_each f locked ds

unfoldable pub consume_window : SlotKey → List ℕ → ℕ → CounterField → Slots (Unit {0})
unfolding lock_window
consume_window k dates quantity field = atomic do
  locked ← lock_window k dates
  raise_if (not (all (λ row. leb quantity (remaining row)) locked)) insufficient_availability
  update_each (λ _. add_to field quantity) (by_date locked) dates

-- `actual = min(quantity, getattr(row, field))`, and `continue` where it is not positive
abbrev pub release_row : CounterField → ℕ → Slot → Slot → Option Slot
release_row field quantity row s =
    let actual = min quantity (get_field field row) in
    if leb actual 0 then some s else take_from field actual s

unfoldable pub release_window : SlotKey → List ℕ → ℕ → CounterField → Slots (Unit {0})
unfolding lock_window
release_window k dates quantity field =
    atomic do
      locked ← lock_window k dates
      update_each (release_row field quantity) (by_date locked) dates

unfoldable pub convert_reserved_to_sold : SlotKey → List ℕ → ℕ → Slots (Unit {0})
unfolding lock_window
convert_reserved_to_sold k dates quantity = atomic do
  locked ← lock_window k dates
  raise_if (not (all (λ row. leb quantity row.reserved) locked)) insufficient_availability
  update_each (λ _. convert_row quantity) (by_date locked) dates

-- The loop `for row in rows: ….update(…)`.
unfoldable pub shift_each : ℤ → List Slot → Slots (Unit {0})
shift_each delta [] = pure tt
shift_each delta (row ∷ rows) = do
  update_row row.business_date row.id (shift_out_of_service delta)
  shift_each delta rows

unfoldable pub adjust_out_of_service_window : SlotKey → ℕ → ℕ → ℤ → Slots ℕ
adjust_out_of_service_window k start_date end_date delta = atomic do
  let here = λ (s : Slot).
      key_eq s.key k && (leb start_date s.business_date && ltb s.business_date end_date)
  rows ← gets (select here)
  shift_each delta rows
  pure (length rows)
