-- ===== src/Availability.antt =====
-- apps/availability/services.py: the horizon of sellable dates, the reads, and the capacity
-- mutations of `InventoryService`.
pub mod Held
pub mod Horizon
pub mod Invariant
pub mod Sellable
use hotel_booking.Base.{
  ℕ, suc, ◌+◌, ◌-◌, ◌≤◌, Bool, true, false, ◌&&◌, ◌||◌, not, Option, none, some, List, [], ◌∷◌, ltb,
  leb, ◌==◌, if◌then◌else◌, select, all, elem, length, range_from, find?,
}
use hotel_booking.Base.Int.{ℤ}
use hotel_booking.DateRange.{DateRange, days}
use hotel_booking.Tx.{
  Tx, Result, ok, err, integrity_error, data_error, pure, raise, gets, from_option, atomic, ◌>>=◌,
  ◌>>◌,
}
use hotel_booking.Inventory.{
  SlotKey, Slot, CounterField, sold_field, reserved_field, remaining, key_eq, pk_eq, by_date,
  window_rows, consume_window, release_window, convert_reserved_to_sold,
  adjust_out_of_service_window,
}
use hotel_booking.Model.{
  Db, Env, Action, today, on_slots, InventoryOp, Payload, inventory_payload, Scope, inventory_sell,
  inventory_hold, inventory_convert_hold_to_sold, Key, Response, window_response,
}
use hotel_booking.Idempotency.{RecordKey, run}

abbrev pub dates_of : List Slot → List ℕ
dates_of [] = []
dates_of (s ∷ t) = s.business_date ∷ dates_of t

abbrev pub fresh_slot : SlotKey → ℕ → ℕ → ℕ → Slot
fresh_slot k total_units i d = record {
  key = k;
  business_date = d;
  id = i;
  total_units = total_units;
  sold = 0;
  reserved = 0;
  blocked = 0;
  out_of_service = 0;
}

-- Does a row break the primary key or the unique constraint against the table?
unfoldable pub conflicts : Slot → List Slot → Bool
conflicts s [] = false
conflicts s (r ∷ t) =
    (key_eq r.key s.key && r.business_date == s.business_date)
    || (pk_eq s.business_date s.id r || conflicts s t)

-- Does a count fit a column of the type `integer`?
unfoldable pub fits_integer : ℕ → Bool
fits_integer n = leb n 2147483647

-- `bulk_create` of one row for each date, with ids from the sequence. A count that the column cannot
-- hold is a DataError; a date without a partition violates the partition constraint.
unfoldable pub create_slots : (ℕ → Bool) → SlotKey → ℕ → ℕ → List ℕ → List Slot → Result (List Slot)
create_slots has_partition k total_units i [] t = ok t
create_slots has_partition k total_units i (d ∷ ds) t =
    let s = fresh_slot k total_units i d in
    let rest = create_slots has_partition k total_units (suc i) ds (s ∷ t) in
    if not (fits_integer total_units)
    then err data_error
    else if not (has_partition d) || conflicts s t
    then err integrity_error
    else rest

-- `[d for d in wanted_dates if d not in existing_dates]`
abbrev pub missing_dates : SlotKey → List ℕ → List Slot → List ℕ
missing_dates k wanted t =
    let existing = dates_of (window_rows k wanted t) in select (λ d. not (elem d existing)) wanted

unfoldable pub get_or : Option ℕ → ℕ → ℕ
get_or none d = d
get_or (some a) _ = a

unfoldable pub open_horizon : Env → SlotKey → ℕ → List ℕ → Action ℕ
open_horizon env k total_units wanted db =
    let missing = missing_dates k wanted db.slots in
    if length missing == 0
    then (ok 0, db)
    else elim (create_slots env.has_partition k total_units db.next_id missing db.slots) [
      | err e ↦ (err e, db)
      | ok t ↦ (ok (length missing), record db { slots = t; next_id = db.next_id + length missing })
    ]

unfoldable pub initialize_horizon : Env → SlotKey → ℕ → Option ℕ → Option ℕ → Action ℕ
initialize_horizon env k total_units start_date horizon_days db =
    let start = get_or start_date (today db) in
    let horizon = get_or horizon_days env.availability_horizon_days in
    open_horizon env k total_units (range_from start horizon) db

-- The rows of a key in a range, as (date, remaining) pairs: `dict(rows)`.
abbrev pub remaining_rows : SlotKey → DateRange → List Slot → List Slot
remaining_rows k r =
    select (λ s. key_eq s.key k && (leb r.start s.business_date && ltb s.business_date r.end))

unfoldable pub remaining_for_range : SlotKey → DateRange → List Slot → ℕ → Option ℕ
remaining_for_range k r t d = elim (by_date (remaining_rows k r t) d) [
  | none ↦ none
  | some s ↦ some (remaining s)
]

-- `InventoryService._nights`
abbrev pub nights_of : DateRange → List ℕ
nights_of r = range_from r.start (r.end - r.start)

-- `remaining.get(night, 0) >= quantity` for every night
unfoldable pub is_sellable : SlotKey → DateRange → ℕ → List Slot → Bool
is_sellable k r quantity t =
    let remaining_units = remaining_for_range k r t in
    all (λ night. leb quantity (get_or (remaining_units night) 0)) (nights_of r)

unfoldable pub max_date : SlotKey → List Slot → Option ℕ
max_date k [] = none
max_date k (s ∷ t) =
    let rest = max_date k t in
    if key_eq s.key k
    then elim rest [
      | none ↦ some s.business_date
      | some m ↦ some (if ltb m s.business_date then s.business_date else m)
    ]
    else rest

abbrev pub payload_of : InventoryOp → SlotKey → DateRange → ℕ → Payload
payload_of op k r quantity =
    inventory_payload op k.property_id k.room_type_id k.channel r.start r.end quantity

abbrev pub record_key : SlotKey → Scope → Key → RecordKey
record_key k scope key = record { tenant_id = k.tenant_id; scope = scope; key = key }

-- `return {…, "nights": len(nights)}` after the write
abbrev pub then_nights : Tx (List Slot) (Unit {0}) → DateRange → Action Response
then_nights write r = do on_slots write; pure (window_response (length (nights_of r)))

unfoldable pub sell : Env → SlotKey → DateRange → ℕ → Key → Action Response
sell env k r quantity key =
    run env (record_key k inventory_sell key) (payload_of InventoryOp.sell k r quantity)
      (then_nights (consume_window k (nights_of r) quantity sold_field) r)

unfoldable pub hold : Env → SlotKey → DateRange → ℕ → Key → Action Response
hold env k r quantity key =
    run env (record_key k inventory_hold key) (payload_of InventoryOp.hold k r quantity)
      (then_nights (consume_window k (nights_of r) quantity reserved_field) r)

unfoldable pub convert_hold_to_sold : Env → SlotKey → DateRange → ℕ → Key → Action Response
convert_hold_to_sold env k r quantity key =
    run env (record_key k inventory_convert_hold_to_sold key)
      (payload_of InventoryOp.convert_hold_to_sold k r quantity)
      (then_nights (convert_reserved_to_sold k (nights_of r) quantity) r)

unfoldable pub release_hold : SlotKey → DateRange → ℕ → Action (Unit {0})
release_hold k r quantity = on_slots (release_window k (nights_of r) quantity reserved_field)

unfoldable pub release_sold : SlotKey → DateRange → ℕ → Action (Unit {0})
release_sold k r quantity = on_slots (release_window k (nights_of r) quantity sold_field)

unfoldable pub adjust_out_of_service : SlotKey → ℕ → ℕ → ℤ → Action ℕ
adjust_out_of_service k start_date end_date delta =
    on_slots (adjust_out_of_service_window k start_date end_date delta)
