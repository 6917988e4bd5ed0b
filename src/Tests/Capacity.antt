-- ===== src/Tests/Capacity.antt =====
-- Runs of the inventory.
use hotel_booking.Base.{
  ℕ, ◌≤◌, ◌≡◌, refl, true, false, ◌&&◌, none, some, List, [], ◌∷◌, arith, elem, length, leb, ltb,
  all, select, if◌then◌else◌,
}
use mathlib.Core.Option
use hotel_booking.Base.Int.{pos}
use hotel_booking.DateRange.{DateRange}
use hotel_booking.Tx.{ok, err, integrity_error, data_error, insufficient_availability}
use hotel_booking.Inventory.{
  SlotKey, Slot, key_eq, used, remaining, sold_field, reserved_field, consume_window,
  release_window, convert_reserved_to_sold, adjust_out_of_service_window,
}
use hotel_booking.Inventory.View.{view, IsValid}
use hotel_booking.Inventory.Writes.{
  Writes, all_hold, add_field, drop_field, convert_field, consume_window-Writes,
  release_window-Writes, convert_reserved_to_sold-Writes,
}
use hotel_booking.Inventory.OutOfService.{
  in_window, shifts, shifted, adjust_out_of_service_window_lem,
}
use hotel_booking.Inventory.Roundtrip.{release_window-consume_window, convert-consume_window}
use hotel_booking.Model.{empty_db, client, window_response}
use hotel_booking.Availability.{
  fits_integer, missing_dates, open_horizon, create_slots, conflicts, get_or, initialize_horizon,
  hold, is_sellable, nights_of,
}
use hotel_booking.Availability.Sellable.{hold-is_sellable}
use hotel_booking.Availability.Horizon.{
  IdsBelow, accepts, wanted_dates, Initialized, initialize_horizon_lem,
  initialize_horizon-initialize_horizon,
}
use hotel_booking.Availability.Invariant.{
  Request, initialize, hold_request, convert_request, sell_request, release_sold_request,
  adjust_request, perform_all, perform_all-within_total,
}
use hotel_booking.Tests.{env, king, two_nights, slot_db}

two_nights-IsValid : IsValid two_nights
unfolding view hotel_booking.Inventory.View.pk_free key_eq
two_nights-IsValid = (ground arith, refl, refl, (ground arith, refl, refl, tt))

abbrev dates : List ℕ
dates = 100 ∷ 101 ∷ []

abbrev stay : DateRange
stay = record { start = 100; end = 102 }

fits_three : all_hold (λ r. leb 3 (remaining r)) king dates two_nights ≡ true
unfolding view key_eq
fits_three = refl

consume_window-Writes_example :
    Writes
      (λ r. leb 2 (remaining r))
      (add_field sold_field 2)
      king
      dates
      two_nights
      (consume_window king dates 2 sold_field two_nights)
consume_window-Writes_example =
    consume_window-Writes king dates 2 sold_field two_nights two_nights-IsValid (refl, (refl, tt))

release_window-Writes_example :
    Writes
      (λ r. true)
      (drop_field reserved_field 2)
      king
      dates
      two_nights
      (release_window king dates 2 reserved_field two_nights)
release_window-Writes_example =
    release_window-Writes king dates 2 reserved_field two_nights two_nights-IsValid
      (refl, (refl, tt))

convert_reserved_to_sold-Writes_example :
    Writes
      (λ r. leb 1 r.reserved)
      (convert_field 1)
      king
      dates
      two_nights
      (convert_reserved_to_sold king dates 1 two_nights)
convert_reserved_to_sold-Writes_example =
    convert_reserved_to_sold-Writes king dates 1 two_nights two_nights-IsValid (refl, (refl, tt))

adjust_out_of_service_window_example :
    let rows = select (in_window king 100 102) two_nights in
    let out = adjust_out_of_service_window king 100 102 (pos 4) two_nights in
    (all (shifts (pos 4)) rows ≡ true
      → (out.0 ≡ ok (length rows))
        × IsValid out.1
        × ((k' : SlotKey) (d : ℕ)
            → view k' d out.1 ≡ (
                if key_eq king k' && (leb 100 d && ltb d 102)
                then Option.map (shifted (pos 4)) (view k' d two_nights)
                else view k' d two_nights)))
    × (all (shifts (pos 4)) rows ≡ false → out ≡ (err integrity_error, two_nights))
adjust_out_of_service_window_example =
    adjust_out_of_service_window_lem king 100 102 (pos 4) two_nights two_nights-IsValid

release_window-consume_window_example :
    let out =
      release_window king dates 3 reserved_field
        (consume_window king dates 3 reserved_field two_nights).1 in
    (out.0 ≡ ok tt) × ((k' : SlotKey) (d : ℕ) → view k' d out.1 ≡ view k' d two_nights)
release_window-consume_window_example =
    release_window-consume_window king dates 3 two_nights two_nights-IsValid (refl, (refl, tt))
      fits_three

convert-consume_window_example :
    let out =
      convert_reserved_to_sold king dates 3
        (consume_window king dates 3 reserved_field two_nights).1 in
    (out.0 ≡ ok tt)
    × ((k' : SlotKey) (d : ℕ)
        → view k' d out.1 ≡ view k' d (consume_window king dates 3 sold_field two_nights).1)
convert-consume_window_example =
    convert-consume_window king dates 3 two_nights two_nights-IsValid (refl, (refl, tt)) fits_three

hold-is_sellable_example :
    let out = hold env king stay 3 (client 8) slot_db in
    (is_sellable king stay 3 two_nights ≡ true
      → (out.0 ≡ ok (window_response (length (nights_of stay))))
        × IsValid out.1.slots
        × ((k' : SlotKey) (d : ℕ)
            → view k' d out.1.slots ≡ (
                if key_eq king k' && elem d (nights_of stay)
                then Option.map (add_field reserved_field 3) (view k' d two_nights)
                else view k' d two_nights)))
    × (is_sellable king stay 3 two_nights ≡ false → out ≡ (err insufficient_availability, slot_db))
hold-is_sellable_example =
    hold-is_sellable env king stay 3 (client 8) slot_db two_nights-IsValid (ground arith) refl

initialize_horizon_example :
    let (r, db') = initialize_horizon env king 10 (some 101) none slot_db in
    let missing = missing_dates king (wanted_dates env (some 101) none slot_db) two_nights in
    (accepts env 10 missing ≡ true → Initialized env king 10 (some 101) none slot_db r db')
    × (accepts env 10 missing ≡ false
        → (r ≡ err (if fits_integer 10 then integrity_error else data_error)) × (db' ≡ slot_db))
initialize_horizon_example =
    initialize_horizon_lem env king 10 (some 101) none slot_db two_nights-IsValid
      (ground arith, (ground arith, tt))

two_more : (initialize_horizon env king 10 (some 101) none slot_db).0 ≡ ok 2
unfolding initialize_horizon open_horizon fits_integer create_slots conflicts get_or key_eq
two_more = refl

initialize_horizon-initialize_horizon_example :
    let (_, db') = initialize_horizon env king 10 (some 101) none slot_db in
    initialize_horizon env king 12 (some 101) none db' ≡ (ok 0, db')
initialize_horizon-initialize_horizon_example =
    initialize_horizon-initialize_horizon env king 10 12 (some 101) none slot_db 2
      two_nights-IsValid (ground arith, (ground arith, tt)) two_more

-- The date 1000 has no partition, and a column holds no 2147483648.
horizon_without_partition :
    initialize_horizon env king 10 (some 999) none slot_db ≡ (err integrity_error, slot_db)
unfolding initialize_horizon open_horizon fits_integer create_slots conflicts get_or key_eq
horizon_without_partition = refl

horizon_out_of_range :
    initialize_horizon env king 2147483648 (some 101) none slot_db ≡ (err data_error, slot_db)
unfolding initialize_horizon open_horizon fits_integer create_slots conflicts get_or key_eq
horizon_out_of_range = refl

-- Three nights of 10 units; the second hold of 8 finds too few.
abbrev requests : List Request
requests =
    initialize king 10 (some 100) none
    ∷ hold_request king stay 8 (client 1)
    ∷ hold_request king stay 8 (client 2)
    ∷ convert_request king stay 8 (client 3)
    ∷ adjust_request king 100 102 (pos 2)
    ∷ sell_request king stay 1 (client 4)
    ∷ release_sold_request king stay 3
    ∷ []

perform_all-within_total_example :
    let db' = perform_all env requests empty_db in
    IsValid db'.slots
    × IdsBelow db'.next_id db'.slots
    × ((k : SlotKey) (d : ℕ) (s : Slot) → view k d db'.slots ≡ some s → used s ≤ s.total_units)
perform_all-within_total_example = perform_all-within_total env requests empty_db refl
