-- ===== src/Tests/Stays.antt =====
-- Runs of the services of reservations and bookings.
use hotel_booking.Base.{
  ℕ, ◌≡◌, ◌≢◌, refl, true, false, Bool, none, some, List, [], ◌∷◌, arith, ◌==◌, if◌then◌else◌, All,
  range_from,
}
use hotel_booking.Base.Int.{pos}
use hotel_booking.Tx.{Error, ok, err, pure}
use hotel_booking.Table.{get_row, put_row}
use hotel_booking.Money.{Money}
use hotel_booking.Pricing.{PriceBreakdown}
use hotel_booking.Model.{
  BookingStatus-discrete, Db, Action, empty_db, Room, OperationalState, RoomTransition, Reservation,
  ReservationLine, ReservationStatus, Response, id_response, client, cancel_payload, Scope,
  PriceSnapshot,
}
use hotel_booking.Idempotency.{RecordKey, find_record}
use hotel_booking.Idempotency
use hotel_booking.Workflow.{load, can_run, guarded_save, run, among, record_event, record_audit}
use hotel_booking.Inventory.{SlotKey}
use hotel_booking.Inventory.View.{view, IsValid}
use hotel_booking.Reservations.{convert, expire, cancel, is_past}
use hotel_booking.Reservations.Reserve.{ReservationLineRequest, Services, reserve}
use hotel_booking.Reservations.RoundTrip.{expire-reserve, cancel-reserve}
use hotel_booking.Reservations.Convert.{convert_lem}
use hotel_booking.Reservations.Settled.{
  Call, expire_call, cancel_call, convert_call, request_payment_call, after_calls, is_settled,
  after_calls-settled,
}
use hotel_booking.Bookings.{
  confirm_lines, create_booking, first_arrival, last_departure, is_booked, create_booking_lines,
  fan_out, unit_lines,
}
use hotel_booking.Bookings.Confirmed.{FansOut, confirm_lines-FansOut}
use hotel_booking.Tests.{env, slot_db, two_nights}

abbrev money : Money
money = record { amount = pos 30000; currency = 1 }

abbrev quote : PriceBreakdown
quote = record {
  nightly = [];
  subtotal = money;
  total = money;
  stay_adjustments = [];
  floor_minor_units = none;
  ceiling_minor_units = none;
}

abbrev reservation_9 : Reservation
reservation_9 = record {
  id = 9;
  tenant_id = 1;
  property_id = 2;
  guest_profile = none;
  status = ReservationStatus.awaiting_payment;
  hold_expiry_at = some 900;
  price_snapshot = record { currency = 1; total_minor_units = pos 30000; lines = quote ∷ [] };
  policy_snapshot = 4;
}

abbrev line_of : ℕ → ℕ → ReservationLine
line_of line_no quantity = record {
  reservation_id = 9;
  line_no = line_no;
  room_type_id = 3;
  arrival_date = 100;
  departure_date = 102;
  quantity = quantity;
  price_snapshot = quote;
}

abbrev lines : List ReservationLine
lines = line_of 1 1 ∷ line_of 2 2 ∷ []

abbrev reservations_db : Db
reservations_db = record slot_db {
  now = 600;
  reservations =
      reservation_9 ∷ record reservation_9 { id = 8; status = ReservationStatus.expired } ∷ [];
  reservation_lines = line_of 1 1 ∷ [];
}

convert_lem_example :
    let out = convert env 9 1 reservations_db in
    ((e : Error) → out.0 ≡ err e → out.1 ≡ reservations_db)
    × ((r' : Reservation)
        → out.0 ≡ ok r'
        → (r : Reservation) × (get_row (λ x. x.id) 9 reservations_db.reservations ≡ some r)
          × (r.tenant_id ≡ 1)
          × (r.status ≡ ReservationStatus.awaiting_payment)
          × (is_past r.hold_expiry_at 600 ≡ false)
          × (get_row (λ x. x.id) 9 out.1.reservations
              ≡ some (record r { status = ReservationStatus.converted })))
convert_lem_example = convert_lem env 9 1 reservations_db

abbrev calls : List Call
calls =
    expire_call 8
    ∷ request_payment_call 8 1
    ∷ convert_call 9 1
    ∷ cancel_call 1 8 (client 6)
    ∷ cancel_call 1 9 (client 7)
    ∷ []

after_calls-settled_example :
    get_row (λ x. x.id) 8 (after_calls env calls reservations_db).reservations
    ≡ some (record reservation_9 { id = 8; status = ReservationStatus.expired })
unfolding is_settled
after_calls-settled_example =
    after_calls-settled env calls
      (record reservation_9 { id = 8; status = ReservationStatus.expired }) reservations_db refl
      refl

abbrev converted_9 : Reservation
converted_9 = record reservation_9 { status = ReservationStatus.converted }

confirms : (confirm_lines converted_9 lines reservations_db).0 ≡ ok (id_response 3)
unfolding confirm_lines create_booking first_arrival last_departure is_booked create_booking_lines
    fan_out unit_lines run guarded_save among record_event record_audit BookingStatus-discrete
confirms = refl

confirm_lines-FansOut_example :
    (booking_id : ℕ) × (id_response 3 ≡ id_response booking_id)
    × FansOut booking_id lines [] (confirm_lines converted_9 lines reservations_db).1.booking_lines
confirm_lines-FansOut_example =
    confirm_lines-FansOut converted_9 lines reservations_db (id_response 3) confirms

abbrev ready_services : Services
ready_services = record {
  resolve_guest = pure none;
  quote = λ _. ok quote;
  deposit_policy = λ _. ok 4;
}

abbrev king_line : ReservationLineRequest
king_line = record {
  room_type_id = 3;
  stay_period = record { arrival = 100; departure = 102 };
  adults = 2;
  children = 0;
  infants = 0;
  quantity = 2;
}

abbrev reserved_3 : Reservation
reserved_3 = record {
  id = 3;
  tenant_id = 1;
  property_id = 2;
  guest_profile = none;
  status = ReservationStatus.held;
  hold_expiry_at = some 900;
  price_snapshot = record {
    currency = 1;
    total_minor_units = pos 60000;
    lines = quote ∷ quote ∷ [];
  };
  policy_snapshot = 4;
}

abbrev king_lines : List ReservationLineRequest
king_lines = record king_line { quantity = 1 } ∷ []

slots-IsValid : IsValid two_nights
unfolding view hotel_booking.Inventory.View.pk_free hotel_booking.Inventory.key_eq
slots-IsValid = (ground arith, refl, refl, (ground arith, refl, refl, tt))

reserved_3_ok :
    (reserve env ready_services
      (cancel_payload 0)
      1
      2
      (king_line ∷ king_lines)
      (client 5)
      none
      slot_db).0
    ≡ ok reserved_3
unfolding reserve hotel_booking.Idempotency.run hotel_booking.Idempotency.first_request
    hotel_booking.Idempotency.create_record hotel_booking.Idempotency.complete_record
    hotel_booking.Idempotency.key_eq hotel_booking.Idempotency.matches
    hotel_booking.Idempotency.replay hotel_booking.Reservations.Reserve.execute_reserve
    hotel_booking.Reservations.Reserve.ask hotel_booking.Reservations.Reserve.quote_all
    hotel_booking.Reservations.Reserve.reserve_quoted
    hotel_booking.Reservations.Reserve.create_reservation
    hotel_booking.Reservations.Reserve.get_minutes
    hotel_booking.Reservations.Reserve.hold_reservation
    hotel_booking.Reservations.Reserve.create_lines hotel_booking.Reservations.Reserve.create_line
    hotel_booking.Reservations.Reserve.hold_lines hotel_booking.Reservations.Reserve.hold_line
    hotel_booking.Reservations.Reserve.breakdowns
    hotel_booking.Reservations.Reserve.earliest_arrival hotel_booking.Reservations.Reserve.total_of
    hotel_booking.DateRange.as_date_range hotel_booking.Availability.hold
    hotel_booking.Base.Int.◌+ℤ◌ hotel_booking.DateRange.date_range hotel_booking.Inventory.by_date
    hotel_booking.Inventory.consume_window hotel_booking.Inventory.key_eq
    hotel_booking.Inventory.lock_window hotel_booking.Inventory.update_each
    hotel_booking.Inventory.update_rows hotel_booking.Model.Scope-discrete
    hotel_booking.Model.ReservationStatus-discrete hotel_booking.Reservations.reservation_event
    hotel_booking.Reservations.reservation_sources hotel_booking.Reservations.reservation_target
    put_row hotel_booking.Workflow.among guarded_save hotel_booking.Workflow.record_audit
    hotel_booking.Workflow.record_event run
reserved_3_ok = refl

expire-reserve_example :
    let made =
      reserve env ready_services
        (cancel_payload 0)
        1
        2
        (king_line ∷ king_lines)
        (client 5)
        none
        slot_db in
    let out = expire 3 made.1 in
    (out.0 ≡ ok (record reserved_3 { status = ReservationStatus.expired }))
    × ((k : SlotKey) (d : ℕ) → view k d out.1.slots ≡ view k d two_nights)
expire-reserve_example =
    expire-reserve env ready_services (cancel_payload 0) 1 2 king_line king_lines (client 5) none
      slot_db reserved_3 (λ d. refl) slots-IsValid refl (λ m k e. refl) refl reserved_3_ok

no_cancel_5 :
    find_record
      (record { tenant_id = 1; scope = Scope.reservation_cancel; key = client 5 })
      (reserve env ready_services
        (cancel_payload 0)
        1
        2
        (king_line ∷ king_lines)
        (client 5)
        none
        slot_db).1
    ≡ none
unfolding reserve hotel_booking.Idempotency.run hotel_booking.Idempotency.first_request
    hotel_booking.Idempotency.create_record hotel_booking.Idempotency.complete_record
    hotel_booking.Idempotency.key_eq hotel_booking.Idempotency.matches
    hotel_booking.Idempotency.replay hotel_booking.Reservations.Reserve.execute_reserve
    hotel_booking.Reservations.Reserve.ask hotel_booking.Reservations.Reserve.quote_all
    hotel_booking.Reservations.Reserve.reserve_quoted
    hotel_booking.Reservations.Reserve.create_reservation
    hotel_booking.Reservations.Reserve.get_minutes
    hotel_booking.Reservations.Reserve.hold_reservation
    hotel_booking.Reservations.Reserve.create_lines hotel_booking.Reservations.Reserve.create_line
    hotel_booking.Reservations.Reserve.hold_lines hotel_booking.Reservations.Reserve.hold_line
    hotel_booking.Reservations.Reserve.breakdowns
    hotel_booking.Reservations.Reserve.earliest_arrival hotel_booking.Reservations.Reserve.total_of
    hotel_booking.DateRange.as_date_range hotel_booking.Availability.hold
    hotel_booking.Base.Int.◌+ℤ◌ hotel_booking.DateRange.date_range hotel_booking.Inventory.by_date
    hotel_booking.Inventory.consume_window hotel_booking.Inventory.key_eq
    hotel_booking.Inventory.lock_window hotel_booking.Inventory.update_each
    hotel_booking.Inventory.update_rows hotel_booking.Model.Scope-discrete
    hotel_booking.Model.ReservationStatus-discrete hotel_booking.Reservations.reservation_event
    hotel_booking.Reservations.reservation_sources hotel_booking.Reservations.reservation_target
    put_row hotel_booking.Workflow.among guarded_save hotel_booking.Workflow.record_audit
    hotel_booking.Workflow.record_event run
no_cancel_5 = refl

cancel-reserve_example :
    let made =
      reserve env ready_services
        (cancel_payload 0)
        1
        2
        (king_line ∷ king_lines)
        (client 5)
        none
        slot_db in
    let out = hotel_booking.Reservations.cancel env 1 3 (client 5) made.1 in
    (out.0 ≡ ok (record reserved_3 { status = ReservationStatus.cancelled }))
    × ((k : SlotKey) (d : ℕ) → view k d out.1.slots ≡ view k d two_nights)
cancel-reserve_example =
    cancel-reserve env ready_services (cancel_payload 0) 1 2 king_line king_lines (client 5)
      (client 5) none slot_db reserved_3 (λ d. refl) slots-IsValid refl (λ m k e. refl) refl
      reserved_3_ok no_cancel_5
