-- ===== src/Bookings.antt =====
-- apps/bookings/models.py and apps/bookings/services.py: a converted reservation becomes a booking,
-- with one line for each unit. The random `booking_ref` and the guest's snapshot are left out.
pub mod FanOut
pub mod Confirmed
use hotel_booking.Base.{
  ℕ, zero, suc, ◌+◌, Bool, true, false, ◌&&◌, ◌||◌, not, Option, none, some, List, [], ◌∷◌, ◌++◌,
  min, ltb, leb, ◌==◌, if◌then◌else◌, length, select, decide, option_eq,
}
use hotel_booking.Base.Int.{ℤ, pos, ltb_ℤ}
use hotel_booking.Tx.{
  ok, err, integrity_error, value_error, key_error, does_not_exist, pure, raise, raise_if, gets,
  modify, from_option, ◌>>=◌, ◌>>◌,
}
use hotel_booking.Table.{get_row, put_row}
use hotel_booking.Model.{
  Db, Env, Action, new_id, Reservation, ReservationLine, Booking, BookingLine, BookingStatus,
  BookingStatus-discrete, BookingTransition, EntityType, EventType, booking_state, booking_action,
  Key, Response, id_response, Scope, confirm_payload,
}
use hotel_booking.Workflow.{Entity, load, run}
use hotel_booking.Reservations.{lines_of, convert}

-- `Model.save()` of an existing instance: UPDATE, and INSERT where there is no such row.
abbrev pub store_booking : Booking → Action Booking
store_booking row db = elim (get_row (λ b. b.id) row.id db.bookings) [
  | none ↦ (ok row, record db { bookings = row ∷ db.bookings })
  | some _ ↦ (ok row, record db { bookings = put_row (λ b. b.id) row db.bookings })
]

abbrev pub booking_entity : Entity Booking BookingStatus BookingTransition
booking_entity = record {
  entity_type = EntityType.booking;
  id = λ b. b.id;
  tenant_id = λ b. b.tenant_id;
  state = λ b. b.aggregate_status;
  set_state = λ s b. record b { aggregate_status = s };
  state_eq = λ a b. decide (BookingStatus-discrete a b);
  sources = λ _. BookingStatus.pending_payment ∷ [];
  target = λ _. BookingStatus.confirmed;
  event = λ _. some EventType.booking_confirmed;
  log_state = booking_state;
  log_action = booking_action;
  store = store_booking;
}

-- `min(line.arrival_date …)` and `max(line.departure_date …)`
unfoldable pub first_arrival : ReservationLine → List ReservationLine → ℕ
first_arrival line [] = line.arrival_date
first_arrival line (next ∷ lines) = min line.arrival_date (first_arrival next lines)

unfoldable pub last_departure : ReservationLine → List ReservationLine → ℕ
last_departure line [] = line.departure_date
last_departure line (next ∷ lines) =
    let rest = last_departure next lines in
    if ltb line.departure_date rest then rest else line.departure_date

-- Is there a booking of the reservation? (`booking_uq_reservation`)
unfoldable pub is_booked : ℕ → List Booking → Bool
is_booked reservation_id [] = false
is_booked reservation_id (b ∷ bs) =
    option_eq b.reservation_id (some reservation_id) || is_booked reservation_id bs

-- `Booking.objects.create(…)` under the unique reservation and the CHECKs on the total and the dates
unfoldable pub create_booking : Reservation → ℕ → ℕ → Action Booking
create_booking reservation arrival_date departure_date = do
  i ← new_id
  let row : Booking = record {
    id = i;
    tenant_id = reservation.tenant_id;
    property_id = reservation.property_id;
    reservation_id = some reservation.id;
    guest_profile = reservation.guest_profile;
    aggregate_status = BookingStatus.pending_payment;
    currency = reservation.price_snapshot.currency;
    total_minor_units = reservation.price_snapshot.total_minor_units;
    arrival_date = arrival_date;
    departure_date = departure_date;
    price_snapshot = reservation.price_snapshot;
    policy_snapshot = reservation.policy_snapshot;
  }
  booked ← gets (λ db. is_booked reservation.id db.bookings)
  raise_if (booked || (ltb_ℤ row.total_minor_units (pos 0) || leb departure_date arrival_date))
      integrity_error
  modify λ db. record db { bookings = row ∷ db.bookings }
  pure row

-- The body of the inner loop: one line, numbered after the last.
abbrev pub unit_line : ℕ → ℕ → ℕ → ReservationLine → BookingLine
unit_line booking_id i line_no line = record {
  id = i;
  booking_id = booking_id;
  line_no = line_no;
  room_type_id = line.room_type_id;
  room_id = none;
  arrival_date = line.arrival_date;
  departure_date = line.departure_date;
  status = BookingStatus.confirmed;
  price_snapshot = line.price_snapshot;
}

-- `for _ in range(reservation_line.quantity): line_no += 1; …`; `i` is the id that the sequence
-- gives to the next line, `line_no` the number of the last one.
unfoldable pub unit_lines : ℕ → ℕ → ℕ → ReservationLine → ℕ → List BookingLine
unit_lines booking_id i line_no line zero = []
unit_lines booking_id i line_no line (suc n) =
    unit_line booking_id i (suc line_no) line ∷ unit_lines booking_id (suc i) (suc line_no) line n

-- `for reservation_line in reservation_lines: …`
unfoldable pub fan_out : ℕ → ℕ → ℕ → List ReservationLine → List BookingLine
fan_out booking_id i line_no [] = []
fan_out booking_id i line_no (line ∷ lines) =
    unit_lines booking_id i line_no line line.quantity
    ++ fan_out booking_id (i + line.quantity) (line_no + line.quantity) lines

-- `BookingLine.objects.bulk_create(booking_lines)`
unfoldable pub create_booking_lines : ℕ → List ReservationLine → Action (Unit {0})
create_booking_lines booking_id lines = modify λ db.
    let made = fan_out booking_id db.next_id 0 lines in
    record db { next_id = db.next_id + length made; booking_lines = db.booking_lines ++ made }

unfoldable pub confirm_lines : Reservation → List ReservationLine → Action Response
confirm_lines reservation [] = raise value_error
confirm_lines reservation (line ∷ lines) = do
  booking ← create_booking reservation (first_arrival line lines) (last_departure line lines)
  create_booking_lines booking.id (line ∷ lines)
  _ ← run booking_entity BookingTransition.confirm none (load booking_entity booking)
  pure (id_response booking.id)

unfoldable pub execute_confirm : Env → ℕ → ℕ → Action Response
execute_confirm env tenant_id reservation_id = do
  reservation ← convert env reservation_id tenant_id
  reservation_lines ← gets (lines_of reservation.id)
  confirm_lines reservation reservation_lines

-- `Booking.objects.get(pk=response["booking_id"])`
abbrev pub booking_of_response : Response → Action Booking
booking_of_response (id_response i) = do
  found ← gets (λ db. get_row (λ b. b.id) i db.bookings)
  from_option does_not_exist found
booking_of_response _ = raise key_error

-- `BookingService.confirm`
unfoldable pub confirm : Env → ℕ → ℕ → Key → Action Booking
confirm env tenant_id reservation_id idempotency_key = do
  response ←
      hotel_booking.Idempotency.run env
        (record { tenant_id = tenant_id; scope = Scope.booking_confirm; key = idempotency_key })
        (confirm_payload reservation_id) (execute_confirm env tenant_id reservation_id)
  booking_of_response response
