-- ===== src/Reservations.antt =====
-- apps/reservations/models.py and apps/reservations/services.py: the lifecycle of a reservation.
-- The random `reservation_ref` is left out. `reservation.lines.all()` is read in the order of
-- insertion.
pub mod Capacity
pub mod Conservation
pub mod Convert
pub mod Created
pub mod Frames
pub mod Release
pub mod Reserve
pub mod Reserved
pub mod RoundTrip
pub mod Settled
use hotel_booking.Base.{
  ℕ, suc, ◌+◌, ◌*◌, Bool, true, false, ◌&&◌, ◌||◌, not, Option, none, some, List, [], ◌∷◌, ◌++◌,
  min, ltb, leb, ◌==◌, if◌then◌else◌, select, decide,
}
use hotel_booking.Base.{length}
use hotel_booking.Base.Int.{ℤ, pos, ◌+ℤ◌}
use hotel_booking.Money.{Money}
use hotel_booking.Pricing.{PriceBreakdown}
use hotel_booking.DateRange.{DateRange, StayPeriod, stay_period, as_date_range}
use hotel_booking.Tx.{
  Tx, Result, ok, err, does_not_exist, transition_not_allowed, integrity_error, value_error,
  key_error, pure, raise, raise_if, lift, gets, modify, from_option, atomic, ◌>>=◌, ◌>>◌,
}
use hotel_booking.Table.{get_row, put_row}
use hotel_booking.Inventory.{SlotKey, Channel}
use hotel_booking.Model.{
  Db, Env, Action, new_id, Reservation, ReservationLine, PriceSnapshot, ReservationStatus,
  ReservationStatus-discrete, ReservationTransition, EntityType, EventType, reservation_state,
  reservation_action, Key, client, line_key, convert_line_key, Response, id_response, Scope,
  Payload, cancel_payload,
}
use hotel_booking.Workflow.{Entity, Loaded, load, run}
use hotel_booking.Idempotency.{RecordKey}
use hotel_booking.Availability.{hold, convert_hold_to_sold, release_hold}

-- The `source` and `target` of the declared transitions.
unfoldable pub reservation_sources : ReservationTransition → List ReservationStatus
reservation_sources ReservationTransition.hold = ReservationStatus.draft ∷ []
reservation_sources ReservationTransition.request_payment = ReservationStatus.held ∷ []
reservation_sources ReservationTransition.expire =
    ReservationStatus.held ∷ ReservationStatus.awaiting_payment ∷ []
reservation_sources ReservationTransition.cancel =
    ReservationStatus.draft ∷ ReservationStatus.held ∷ ReservationStatus.awaiting_payment ∷ []
reservation_sources ReservationTransition.convert = ReservationStatus.awaiting_payment ∷ []

unfoldable pub reservation_target : ReservationTransition → ReservationStatus
reservation_target ReservationTransition.hold = ReservationStatus.held
reservation_target ReservationTransition.request_payment = ReservationStatus.awaiting_payment
reservation_target ReservationTransition.expire = ReservationStatus.expired
reservation_target ReservationTransition.cancel = ReservationStatus.cancelled
reservation_target ReservationTransition.convert = ReservationStatus.converted

unfoldable pub reservation_event : ReservationTransition → Option EventType
reservation_event ReservationTransition.hold = some EventType.reservation_created
reservation_event ReservationTransition.request_payment = none
reservation_event ReservationTransition.expire = some EventType.reservation_expired
reservation_event ReservationTransition.cancel = none
reservation_event ReservationTransition.convert = some EventType.reservation_converted

-- `Model.save()` of an existing instance: UPDATE, and INSERT where there is no such row.
abbrev pub store_reservation : Reservation → Action Reservation
store_reservation row db = elim (get_row (λ r. r.id) row.id db.reservations) [
  | none ↦ (ok row, record db { reservations = row ∷ db.reservations })
  | some _ ↦ (ok row, record db { reservations = put_row (λ r. r.id) row db.reservations })
]

abbrev pub status_eq : ReservationStatus → ReservationStatus → Bool
status_eq a b = decide (ReservationStatus-discrete a b)

abbrev pub reservation_entity : Entity Reservation ReservationStatus ReservationTransition
reservation_entity = record {
  entity_type = EntityType.reservation;
  id = λ r. r.id;
  tenant_id = λ r. r.tenant_id;
  state = λ r. r.status;
  set_state = λ s r. record r { status = s };
  state_eq = status_eq;
  sources = reservation_sources;
  target = reservation_target;
  event = reservation_event;
  log_state = reservation_state;
  log_action = reservation_action;
  store = store_reservation;
}

-- `reservation.status in _UNSETTLED_STATUSES`
unfoldable pub is_unsettled : ReservationStatus → Bool
is_unsettled ReservationStatus.held = true
is_unsettled ReservationStatus.awaiting_payment = true
is_unsettled _ = false

unfoldable pub for_each : {A : Type 0} → (A → Action (Unit {0})) → List A → Action (Unit {0})
for_each f [] = pure tt
for_each f (x ∷ xs) = do f x; for_each f xs

abbrev pub lines_of : ℕ → Db → List ReservationLine
lines_of i db = select (λ l. l.reservation_id == i) db.reservation_lines

abbrev pub slot_key_of : Reservation → ReservationLine → SlotKey
slot_key_of r line = record {
  tenant_id = r.tenant_id;
  property_id = r.property_id;
  room_type_id = line.room_type_id;
  channel = Channel.direct;
}

-- `StayPeriod(line.arrival_date, line.departure_date).as_date_range()`
unfoldable pub line_range : ReservationLine → Result DateRange
unfolding stay_period as_date_range
line_range line = elim (stay_period line.arrival_date line.departure_date) [
  | ok s ↦ as_date_range s
  | err e ↦ err e
]

unfoldable pub release_line : Reservation → ReservationLine → Action (Unit {0})
release_line reservation line = do
  r ← lift (line_range line)
  release_hold (slot_key_of reservation line) r line.quantity

unfoldable pub convert_line : Env → Reservation → ReservationLine → Action (Unit {0})
convert_line env reservation line = do
  r ← lift (line_range line)
  _ ←
      convert_hold_to_sold env (slot_key_of reservation line) r line.quantity
        (convert_line_key reservation.id line.line_no)
  pure tt

-- `Reservation.objects.select_for_update().get(pk=…)`
abbrev pub get_reservation : ℕ → Action Reservation
get_reservation i = do
  found ← gets (λ db. get_row (λ r. r.id) i db.reservations)
  from_option does_not_exist found

-- `.get(pk=…, tenant_id=…)`
abbrev pub get_tenant_reservation : ℕ → ℕ → Action Reservation
get_tenant_reservation tenant_id i = do
  reservation ← get_reservation i
  raise_if (not (reservation.tenant_id == tenant_id)) does_not_exist
  pure reservation

abbrev pub run_on : ReservationTransition → Reservation → Action Reservation
run_on t reservation = do
  saved ← run reservation_entity t none (load reservation_entity reservation)
  pure saved.row

-- The release of every line, then the transition.
unfoldable pub release_and_run : ReservationTransition → Reservation → Action Reservation
release_and_run t reservation = do
  lines ← gets (lines_of reservation.id)
  for_each (release_line reservation) lines
  run_on t reservation

abbrev pub expire_open : Reservation → Action Reservation
expire_open reservation =
    if is_unsettled reservation.status
    then release_and_run ReservationTransition.expire reservation
    else pure reservation

unfoldable pub expire : ℕ → Action Reservation
expire reservation_id =
    atomic do reservation ← get_reservation reservation_id; expire_open reservation

-- Has the hold passed its expiry? `hold_expiry_at < timezone.now()`
abbrev pub is_past : Option ℕ → ℕ → Bool
is_past none now = false
is_past (some expiry) now = ltb expiry now

-- `_reject_if_hold_expired`
unfoldable pub reject_if_hold_expired : Reservation → Action (Unit {0})
reject_if_hold_expired reservation = do
  now ← gets (λ db. db.now)
  raise_if (is_unsettled reservation.status && is_past reservation.hold_expiry_at now)
      transition_not_allowed

abbrev pub cancel_open : Reservation → Action Reservation
cancel_open reservation =
    if is_unsettled reservation.status
    then release_and_run ReservationTransition.cancel reservation
    else if status_eq reservation.status ReservationStatus.draft
    then run_on ReservationTransition.cancel reservation
    else pure reservation

abbrev pub cancel_response : Reservation → Action Response
cancel_response reservation = do _ ← cancel_open reservation; pure (id_response reservation.id)

unfoldable pub execute_cancel : ℕ → ℕ → Action Response
execute_cancel tenant_id reservation_id = do
  reservation ← get_tenant_reservation tenant_id reservation_id
  cancel_response reservation

-- `Reservation.objects.get(pk=response["reservation_id"])`
abbrev pub reservation_of_response : Response → Action Reservation
reservation_of_response (id_response i) = get_reservation i
reservation_of_response _ = raise key_error

unfoldable pub cancel : Env → ℕ → ℕ → Key → Action Reservation
cancel env tenant_id reservation_id idempotency_key = do
  response ←
      hotel_booking.Idempotency.run env
        (record { tenant_id = tenant_id; scope = Scope.reservation_cancel; key = idempotency_key })
        (cancel_payload reservation_id) (execute_cancel tenant_id reservation_id)
  reservation_of_response response

-- The conversion of every line, then the transition.
unfoldable pub convert_and_run : Env → Reservation → Action Reservation
convert_and_run env reservation = do
  lines ← gets (lines_of reservation.id)
  for_each (convert_line env reservation) lines
  run_on ReservationTransition.convert reservation

unfoldable pub convert_awaiting : Env → Reservation → Action Reservation
convert_awaiting env reservation = do
  reject_if_hold_expired reservation
  raise_if (not (status_eq reservation.status ReservationStatus.awaiting_payment))
      transition_not_allowed
  convert_and_run env reservation

unfoldable pub convert : Env → ℕ → ℕ → Action Reservation
convert env reservation_id tenant_id = atomic do
  reservation ← get_tenant_reservation tenant_id reservation_id
  convert_awaiting env reservation

unfoldable pub await_payment : Reservation → Action Reservation
await_payment reservation = do
  reject_if_hold_expired reservation
  run_on ReservationTransition.request_payment reservation

unfoldable pub request_payment : ℕ → ℕ → Action Reservation
request_payment reservation_id tenant_id =
    atomic
      do reservation ← get_tenant_reservation tenant_id reservation_id; await_payment reservation

-- `ReservationQuery.overdue_holds`
unfoldable pub overdue_holds : ℕ → List Reservation → List Reservation
overdue_holds cutoff = select (λ r. is_unsettled r.status && is_past r.hold_expiry_at cutoff)

abbrev pub ids_of : List Reservation → List ℕ
ids_of [] = []
ids_of (r ∷ rs) = r.id ∷ ids_of rs

abbrev pub expire_one : ℕ → Action (Unit {0})
expire_one i = do _ ← expire i; pure tt

-- apps/reservations/tasks.py, `sweep_expired_holds`: an exception of one `expire` ends the sweep.
unfoldable pub sweep_expired_holds : Action ℕ
sweep_expired_holds = do
  overdue_ids ← gets (λ db. ids_of (overdue_holds db.now db.reservations))
  for_each expire_one overdue_ids
  pure (length overdue_ids)
