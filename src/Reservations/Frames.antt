-- ===== src/Reservations/Frames.antt =====
-- What the operations of `ReservationService` do to the table of reservations.
use hotel_booking.Base.{
  true, ℕ, ◌≡◌, refl, not, Option, none, some, List, [], ◌∷◌, arith, ◌==◌, if◌then◌else◌, inl, inr,
  Bool-cases, Option-cases,
}
use hotel_booking.Tx.{Tx, ok, does_not_exist, ◌>>=◌, ◌>>◌, pure, raise_if, from_option}
use hotel_booking.Tx.Keeps.{Result-cases, Keeps, bind-Keeps}
use hotel_booking.Table.{get_row}
use hotel_booking.Model.{
  Db, Env, Action, Reservation, ReservationLine, ReservationStatus, ReservationTransition,
  convert_line_key, Response, Payload, Scope, InventoryOp,
}
use hotel_booking.Idempotency.{
  RecordKey, find_record, replay, first_request, create_record, complete_record,
}
use hotel_booking.Workflow.{load, can_run}
use hotel_booking.Workflow.Run.{run-ok, run-refused, logged}
use hotel_booking.DateRange.{DateRange}
use hotel_booking.Inventory.{Slot, convert_reserved_to_sold}
use hotel_booking.Availability.{
  convert_hold_to_sold, release_hold, then_nights, record_key, payload_of, nights_of,
}
use hotel_booking.Reservations.{
  reservation_target, reservation_event, reservation_entity, store_reservation, for_each,
  slot_key_of, release_line, convert_line, line_range, run_on, get_tenant_reservation,
}

pub for_each-Keeps :
    {A : Type 0} (P : Db → Type 0) (f : A → Action (Unit {0})) (xs : List A)
    → ((a : A) → Keeps P (f a))
    → Keeps P (for_each f xs)
unfolding for_each
for_each-Keeps P f [] kf = λ db p. p
for_each-Keeps P f (x ∷ xs) kf =
    bind-Keeps P (f x) (λ _. for_each f xs) (kf x) (λ _. for_each-Keeps P f xs kf)

pub release_line-reservations :
    (r : Reservation) (line : ReservationLine) (db : Db)
    → (release_line r line db).1.reservations ≡ db.reservations
unfolding release_line release_hold
release_line-reservations r line db = elim (Result-cases (line_range line)) [
  | inl (range, made) ↦ ground (arith, made)
  | inr (e, bad) ↦ ground (arith, bad)
]

keyed-reservations :
    (env : Env) (k : RecordKey) (payload : Payload) (write : Tx (List Slot) (Unit {0}))
    (r : DateRange) (db : Db)
    → (hotel_booking.Idempotency.run env k payload (then_nights write r) db).1.reservations
      ≡ db.reservations
unfolding hotel_booking.Idempotency.run replay first_request create_record complete_record
keyed-reservations env k payload write r db = elim (Option-cases (find_record k db)) [
  | inl new ↦ ground (arith, new)
  | inr (old, found) ↦ ground (arith, found)
]

pub convert_line-reservations :
    (env : Env) (r : Reservation) (line : ReservationLine) (db : Db)
    → (convert_line env r line db).1.reservations ≡ db.reservations
unfolding convert_line convert_hold_to_sold
convert_line-reservations env r line db = elim (Result-cases (line_range line)) [
  | inl (range, made) ↦ ground (
    arith,
    made,
    keyed-reservations env
        (record_key (slot_key_of r line) Scope.inventory_convert_hold_to_sold
          (convert_line_key r.id line.line_no))
        (payload_of InventoryOp.convert_hold_to_sold (slot_key_of r line) range line.quantity)
        (convert_reserved_to_sold (slot_key_of r line) (nights_of range) line.quantity) range db,
  )
  | inr (e, bad) ↦ ground (arith, bad)
]

pub get_row-id :
    (i : ℕ) (rows : List Reservation) (r : Reservation)
    → get_row (λ r. r.id) i rows ≡ some r
    → r.id ≡ i
get_row-id i [] r h = ground arith
get_row-id i (x ∷ rows) r h = ground (arith, get_row-id i rows r)

logged-reservations :
    (t : ReservationTransition) (row : Reservation) (before after : ReservationStatus) (db : Db)
    → (logged reservation_entity t none row before after db).reservations ≡ db.reservations
unfolding reservation_event
logged-reservations ReservationTransition.hold row before after db = refl
logged-reservations ReservationTransition.request_payment row before after db = refl
logged-reservations ReservationTransition.expire row before after db = refl
logged-reservations ReservationTransition.cancel row before after db = refl
logged-reservations ReservationTransition.convert row before after db = refl

-- What a transition does to the table of reservations.
pub run_on-reservations :
    (t : ReservationTransition) (r : Reservation) (db : Db)
    → let moved = record r { status = reservation_target t } in
      (run_on t r db).1.reservations ≡ (
        if can_run reservation_entity t (load reservation_entity r)
        then (store_reservation moved db).1.reservations
        else db.reservations)
run_on-reservations t r db =
    let moved = record r { status = reservation_target t } in
    elim (Bool-cases (can_run reservation_entity t (load reservation_entity r))) [
      | inr cannot ↦ ground (
        arith,
        cannot,
        run-refused reservation_entity t none (load reservation_entity r) db cannot,
      )
      | inl can ↦
          let db' = (store_reservation moved db).1 in
          let done : store_reservation moved db ≡ (ok moved, db') =
            ground (arith, Option-cases (get_row (λ r. r.id) r.id db.reservations)) in
          ground (
            arith,
            can,
            run-ok reservation_entity t none r moved db db' can done,
            logged-reservations t moved r.status (reservation_target t) db',
          )
    ]

logged-slots :
    (t : ReservationTransition) (row : Reservation) (before after : ReservationStatus) (db : Db)
    → let db' = logged reservation_entity t none row before after db in
      (db'.slots ≡ db.slots) × (db'.reservation_lines ≡ db.reservation_lines)
unfolding reservation_event
logged-slots ReservationTransition.hold row before after db = (refl, refl)
logged-slots ReservationTransition.request_payment row before after db = (refl, refl)
logged-slots ReservationTransition.expire row before after db = (refl, refl)
logged-slots ReservationTransition.cancel row before after db = (refl, refl)
logged-slots ReservationTransition.convert row before after db = (refl, refl)

-- A transition from one of its sources returns the moved row and leaves the slots and lines.
pub run_on_ok :
    (t : ReservationTransition) (r : Reservation) (db : Db)
    → can_run reservation_entity t (load reservation_entity r) ≡ true
    → ((run_on t r db).0 ≡ ok (record r { status = reservation_target t }))
      × ((run_on t r db).1.slots ≡ db.slots)
      × ((run_on t r db).1.reservation_lines ≡ db.reservation_lines)
run_on_ok t r db can =
    let moved = record r { status = reservation_target t } in
    let db' = (store_reservation moved db).1 in
    let done : store_reservation moved db ≡ (ok moved, db') =
      ground (arith, Option-cases (get_row (λ r. r.id) r.id db.reservations)) in
    let same : (db'.slots ≡ db.slots) × (db'.reservation_lines ≡ db.reservation_lines) =
      ground (arith, Option-cases (get_row (λ r. r.id) r.id db.reservations)) in
    let ran = run-ok reservation_entity t none r moved db db' can done in
    (
      ground (arith, ran),
      ground (arith, ran, same, logged-slots t moved r.status (reservation_target t) db'),
      ground (arith, ran, same, logged-slots t moved r.status (reservation_target t) db'),
    )

-- A keyed mutation keeps what the mutation keeps of the table.
pub run-reservations :
    (P : List Reservation → Type 0) (env : Env) (k : RecordKey) (payload : Payload)
    (execute : Action Response)
    → Keeps (λ db. P db.reservations) execute
    → Keeps (λ db. P db.reservations) (hotel_booking.Idempotency.run env k payload execute)
unfolding hotel_booking.Idempotency.run replay first_request create_record complete_record
run-reservations P env k payload execute keeps db p = elim (Option-cases (find_record k db)) [
  | inr (old, found) ↦ ground (arith, found, p)
  | inl new ↦
      let begun = (create_record k (env.fingerprint payload) db).1 in
      let begun_p : P begun.reservations = ground (arith, new, p) in
      let done = keeps begun begun_p in
      elim (Result-cases (execute begun).0) [
        | inl (response, fine) ↦ ground (arith, new, fine, done)
        | inr (e, failed) ↦ ground (arith, new, failed, p)
      ]
]

tenant_found :
    {A : Type 0} (tenant_id j : ℕ) (o : Option Reservation) (f : Reservation → Action A) (db : Db)
    (a : A)
    → let m =
        (from_option does_not_exist o >>= λ r.
        raise_if (not (r.tenant_id == tenant_id)) does_not_exist >> pure r)
        >>= f in
      get_row (λ r. r.id) j db.reservations ≡ o
      → (m db).0 ≡ ok a
      → (r : Reservation) × (get_row (λ r. r.id) j db.reservations ≡ some r)
        × (r.tenant_id ≡ tenant_id)
        × (m db ≡ f r db)
tenant_found tenant_id j none f db a h done = ground arith
tenant_found tenant_id j (some r) f db a h done = elim (Bool-cases (r.tenant_id == tenant_id)) [
  | inl same ↦ (r, h, ground arith, ground (arith, same))
  | inr other ↦ ground (arith, other)
]

-- What a computation on a tenant's reservation went on with, when it returned.
pub get_tenant_ok :
    {A : Type 0} (tenant_id j : ℕ) (f : Reservation → Action A) (db : Db) (a : A)
    → ((get_tenant_reservation tenant_id j >>= f) db).0 ≡ ok a
    → (r : Reservation) × (get_row (λ r. r.id) j db.reservations ≡ some r)
      × (r.tenant_id ≡ tenant_id)
      × ((get_tenant_reservation tenant_id j >>= f) db ≡ f r db)
get_tenant_ok tenant_id j f db a done =
    tenant_found tenant_id j (get_row (λ r. r.id) j db.reservations) f db a refl done
