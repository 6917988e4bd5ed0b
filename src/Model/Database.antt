-- ===== src/Model/Database.antt =====
-- The database: its tables, the sequence that gives new rows their id, and the clock.
use hotel_booking.Base.{ℕ, suc, ◌+◌, ◌/◌, List, [], Bool}
use hotel_booking.Tx.{Tx, ok}
use hotel_booking.Inventory.{Slot}
use hotel_booking.Model.Rows.{
  Room, RoomStateEvent, Reservation, ReservationLine, Booking, BookingLine, AllocationRecord,
  HousekeepingTask, Inspection, Policy, PolicyEvaluationLog, OutboxEvent, DomainEvent, AuditLog,
  IdempotencyRecord, Payload,
}

pub record Db : Type 0 where
  pub now : ℕ
  pub next_id : ℕ
  pub slots : List Slot
  pub rooms : List Room
  pub room_state_events : List RoomStateEvent
  pub reservations : List Reservation
  pub reservation_lines : List ReservationLine
  pub bookings : List Booking
  pub booking_lines : List BookingLine
  pub allocation_records : List AllocationRecord
  pub housekeeping_tasks : List HousekeepingTask
  pub inspections : List Inspection
  pub policies : List Policy
  pub policy_evaluation_log : List PolicyEvaluationLog
  pub outbox : List OutboxEvent
  pub domain_events : List DomainEvent
  pub audit : List AuditLog
  pub idempotency : List IdempotencyRecord

abbrev pub empty_db : Db
empty_db = record {
  now = 0;
  next_id = 1;
  slots = [];
  rooms = [];
  room_state_events = [];
  reservations = [];
  reservation_lines = [];
  bookings = [];
  booking_lines = [];
  allocation_records = [];
  housekeeping_tasks = [];
  inspections = [];
  policies = [];
  policy_evaluation_log = [];
  outbox = [];
  domain_events = [];
  audit = [];
  idempotency = [];
}

-- `timezone.now().date()`: the Unix epoch is the ordinal 719163
abbrev pub today : Db → ℕ
today db = 719163 + db.now / 86400

-- What the deployment fixes: the hash of a payload (sha256 of its canonical JSON, as a number) and
-- the settings. `has_partition` tells for which dates the table `availability_slot` has a partition.
pub record Env : Type 0 where
  pub fingerprint : Payload → ℕ
  pub reservation_hold_minutes : ℕ
  pub availability_horizon_days : ℕ
  pub has_partition : ℕ → Bool

abbrev pub Action : Type 0 → Type 0
Action A = Tx Db A

abbrev pub new_id : Action ℕ
new_id db = (ok db.next_id, record db { next_id = suc db.next_id })

-- A computation on the slots alone.
abbrev pub on_slots : {A : Type 0} → Tx (List Slot) A → Action A
on_slots m db = let (r, t) = m db.slots in (r, record db { slots = t })
