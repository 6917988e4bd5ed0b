-- ===== src/Allocation.antt =====
-- apps/allocation/models.py and apps/allocation/services.py: a physical room for a booking line.
-- The vacant rooms are read and scored without a lock (`decide_room`), then locked and read again
-- (`assign_room`), which takes any decision, also one from an older state of the rooms.
pub mod CheckIn
pub mod Choice
pub mod Chosen
pub mod Locks
pub mod Outcome
use hotel_booking.Base.{
  ℕ, Bool, true, false, ◌&&◌, ◌||◌, not, Option, none, some, List, [], ◌∷◌, ltb, leb, ◌==◌,
  if◌then◌else◌, select, elem, decide, option_eq,
}
use hotel_booking.Tx.{
  ok, err, booking_line_not_allocatable, no_eligible_room, does_not_exist, integrity_error,
  key_error, pure, raise, raise_if, gets, modify, from_option, ◌>>=◌, ◌>>◌,
}
use hotel_booking.Table.{get_row, put_row}
use hotel_booking.Model.{
  Db, Env, Action, new_id, Room, OperationalState, RoomTransition, Booking, BookingLine,
  BookingStatus, BookingStatus-discrete, AllocationRecord, AllocationCriteria, RoomScore,
  AllocationReason, stay_continuity_reason, tie_break_reason, EntityType, EventType, allocation,
  Key, Response, id_response, Scope, booking_line_payload,
}
use hotel_booking.Workflow.{load, record_event}
use hotel_booking.Rooms.{state_eq, room_entity, apply, vacant_clean_candidates}

abbrev pub line_status_eq : BookingStatus → BookingStatus → Bool
line_status_eq a b = decide (BookingStatus-discrete a b)

-- `BookingLine.objects.select_for_update().get(pk=…)`
abbrev pub get_booking_line : ℕ → Action BookingLine
get_booking_line i = do
  found ← gets (λ db. get_row (λ l. l.id) i db.booking_lines)
  from_option does_not_exist found

-- `booking_line.booking`
abbrev pub get_booking : ℕ → Action Booking
get_booking i = do
  found ← gets (λ db. get_row (λ b. b.id) i db.bookings)
  from_option does_not_exist found

-- `Room.objects.select_for_update().get(pk=…)`
abbrev pub get_room : ℕ → Action Room
get_room i = do
  found ← gets (λ db. get_row (λ r. r.id) i db.rooms)
  from_option does_not_exist found

abbrev pub is_some : Option ℕ → Bool
is_some none = false
is_some (some _) = true

abbrev pub room_ids : List Room → List ℕ
room_ids [] = []
room_ids (r ∷ rs) = r.id ∷ room_ids rs

-- `RoomQuery.vacant_clean_candidates(…).for_tenant(…).values_list("id")`
unfoldable pub candidate_ids : ℕ → ℕ → ℕ → List Room → List ℕ
candidate_ids tenant_id room_type_id property_id rooms = room_ids (
    select (λ r. r.tenant_id == tenant_id) (vacant_clean_candidates room_type_id property_id rooms))

pub record AllocationDecision : Type 0 where
  pub criteria : AllocationCriteria
  pub scores : List RoomScore

-- Does the booking of a line belong to the guest?
abbrev pub is_of_guest : ℕ → List Booking → BookingLine → Bool
is_of_guest guest bookings l = elim (get_row (λ b. b.id) l.booking_id bookings) [
  | none ↦ false
  | some b ↦ option_eq b.guest_profile (some guest)
]

-- Another line of the guest in the room (`room_id in prior_rooms`)
unfoldable pub is_prior_room : ℕ → ℕ → ℕ → List Booking → List BookingLine → Bool
is_prior_room guest booking_line_id room_id bookings [] = false
is_prior_room guest booking_line_id room_id bookings (l ∷ ls) =
    (is_of_guest guest bookings l
      && (option_eq l.room_id (some room_id) && not (l.id == booking_line_id)))
    || is_prior_room guest booking_line_id room_id bookings ls

abbrev pub continuity : AllocationCriteria → ℕ → Db → Bool
continuity criteria room_id db = elim criteria.guest_profile_id [
  | none ↦ false
  | some guest ↦ is_prior_room guest criteria.booking_line_id room_id db.bookings db.booking_lines
]

abbrev pub score_all : AllocationCriteria → Db → List ℕ → List RoomScore
score_all criteria db [] = []
score_all criteria db (i ∷ is) =
    record { room_id = i; stay_continuity = continuity criteria i db } ∷ score_all criteria db is

-- `_score_candidates`
unfoldable pub score_candidates : AllocationCriteria → Db → AllocationDecision
score_candidates criteria db = record {
  criteria = criteria;
  scores = score_all criteria db criteria.candidate_room_ids;
}

-- `RoomScore.sort_key`: continuity first, then the lower id.
abbrev pub sorts_before : RoomScore → RoomScore → Bool
sorts_before a b =
    (a.stay_continuity && not b.stay_continuity)
    || (not (b.stay_continuity && not a.stay_continuity) && leb a.room_id b.room_id)

unfoldable pub insert_score : RoomScore → List RoomScore → List RoomScore
insert_score x [] = x ∷ []
insert_score x (y ∷ ys) =
    let rest = insert_score x ys in if sorts_before x y then x ∷ y ∷ ys else y ∷ rest

unfoldable pub sort_scores : List RoomScore → List RoomScore
sort_scores [] = []
sort_scores (x ∷ xs) = insert_score x (sort_scores xs)

-- `ordered_room_ids`
abbrev pub score_ids : List RoomScore → List ℕ
score_ids [] = []
score_ids (x ∷ xs) = x.room_id ∷ score_ids xs

unfoldable pub ordered_room_ids : AllocationDecision → List ℕ
ordered_room_ids decision = score_ids (sort_scores decision.scores)

-- `reason_for`: the chosen room always has a score.
unfoldable pub reason_for : List RoomScore → ℕ → AllocationReason
reason_for [] room_id = tie_break_reason
reason_for (x ∷ xs) room_id =
    let rest = reason_for xs room_id in
    if x.room_id == room_id
    then (if x.stay_continuity then stay_continuity_reason else tie_break_reason)
    else rest

unfoldable pub insert_id : ℕ → List ℕ → List ℕ
insert_id x [] = x ∷ []
insert_id x (y ∷ ys) = let rest = insert_id x ys in if leb x y then x ∷ y ∷ ys else y ∷ rest

-- `sorted(candidate_ids)`
unfoldable pub sort_ids : List ℕ → List ℕ
sort_ids [] = []
sort_ids (x ∷ xs) = insert_id x (sort_ids xs)

abbrev pub keep_vacant : Room → List Room → List Room
keep_vacant locked vacant =
    if state_eq locked.operational_state OperationalState.vacant_clean
    then locked ∷ vacant
    else vacant

-- The candidates that are still vacant under their locks (`vacant_by_id`)
unfoldable pub lock_candidates : List ℕ → Action (List Room)
lock_candidates [] = pure []
lock_candidates (i ∷ is) = do
  locked ← get_room i
  vacant ← lock_candidates is
  pure (keep_vacant locked vacant)

-- `for candidate_id in decision.ordered_room_ids(): …; break`
unfoldable pub first_vacant : List ℕ → List Room → Option Room
first_vacant [] vacant = none
first_vacant (i ∷ is) vacant =
    let rest = first_vacant is vacant in
    elim (get_row (λ r. r.id) i vacant) [ none ↦ rest | some room ↦ some room ]

-- `booking_line.save(update_fields=["room", "status", …])`
unfoldable pub save_line : BookingLine → Action (Unit {0})
save_line line =
    modify λ db. record db { booking_lines = put_row (λ l. l.id) line db.booking_lines }

unfoldable pub is_recorded : ℕ → List AllocationRecord → Bool
is_recorded booking_line_id [] = false
is_recorded booking_line_id (r ∷ rs) =
    r.booking_line_id == booking_line_id || is_recorded booking_line_id rs

-- `AllocationRecord.objects.create(…)` under the unique booking line
unfoldable pub create_allocation_record :
    ℕ → ℕ → ℕ → ℕ → Option ℕ → AllocationDecision → Action AllocationRecord
create_allocation_record tenant_id property_id booking_line_id room_id actor decision = do
  i ← new_id
  let row : AllocationRecord = record {
    id = i;
    tenant_id = tenant_id;
    property_id = property_id;
    booking_line_id = booking_line_id;
    room_id = room_id;
    chosen_by = actor;
    override = false;
    criteria = decision.criteria;
    scores = decision.scores;
    reason = reason_for decision.scores room_id;
  }
  recorded ← gets (λ db. is_recorded booking_line_id db.allocation_records)
  raise_if recorded integrity_error
  modify λ db. record db { allocation_records = row ∷ db.allocation_records }
  pure row

-- The writes for the chosen room.
unfoldable pub check_in :
    ℕ → BookingLine → Booking → AllocationDecision → Option ℕ → Room → Action Response
check_in tenant_id line booking decision actor room = do
  _ ←
      apply RoomTransition.allocate actor
        (load room_entity (record room { current_booking_line_id = some line.id }))
  save_line (record line { room_id = some room.id; status = BookingStatus.checked_in })
  row ← create_allocation_record tenant_id booking.property_id line.id room.id actor decision
  record_event EventType.room_allocated tenant_id EntityType.allocationrecord row.id
      (allocation line.id room.id row.reason)
  pure (id_response row.id)

-- The part under the locks of the candidates.
unfoldable pub assign_room :
    ℕ → BookingLine → Booking → AllocationDecision → Option ℕ → Action Response
assign_room tenant_id line booking decision actor = do
  vacant ← lock_candidates (sort_ids decision.criteria.candidate_room_ids)
  room ← from_option no_eligible_room (first_vacant (ordered_room_ids decision) vacant)
  check_in tenant_id line booking decision actor room

-- The unlocked read: the candidates and their scores.
unfoldable pub decide_room : ℕ → BookingLine → Booking → Db → AllocationDecision
decide_room tenant_id line booking db =
    score_candidates
      (record {
        booking_line_id = line.id;
        room_type_id = line.room_type_id;
        guest_profile_id = booking.guest_profile;
        candidate_room_ids = candidate_ids tenant_id line.room_type_id booking.property_id db.rooms;
      })
      db

unfoldable pub execute_allocate : ℕ → ℕ → Option ℕ → Action Response
execute_allocate tenant_id booking_line_id actor = do
  line ← get_booking_line booking_line_id
  raise_if (not (line_status_eq line.status BookingStatus.confirmed) || is_some line.room_id)
      booking_line_not_allocatable
  booking ← get_booking line.booking_id
  decision ← gets (decide_room tenant_id line booking)
  assign_room tenant_id line booking decision actor

-- `AllocationRecord.objects.get(pk=response["allocation_record_id"])`
abbrev pub allocation_of_response : Response → Action AllocationRecord
allocation_of_response (id_response i) = do
  found ← gets (λ db. get_row (λ r. r.id) i db.allocation_records)
  from_option does_not_exist found
allocation_of_response _ = raise key_error

-- `AllocationService.allocate_line`
unfoldable pub allocate_line : Env → ℕ → ℕ → Key → Option ℕ → Action AllocationRecord
allocate_line env tenant_id booking_line_id idempotency_key actor = do
  response ←
      hotel_booking.Idempotency.run env
        (record {
          tenant_id = tenant_id;
          scope = Scope.allocation_allocate_line;
          key = idempotency_key;
        })
        (booking_line_payload booking_line_id) (execute_allocate tenant_id booking_line_id actor)
  allocation_of_response response
