-- ===== src/Allocation/CheckIn.antt =====
-- The writes of an allocation that returned.
use hotel_booking.Base.{ℕ, ◌≡◌, refl, false, Option, some, ◌∷◌, arith, inl, inr, Bool-cases}
use hotel_booking.Tx.{ok}
use hotel_booking.Table.{get_row, put_row}
use hotel_booking.Table.Versions.{IsKeyed}
use hotel_booking.Model.{
  Db, Room, OperationalState, RoomTransition, Booking, BookingLine, BookingStatus, AllocationRecord,
  Response, id_response,
}
use hotel_booking.Workflow.{record_event}
use hotel_booking.Rooms.{room_source}
use hotel_booking.Rooms.Apply.{apply_lem, moved, applied}
use hotel_booking.Allocation.{
  AllocationDecision, is_recorded, save_line, create_allocation_record, check_in, reason_for,
}

-- The room and the line of an allocation.
abbrev pub taken : Room → BookingLine → Room
taken room line =
    moved RoomTransition.allocate (record room { current_booking_line_id = some line.id })

abbrev pub arrived : BookingLine → Room → BookingLine
arrived line room = record line { room_id = some room.id; status = BookingStatus.checked_in }

abbrev pub IsCheckedIn : BookingLine → Room → Db → Db → Response → Type 0
IsCheckedIn line room db db' resp =
    (db'.rooms ≡ put_row (λ r. r.id) (taken room line) db.rooms)
    × (db'.booking_lines ≡ put_row (λ l. l.id) (arrived line room) db.booking_lines)
    × (db'.housekeeping_tasks ≡ db.housekeeping_tasks)
    × (row : AllocationRecord) × (db'.allocation_records ≡ row ∷ db.allocation_records)
    × (resp ≡ id_response row.id)
    × (row.booking_line_id ≡ line.id)
    × (row.room_id ≡ room.id)

pub check_in_ok :
    (tenant_id : ℕ) (line : BookingLine) (booking : Booking) (decision : AllocationDecision)
    (actor : Option ℕ) (room : Room) (db : Db) (resp : Response)
    → IsKeyed (λ r. r.id) db.rooms
    → get_row (λ r. r.id) room.id db.rooms ≡ some room
    → room.operational_state ≡ OperationalState.vacant_clean
    → (check_in tenant_id line booking decision actor room db).0 ≡ ok resp
    → IsCheckedIn line room db (check_in tenant_id line booking decision actor room db).1 resp
unfolding check_in save_line create_allocation_record record_event room_source
check_in_ok tenant_id line booking decision actor room db resp k found state done =
    let room' = record room { current_booking_line_id = some line.id } in
    let (_, _, fine) = apply_lem RoomTransition.allocate actor room' room db k found in
    let at = fine state refl in
    let db1 = applied RoomTransition.allocate actor room' db in
    let row : AllocationRecord = record {
      id = db1.next_id;
      tenant_id = tenant_id;
      property_id = booking.property_id;
      booking_line_id = line.id;
      room_id = room.id;
      chosen_by = actor;
      override = false;
      criteria = decision.criteria;
      scores = decision.scores;
      reason = reason_for decision.scores room.id;
    } in
    elim (Bool-cases (is_recorded line.id db.allocation_records)) [
      | inl old ↦ ground (arith, at, old)
      | inr new ↦ (
        ground (arith, at, new),
        ground (arith, at, new),
        ground (arith, at, new),
        row,
        ground (arith, at, new),
        ground (arith, at, new),
        refl,
        refl,
      )
    ]
