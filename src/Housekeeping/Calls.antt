-- ===== src/Housekeeping/Calls.antt =====
-- What each housekeeping service does to the rooms and the booking lines, when it returns.
use mathlib.Core.Path.{subst}
use hotel_booking.Base.{
  ℕ, ◌≡◌, sym, ◌∙◌, ap, ◌||◌, not, Option, some, arith, inl, inr, Bool-cases, Option-cases,
  decide_iff,
}
use hotel_booking.Tx.{ok, pure, raise_if, from_option, task_not_transitionable, ◌>>=◌, ◌>>◌}
use hotel_booking.Tx.Keeps.{bind_inv, raise_if_ok}
use hotel_booking.Table.{get_row, put_row}
use hotel_booking.Table.Versions.{IsKeyed}
use hotel_booking.Model.{
  Db, Action, Room, OperationalState, RoomTransition, Booking, BookingLine, BookingStatus,
  BookingStatus-discrete, HousekeepingTask, TaskStatus, TaskTransition, InspectionResult, Response,
  id_response,
}
use hotel_booking.Workflow.{Loaded, load}
use hotel_booking.Rooms.{room_entity, room_source, apply}
use hotel_booking.Rooms.Apply.{moved, applied}
use hotel_booking.Allocation.{line_status_eq, get_booking_line, get_booking, get_room, save_line}
use hotel_booking.Allocation.Outcome.{get_booking_line_ok, get_booking_ok}
use hotel_booking.Housekeeping.{
  task_status_eq, create_task, check_out, execute_check_out, execute_assign, move_both,
  execute_start_cleaning, execute_complete_cleaning, create_inspection, is_inspected,
  execute_inspect, room_verdict, task_verdict,
}
use hotel_booking.Housekeeping.Moves.{
  SameStays, IsMoved, apply_ok, run_task-SameStays, move_both_ok, get_room_ok, with_task_ok,
}

pub execute_start_cleaning_ok :
    (task_id : ℕ) (actor : Option ℕ) (db : Db) (resp : Response)
    → IsKeyed (λ r. r.id) db.rooms
    → (execute_start_cleaning task_id actor db).0 ≡ ok resp
    → (room : Room) × IsMoved RoomTransition.clean room db
        (execute_start_cleaning task_id actor db).1
unfolding execute_start_cleaning
execute_start_cleaning_ok task_id actor db resp k done =
    let next = move_both RoomTransition.clean TaskTransition.start_cleaning actor in
    let refuses = λ (task : HousekeepingTask). not (
      task_status_eq task.status TaskStatus.planned
      || task_status_eq task.status TaskStatus.assigned) in
    let (task, room, found, ran) = with_task_ok task_id refuses next db resp done in
    (
      room,
      subst (λ o. IsMoved RoomTransition.clean room db o.1) (sym ran)
          (move_both_ok RoomTransition.clean TaskTransition.start_cleaning actor task room db resp k
            found (ap (λ o. o.0) (sym ran) ∙ done)),
    )

pub execute_complete_cleaning_ok :
    (task_id : ℕ) (actor : Option ℕ) (db : Db) (resp : Response)
    → IsKeyed (λ r. r.id) db.rooms
    → (execute_complete_cleaning task_id actor db).0 ≡ ok resp
    → (room : Room) × IsMoved RoomTransition.complete_cleaning room db
        (execute_complete_cleaning task_id actor db).1
unfolding execute_complete_cleaning
execute_complete_cleaning_ok task_id actor db resp k done =
    let next = move_both RoomTransition.complete_cleaning TaskTransition.complete_cleaning actor in
    let refuses =
      λ (task : HousekeepingTask). not (task_status_eq task.status TaskStatus.in_progress) in
    let (task, room, found, ran) = with_task_ok task_id refuses next db resp done in
    (
      room,
      subst (λ o. IsMoved RoomTransition.complete_cleaning room db o.1) (sym ran)
          (move_both_ok RoomTransition.complete_cleaning TaskTransition.complete_cleaning actor task
            room db resp k found (ap (λ o. o.0) (sym ran) ∙ done)),
    )

create_inspection_ok :
    (tenant_id : ℕ) (task : HousekeepingTask) (inspector : Option ℕ) (result : InspectionResult)
    (db : Db)
    → (create_inspection tenant_id task inspector result db).0 ≡ ok tt
    → SameStays db (create_inspection tenant_id task inspector result db).1
unfolding create_inspection
create_inspection_ok tenant_id task inspector result db done =
    ground (arith, Bool-cases (is_inspected task.id db.inspections))

pub execute_inspect_ok :
    (tenant_id task_id : ℕ) (result : InspectionResult) (inspector actor : Option ℕ) (db : Db)
    (resp : Response)
    → IsKeyed (λ r. r.id) db.rooms
    → (execute_inspect tenant_id task_id result inspector actor db).0 ≡ ok resp
    → (room : Room) × IsMoved
        (room_verdict result)
        room
        db
        (execute_inspect tenant_id task_id result inspector actor db).1
unfolding execute_inspect
execute_inspect_ok tenant_id task_id result inspector actor db resp k done =
    let t = room_verdict result in
    let move = move_both t (task_verdict result) actor in
    let next = λ (task : HousekeepingTask) (room : Room).
      create_inspection tenant_id task inspector result >> move task room in
    let refuses =
      λ (task : HousekeepingTask). not (task_status_eq task.status TaskStatus.quality_check) in
    let (task, room, found, ran) = with_task_ok task_id refuses next db resp done in
    let (u, noted, ran2) =
      bind_inv (create_inspection tenant_id task inspector result) (λ _. move task room) db resp
        (ap (λ o. o.0) (sym ran) ∙ done) in
    let db1 = (create_inspection tenant_id task inspector result db).1 in
    let (rooms, lines) = create_inspection_ok tenant_id task inspector result db noted in
    let whole = ran ∙ ran2 in
    let k1 : IsKeyed (λ r. r.id) db1.rooms = subst (IsKeyed (λ r. r.id)) (sym rooms) k in
    let found1 : get_row (λ r. r.id) room.id db1.rooms ≡ some room =
      ap (get_row (λ r. r.id) room.id) rooms ∙ found in
    let (_, source, moved', same) =
      move_both_ok t (task_verdict result) actor task room db1 resp k1 found1
        (ap (λ o. o.0) (sym whole) ∙ done) in
    (
      room,
      subst (λ o. IsMoved t room db o.1) (sym whole)
          (found, source, moved' ∙ ap (put_row (λ r. r.id) (moved t room)) rooms, same ∙ lines),
    )

pub execute_assign-SameStays :
    (task_id : ℕ) (assignee : Option ℕ) (db : Db)
    → SameStays db (execute_assign task_id assignee db).1
unfolding execute_assign
execute_assign-SameStays task_id assignee db =
    elim (Option-cases (get_row (λ t. t.id) task_id db.housekeeping_tasks)) [
      | inl gone ↦ ground (arith, gone)
      | inr (task, there) ↦
          let kept =
            run_task-SameStays TaskTransition.assign task (record task { assignee = assignee })
              db in
          ground (arith, there, kept)
    ]

create_task-SameStays :
    (tenant_id property_id room_id booking_line_id : ℕ) (db : Db)
    → SameStays db (create_task tenant_id property_id room_id booking_line_id db).1
unfolding create_task
create_task-SameStays tenant_id property_id room_id booking_line_id db = ground arith

check_out_ok :
    (tenant_id : ℕ) (line : BookingLine) (room : Room) (actor : Option ℕ) (db : Db)
    (resp : Response)
    → IsKeyed (λ r. r.id) db.rooms
    → get_row (λ r. r.id) room.id db.rooms ≡ some room
    → (check_out tenant_id line room actor db).0 ≡ ok resp
    → let db' = (check_out tenant_id line room actor db).1 in
      (room.operational_state ≡ room_source RoomTransition.checkout)
      × (db'.rooms ≡ put_row (λ r. r.id) (moved RoomTransition.checkout room) db.rooms)
      × (db'.booking_lines
          ≡ put_row
              (λ l. l.id)
              (record line { status = BookingStatus.checked_out })
              db.booking_lines)
unfolding check_out save_line
check_out_ok tenant_id line room actor db resp k found done =
    let last = λ (booking : Booking).
      create_task tenant_id booking.property_id room.id line.id >>= λ task.
      pure (id_response task.id) in
    let save' = save_line (record line { status = BookingStatus.checked_out }) in
    let next =
      λ (_ : Loaded Room OperationalState). save' >> (get_booking line.booking_id >>= last) in
    let (r, first, ran) =
      bind_inv (apply RoomTransition.checkout actor (load room_entity room)) next db resp done in
    let (source, at) = apply_ok RoomTransition.checkout actor room db r k found first in
    let db1 = applied RoomTransition.checkout actor room db in
    let db2 = (save' db1).1 in
    let ran1 : check_out tenant_id line room actor db ≡ (get_booking line.booking_id >>= last) db2 =
      ran ∙ ap (λ o. next r o.1) at in
    let (booking, read, ran2) =
      bind_inv (get_booking line.booking_id) last db2 resp (ap (λ o. o.0) (sym ran1) ∙ done) in
    let (at2, _) = get_booking_ok line.booking_id db2 booking read in
    let whole = ran1 ∙ ran2 ∙ ap (λ o. last booking o.1) at2 in
    let (task, made, ran3) =
      bind_inv (create_task tenant_id booking.property_id room.id line.id)
        (λ task. pure (id_response task.id)) db2 resp (ap (λ o. o.0) (sym whole) ∙ done) in
    let kept = create_task-SameStays tenant_id booking.property_id room.id line.id db2 in
    let all = whole ∙ ran3 in
    (source, ap (λ o. o.1.rooms) all ∙ kept.0, ap (λ o. o.1.booking_lines) all ∙ kept.1)

-- What follows the test of the line.
abbrev leave : ℕ → Option ℕ → BookingLine → Action Response
leave tenant_id actor line = from_option task_not_transitionable line.room_id >>= λ i.
    get_room i >>= λ room. check_out tenant_id line room actor

abbrev pub HasLeft : BookingLine → Room → Db → Db → Type 0
HasLeft line room db db' =
    (line.room_id ≡ some room.id)
    × (get_row (λ r. r.id) room.id db.rooms ≡ some room)
    × (room.operational_state ≡ room_source RoomTransition.checkout)
    × (db'.rooms ≡ put_row (λ r. r.id) (moved RoomTransition.checkout room) db.rooms)
    × (db'.booking_lines
        ≡ put_row (λ l. l.id) (record line { status = BookingStatus.checked_out }) db.booking_lines)

-- A guest leaves: the line and the room move together.
abbrev pub IsCheckedOut : ℕ → BookingLine → Room → Db → Db → Type 0
IsCheckedOut booking_line_id line room db db' =
    (get_row (λ l. l.id) booking_line_id db.booking_lines ≡ some line)
    × (line.status ≡ BookingStatus.checked_in)
    × HasLeft line room db db'

leave_ok :
    (tenant_id : ℕ) (actor : Option ℕ) (line : BookingLine) (db : Db) (resp : Response)
    → IsKeyed (λ r. r.id) db.rooms
    → (leave tenant_id actor line db).0 ≡ ok resp
    → (room : Room) × HasLeft line room db (leave tenant_id actor line db).1
leave_ok tenant_id actor line db resp k done =
    let finish = λ (room : Room). check_out tenant_id line room actor in
    let of_room = λ (i : ℕ). get_room i >>= finish in
    let (i, has, ran) =
      bind_inv (from_option task_not_transitionable line.room_id) of_room db resp done in
    let in_room : line.room_id ≡ some i = ground (arith, has, Option-cases line.room_id) in
    let ran1 : leave tenant_id actor line db ≡ of_room i db = ran ∙ ground (arith, in_room) in
    let (room, read, ran2) =
      bind_inv (get_room i) finish db resp (ap (λ o. o.0) (sym ran1) ∙ done) in
    let (at, found, own) = get_room_ok i db room read in
    let whole : leave tenant_id actor line db ≡ finish room db =
      ran1 ∙ ran2 ∙ ap (λ o. finish room o.1) at in
    let (source, rooms, lines) =
      check_out_ok tenant_id line room actor db resp k found (ap (λ o. o.0) (sym whole) ∙ done) in
    (
      room,
      subst (λ o. HasLeft line room db o.1) (sym whole)
          (in_room ∙ ap some (sym own), found, source, rooms, lines),
    )

pub execute_check_out_ok :
    (tenant_id booking_line_id : ℕ) (actor : Option ℕ) (db : Db) (resp : Response)
    → IsKeyed (λ r. r.id) db.rooms
    → (execute_check_out tenant_id booking_line_id actor db).0 ≡ ok resp
    → (line : BookingLine) × (room : Room) × IsCheckedOut booking_line_id line room db
        (execute_check_out tenant_id booking_line_id actor db).1
unfolding execute_check_out
execute_check_out_ok tenant_id booking_line_id actor db resp k done =
    let refuses =
      λ (line : BookingLine). not (line_status_eq line.status BookingStatus.checked_in) in
    let next = λ (line : BookingLine).
      raise_if (refuses line) task_not_transitionable >> leave tenant_id actor line in
    let (line, read, ran) = bind_inv (get_booking_line booking_line_id) next db resp done in
    let (at, stored) = get_booking_line_ok booking_line_id db line read in
    let ran1 : execute_check_out tenant_id booking_line_id actor db ≡ next line db =
      ran ∙ ap (λ o. next line o.1) at in
    let (here, ran2) =
      raise_if_ok (refuses line) task_not_transitionable (leave tenant_id actor line) db resp
        (ap (λ o. o.0) (sym ran1) ∙ done) in
    let whole : execute_check_out tenant_id booking_line_id actor db
        ≡ leave tenant_id actor line db =
      ran1 ∙ ran2 in
    let (room, left) = leave_ok tenant_id actor line db resp k (ap (λ o. o.0) (sym whole) ∙ done) in
    let state : line.status ≡ BookingStatus.checked_in = ground (
      arith,
      here,
      Bool-cases (line_status_eq line.status BookingStatus.checked_in),
      decide_iff BookingStatus-discrete line.status BookingStatus.checked_in,
    ) in
    (line, room, (stored, state, subst (λ o. HasLeft line room db o.1) (sym whole) left))
