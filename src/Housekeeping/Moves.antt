-- ===== src/Housekeeping/Moves.antt =====
-- What the housekeeping services write, when they return.
use hotel_booking.Base.{
  ℕ, ◌≡◌, refl, sym, ◌∙◌, ap, Bool, Option, none, some, arith, inl, inr, Option-cases,
}
use hotel_booking.Tx.{ok, raise_if, task_not_transitionable, ◌>>=◌, ◌>>◌}
use hotel_booking.Tx.Keeps.{Result-cases, bind_inv, raise_if_ok}
use hotel_booking.Table.{get_row, put_row}
use hotel_booking.Table.Versions.{IsKeyed}
use hotel_booking.Model.{
  Db, Action, Room, OperationalState, OperationalState-discrete, RoomTransition, HousekeepingTask,
  TaskStatus, TaskTransition, Response,
}
use hotel_booking.Workflow.Run.{publish-with_event}
use hotel_booking.Workflow.{Loaded, load, guarded_save, run, record_audit}
use hotel_booking.Rooms.{room_entity, room_source, apply}
use hotel_booking.Rooms.Apply.{apply_lem, moved, applied}
use hotel_booking.Allocation.{get_room}
use hotel_booking.Allocation.Locks.{get_row-own}
use hotel_booking.Housekeeping.{
  task_entity, task_target, task_event, task_status_eq, get_task, is_planned, create_task,
  check_out, execute_check_out, run_task, execute_assign, move_both, execute_start_cleaning,
  execute_complete_cleaning, create_inspection, is_inspected, execute_inspect, room_verdict,
  task_verdict, store_task,
}

-- The tables that decide who is in which room.
abbrev pub SameStays : Db → Db → Type 0
SameStays a b = (b.rooms ≡ a.rooms) × (b.booking_lines ≡ a.booking_lines)

-- `apply` on a room as it stands in the table, when it returned.
pub apply_ok :
    (t : RoomTransition) (actor : Option ℕ) (room : Room) (db : Db)
    (r : Loaded Room OperationalState)
    → IsKeyed (λ r. r.id) db.rooms
    → get_row (λ r. r.id) room.id db.rooms ≡ some room
    → (apply t actor (load room_entity room) db).0 ≡ ok r
    → (room.operational_state ≡ room_source t)
      × (apply t actor (load room_entity room) db
          ≡ (ok (load room_entity (moved t room)), applied t actor room db))
apply_ok t actor room db r k found done =
    let (refused, _, fine) = apply_lem t actor room room db k found in
    elim (OperationalState-discrete room.operational_state (room_source t)) [
      | yes source ↦ (source, fine source refl)
      | no other ↦ ground (arith, refused other)
    ]

store_task-SameStays : (row : HousekeepingTask) (db : Db) → SameStays db (store_task row db).1
store_task-SameStays row db =
    elim (Result-cases
      (hotel_booking.Table.save hotel_booking.Housekeeping.task_versioned row
        db.housekeeping_tasks).0) [
          | inl (x, fine) ↦ ground (arith, fine)
          | inr (e, bad) ↦ ground (arith, bad)
        ]

run-SameStays :
    (t : TaskTransition) (actor : Option ℕ) (task : Loaded HousekeepingTask TaskStatus) (db : Db)
    → SameStays db (run task_entity t actor task db).1
unfolding run guarded_save record_audit
run-SameStays t actor task db =
    let moved' = record task.row { status = task_target t } in
    let kept = store_task-SameStays moved' db in
    ground (
      arith,
      kept,
      Result-cases (store_task moved' db).0,
      publish-with_event task_entity (task_event t),
    )

-- One room of the table has made a transition; no booking line has changed.
abbrev pub IsMoved : RoomTransition → Room → Db → Db → Type 0
IsMoved t room db db' =
    (get_row (λ r. r.id) room.id db.rooms ≡ some room)
    × (room.operational_state ≡ room_source t)
    × (db'.rooms ≡ put_row (λ r. r.id) (moved t room) db.rooms)
    × (db'.booking_lines ≡ db.booking_lines)

pub run_task-SameStays :
    (t : TaskTransition) (loaded task : HousekeepingTask) (db : Db)
    → SameStays db (run_task t loaded task db).1
run_task-SameStays t loaded task db =
    let instance' : Loaded HousekeepingTask TaskStatus = record {
      row = task;
      original = loaded.status;
    } in
    let kept = run-SameStays t none instance' db in
    ground (arith, kept, Result-cases (run task_entity t none instance' db).0)

pub move_both_ok :
    (rt : RoomTransition) (tt' : TaskTransition) (actor : Option ℕ) (task : HousekeepingTask)
    (room : Room) (db : Db) (resp : Response)
    → IsKeyed (λ r. r.id) db.rooms
    → get_row (λ r. r.id) room.id db.rooms ≡ some room
    → (move_both rt tt' actor task room db).0 ≡ ok resp
    → IsMoved rt room db (move_both rt tt' actor task room db).1
unfolding move_both
move_both_ok rt tt' actor task room db resp k found done =
    let next = λ (_ : Loaded Room OperationalState). run_task tt' task task in
    let (r, first, ran) = bind_inv (apply rt actor (load room_entity room)) next db resp done in
    let (source, at) = apply_ok rt actor room db r k found first in
    let kept = run_task-SameStays tt' task task (applied rt actor room db) in
    let whole = ran ∙ ap (λ o. next r o.1) at in
    (found, source, ap (λ o. o.1.rooms) whole ∙ kept.0, ap (λ o. o.1.booking_lines) whole ∙ kept.1)

pub get_task_ok :
    (i : ℕ) (db : Db) (t : HousekeepingTask) → (get_task i db).0 ≡ ok t → get_task i db ≡ (ok t, db)
get_task_ok i db t h = ground (arith, Option-cases (get_row (λ x. x.id) i db.housekeeping_tasks))

pub get_room_ok :
    (i : ℕ) (db : Db) (r : Room)
    → (get_room i db).0 ≡ ok r
    → (get_room i db ≡ (ok r, db)) × (get_row (λ x. x.id) r.id db.rooms ≡ some r) × (r.id ≡ i)
get_room_ok i db r h =
    let at : get_row (λ x. x.id) i db.rooms ≡ some r =
      ground (arith, h, Option-cases (get_row (λ x. x.id) i db.rooms)) in
    let own = get_row-own i db.rooms r at in
    (ground (arith, at), ap (λ k. get_row (λ x. x.id) k db.rooms) own ∙ at, own)

-- The frame of the services that load a task and its room, test the task, and go on.
abbrev pub with_task :
    ℕ → (HousekeepingTask → Bool) → (HousekeepingTask → Room → Action Response) → Action Response
with_task task_id refuses next = get_task task_id >>= λ task. get_room task.room_id >>= λ room.
    raise_if (refuses task) task_not_transitionable >> next task room

pub with_task_ok :
    (task_id : ℕ) (refuses : HousekeepingTask → Bool)
    (next : HousekeepingTask → Room → Action Response) (db : Db) (resp : Response)
    → (with_task task_id refuses next db).0 ≡ ok resp
    → (task : HousekeepingTask) × (room : Room) × (get_row (λ x. x.id) room.id db.rooms ≡ some room)
      × (with_task task_id refuses next db ≡ next task room db)
with_task_ok task_id refuses next db resp done =
    let on_room = λ (task : HousekeepingTask) (room : Room).
      raise_if (refuses task) task_not_transitionable >> next task room in
    let on_task = λ (task : HousekeepingTask). get_room task.room_id >>= on_room task in
    let (task, read, ran) = bind_inv (get_task task_id) on_task db resp done in
    let ran1 = ran ∙ ap (λ o. on_task task o.1) (get_task_ok task_id db task read) in
    let (room, read2, ran2) =
      bind_inv (get_room task.room_id) (on_room task) db resp (ap (λ o. o.0) (sym ran1) ∙ done) in
    let (at, found, _) = get_room_ok task.room_id db room read2 in
    let ran3 = ran1 ∙ ran2 ∙ ap (λ o. on_room task room o.1) at in
    let (_, ran4) =
      raise_if_ok (refuses task) task_not_transitionable (next task room) db resp
        (ap (λ o. o.0) (sym ran3) ∙ done) in
    (task, room, found, ran3 ∙ ran4)
