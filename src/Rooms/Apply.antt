-- ===== src/Rooms/Apply.antt =====
-- `RoomStateMachine.apply` on a stored room.
use hotel_booking.Base.{
  ℕ, suc, ◌≡◌, ◌≢◌, refl, true, false, Option, some, ◌∷◌, arith, Bool-cases, decide_iff,
  decide_refl,
}
use hotel_booking.Tx.{ok, err, transition_not_allowed, concurrency_error}
use hotel_booking.Table.{get_row, put_row}
use hotel_booking.Table.Versions.{IsKeyed, save_lem}
use hotel_booking.Model.{Db, Room, RoomStateEvent, OperationalState-discrete, RoomTransition}
use hotel_booking.Workflow.{load, can_run, among}
use hotel_booking.Workflow.Run.{run-ok, run-store_error, run-refused, logged}
use hotel_booking.Rooms.{
  room_source, room_target, state_eq, room_versioned, store_room, room_entity, create_state_event,
  apply,
}

-- No transition leads back to its source.
target-moves : (t : RoomTransition) → state_eq (room_source t) (room_target t) ≡ false
unfolding room_source room_target OperationalState-discrete
target-moves t = elim t as (λ t. state_eq (room_source t) (room_target t) ≡ false) [
  | RoomTransition.allocate ↦ refl
  | RoomTransition.service ↦ refl
  | RoomTransition.service_complete ↦ refl
  | RoomTransition.checkout ↦ refl
  | RoomTransition.clean ↦ refl
  | RoomTransition.complete_cleaning ↦ refl
  | RoomTransition.approve ↦ refl
  | RoomTransition.reject ↦ refl
  | RoomTransition.defect ↦ refl
  | RoomTransition.maintenance ↦ refl
  | RoomTransition.restore ↦ refl
  | RoomTransition.restore_direct ↦ refl
]

-- The room after a transition: its target state, the version counted up.
abbrev pub moved : RoomTransition → Room → Room
moved t room = record room { operational_state = room_target t; version = suc room.version }

abbrev pub state_event : RoomTransition → Option ℕ → Room → Db → RoomStateEvent
state_event t actor room db = record {
  id = db.next_id;
  tenant_id = room.tenant_id;
  room_id = room.id;
  from_state = room.operational_state;
  to_state = room_target t;
  transition = t;
  actor = actor;
}

-- The database after a transition of a stored room.
abbrev pub applied : RoomTransition → Option ℕ → Room → Db → Db
applied t actor room db =
    let db1 = record db { rooms = put_row (λ r. r.id) (moved t room) db.rooms } in
    let db2 =
      logged room_entity t actor (moved t room) room.operational_state (room_target t) db1 in
    record db2 {
      next_id = suc db2.next_id;
      room_state_events = state_event t actor room db2 ∷ db2.room_state_events;
    }

pub store_room_ok :
    (row stored : Room) (db : Db)
    → IsKeyed (λ r. r.id) db.rooms
    → get_row (λ r. r.id) row.id db.rooms ≡ some stored
    → stored.version ≡ row.version
    → let bumped = record row { version = suc row.version } in
      store_room row db ≡ (ok bumped, record db { rooms = put_row (λ r. r.id) bumped db.rooms })
store_room_ok row stored db k h same =
    let (bumped, written, _) = save_lem room_versioned row stored db.rooms k h in
    let (done, table) = written same in ground (arith, bumped, done, table)

store_room_stale :
    (row stored : Room) (db : Db)
    → IsKeyed (λ r. r.id) db.rooms
    → get_row (λ r. r.id) row.id db.rooms ≡ some stored
    → stored.version ≢ row.version
    → (store_room row db).0 ≡ err concurrency_error
store_room_stale row stored db k h other =
    let (_, _, refused) = save_lem room_versioned row stored db.rooms k h in
    let (failed, _) = refused other in ground (arith, failed)

source-can_run :
    (t : RoomTransition) (room : Room)
    → room.operational_state ≡ room_source t
    → can_run room_entity t (load room_entity room) ≡ true
unfolding among
source-can_run t room h = ground (arith, h, decide_refl OperationalState-discrete (room_source t))

pub apply-refused :
    (t : RoomTransition) (actor : Option ℕ) (room : Room) (db : Db)
    → room.operational_state ≢ room_source t
    → apply t actor (load room_entity room) db ≡ (err transition_not_allowed, db)
unfolding apply among
apply-refused t actor room db h =
    let cannot : can_run room_entity t (load room_entity room) ≡ false = ground (
      arith,
      Bool-cases (state_eq room.operational_state (room_source t)),
      decide_iff OperationalState-discrete room.operational_state (room_source t),
    ) in
    ground (arith, run-refused room_entity t actor (load room_entity room) db cannot)

-- `apply` on an instance of a room that stands in a table with unique ids. Where its state is not
-- the transition's source, it raises `TransitionNotAllowed`; where another writer has changed the
-- row since, `ConcurrencyError`; either way the database is as it was. Otherwise the room gets the
-- target state and the next version, no other room changes, and one event of the room's trail, one
-- `room.state_changed` event in the outbox and one audit entry are added together.
pub apply_lem :
    (t : RoomTransition) (actor : Option ℕ) (room stored : Room) (db : Db)
    → IsKeyed (λ r. r.id) db.rooms
    → get_row (λ r. r.id) room.id db.rooms ≡ some stored
    → let out = apply t actor (load room_entity room) db in
      (room.operational_state ≢ room_source t → out ≡ (err transition_not_allowed, db))
      × (room.operational_state ≡ room_source t
          → stored.version ≢ room.version
          → out ≡ (err concurrency_error, db))
      × (room.operational_state ≡ room_source t
          → stored.version ≡ room.version
          → out ≡ (ok (load room_entity (moved t room)), applied t actor room db))
unfolding apply create_state_event among
apply_lem t actor room stored db k h = (
  apply-refused t actor room db,
  λ source stale.
      let at : (store_room (record room { operational_state = room_target t }) db).0
          ≡ err concurrency_error =
        store_room_stale (record room { operational_state = room_target t }) stored db k h stale in
      let failed =
        run-store_error room_entity t actor room db concurrency_error (source-can_run t room source)
          at in
      ground (arith, failed),
  λ source same.
      let at =
        store_room_ok (record room { operational_state = room_target t }) stored db k h same in
      let done =
        run-ok room_entity t actor room (moved t room) db _ (source-can_run t room source) at in
      let moves : state_eq room.operational_state (room_target t) ≡ false =
        ground (arith, source, target-moves t) in
      ground (arith, done, moves),
)
