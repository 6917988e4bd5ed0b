-- ===== src/Rooms/History.antt =====
-- The trail of `RoomStateEvent` rows: what it says of a room, whatever was done to the rooms.
use hotel_booking.Base.{
  ℕ, suc, ◌≡◌, refl, false, Option, none, some, List, [], ◌∷◌, arith, ◌==◌, inl, inr, Bool-cases,
  select, decide_iff,
}
use hotel_booking.Table.{get_row, put_row}
use hotel_booking.Table.Versions.{IsKeyed, get-put_row, put_row-IsKeyed}
use hotel_booking.Model.{
  Db, Room, RoomStateEvent, OperationalState, OperationalState-discrete, RoomTransition,
}
use hotel_booking.Workflow.{load, guarded_save}
use hotel_booking.Workflow.Run.{guarded_save-bypass}
use hotel_booking.Rooms.{room_source, room_target, state_eq, room_versioned, room_entity, apply}
use hotel_booking.Rooms.Apply.{apply_lem, apply-refused, applied, moved, store_room_ok}

-- The trail of one room, newest first: `get_room_state_history`, reversed.
abbrev pub trail : ℕ → List RoomStateEvent → List RoomStateEvent
trail i = select (λ e. e.room_id == i)

-- The events lead, by declared transitions, from vacant and clean to the state.
abbrev pub IsChain : OperationalState → List RoomStateEvent → Type 0
IsChain s [] = s ≡ OperationalState.vacant_clean
IsChain s (e ∷ es) =
    (e.to_state ≡ s)
    × (e.to_state ≡ room_target e.transition)
    × (e.from_state ≡ room_source e.transition)
    × IsChain e.from_state es

abbrev pub IsTraced : Db → Type 0
IsTraced db =
    (i : ℕ) (room : Room)
    → get_row (λ r. r.id) i db.rooms ≡ some room
    → IsChain room.operational_state (trail i db.room_state_events)

abbrev pub AreRooms : Db → Type 0
AreRooms db = IsKeyed (λ r. r.id) db.rooms × IsTraced db

get_row-id :
    (i : ℕ) (rooms : List Room) (room : Room)
    → get_row (λ r. r.id) i rooms ≡ some room
    → room.id ≡ i
get_row-id i [] room h = ground arith
get_row-id i (r ∷ rooms) room h = ground (arith, get_row-id i rooms room)

applied-AreRooms :
    (t : RoomTransition) (actor : Option ℕ) (room : Room) (db : Db)
    → AreRooms db
    → get_row (λ r. r.id) room.id db.rooms ≡ some room
    → room.operational_state ≡ room_source t
    → AreRooms (applied t actor room db)
applied-AreRooms t actor room db (k, traced) h source = (
  put_row-IsKeyed room_versioned (moved t room) db.rooms k,
  λ i r e. elim (Bool-cases (room.id == i)) [
    | inl here ↦
        ground
          (arith, here, get-put_row (λ r. r.id) i (moved t room) db.rooms, traced i room, h, source)
    | inr away ↦ ground (arith, away, get-put_row (λ r. r.id) i (moved t room) db.rooms, traced i r)
  ],
)

-- What a caller can do to a room that it has just read: a transition, or a save of changed columns
-- outside a workflow.
pub data RoomMove : Type 0 where
  transition : ℕ → RoomTransition → Option ℕ → RoomMove
  save_columns : ℕ → Room → RoomMove

abbrev pub room_of : RoomMove → ℕ
room_of (transition i t actor) = i
room_of (save_columns i columns) = i

unfoldable pub move_row : RoomMove → Option Room → Db → Db
move_row m none db = db
move_row (transition i t actor) (some room) db = (apply t actor (load room_entity room) db).1
move_row (save_columns i columns) (some room) db =
    let row = record columns { id = room.id; version = room.version } in
    (guarded_save room_entity false (record { row = row; original = room.operational_state }) db).1

unfoldable pub perform_move : RoomMove → Db → Db
perform_move m db = move_row m (get_row (λ r. r.id) (room_of m) db.rooms) db

unfoldable pub perform_moves : List RoomMove → Db → Db
perform_moves [] db = db
perform_moves (m ∷ ms) db = perform_moves ms (perform_move m db)

transition-AreRooms :
    (t : RoomTransition) (actor : Option ℕ) (room : Room) (db : Db)
    → AreRooms db
    → get_row (λ r. r.id) room.id db.rooms ≡ some room
    → AreRooms (apply t actor (load room_entity room) db).1
transition-AreRooms t actor room db a h =
    elim (OperationalState-discrete room.operational_state (room_source t)) [
      | yes source ↦
          let (_, _, done) = apply_lem t actor room room db a.0 h in
          rw (done source refl) (applied-AreRooms t actor room db a h source)
      | no other ↦ rw (apply-refused t actor room db other) a
    ]

save-AreRooms :
    (columns room : Room) (db : Db)
    → AreRooms db
    → get_row (λ r. r.id) room.id db.rooms ≡ some room
    → let row = record columns { id = room.id; version = room.version } in
      AreRooms
        (guarded_save room_entity false
          (record { row = row; original = room.operational_state })
          db).1
save-AreRooms columns room db (k, traced) h =
    let row = record columns { id = room.id; version = room.version } in
    let bumped = record row { version = suc room.version } in
    let (rejected, stored) = guarded_save-bypass room_entity room row db in
    elim (Bool-cases (state_eq room.operational_state columns.operational_state)) [
      | inr changed ↦ ground (arith, rejected changed, k, traced)
      | inl same ↦
          let done = stored bumped _ same (store_room_ok row room db k h refl) in
          let alike = (decide_iff OperationalState-discrete _ _).0 same in
          let here : AreRooms (record db { rooms = put_row (λ r. r.id) bumped db.rooms }) = (
            put_row-IsKeyed room_versioned bumped db.rooms k,
            λ i r e. elim (Bool-cases (room.id == i)) [
              | inl this ↦
                  ground (
                    arith,
                    this,
                    get-put_row (λ r. r.id) i bumped db.rooms,
                    traced i room,
                    h,
                    alike,
                  )
              | inr other ↦
                  ground (arith, other, get-put_row (λ r. r.id) i bumped db.rooms, traced i r)
            ],
          ) in
          ground (arith, done, here)
    ]

move_row-AreRooms :
    (m : RoomMove) (found : Option Room) (db : Db)
    → AreRooms db
    → get_row (λ r. r.id) (room_of m) db.rooms ≡ found
    → AreRooms (move_row m found db)
unfolding move_row
move_row-AreRooms m none db a h = a
move_row-AreRooms (transition i t actor) (some room) db a h =
    transition-AreRooms t actor room db a (cc (get_row-id i db.rooms room h, h))
move_row-AreRooms (save_columns i columns) (some room) db a h =
    save-AreRooms columns room db a (cc (get_row-id i db.rooms room h, h))

-- The trail tells the truth: when the rooms' ids are unique and each room's events lead from vacant
-- and clean to its state by declared transitions, then so they do after any sequence of transitions
-- and of saves outside a workflow, the refused ones included.
pub perform_moves-IsTraced :
    (moves : List RoomMove) (db : Db) → AreRooms db → AreRooms (perform_moves moves db)
unfolding perform_moves perform_move
perform_moves-IsTraced [] db a = a
perform_moves-IsTraced (m ∷ ms) db a =
    perform_moves-IsTraced ms (perform_move m db)
      (move_row-AreRooms m (get_row (λ r. r.id) (room_of m) db.rooms) db a refl)
