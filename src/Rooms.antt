-- ===== src/Rooms.antt =====
-- apps/rooms/models.py and apps/rooms/services.py: the operational state machine of a room, its
-- guarded and versioned save, and `RoomStateMachine.apply`.
pub mod Apply
pub mod History
use hotel_booking.Base.{
  ℕ, ◌≡◌, refl, Bool, true, false, ◌&&◌, not, Option, none, some, List, [], ◌∷◌, ◌==◌,
  if◌then◌else◌, select, decide,
}
use hotel_booking.Tx.{ok, err, pure, gets, modify, atomic, ◌>>=◌, ◌>>◌}
use hotel_booking.Table.{Versioned, save}
use hotel_booking.Model.{
  Db, Action, new_id, Room, RoomStateEvent, OperationalState, OperationalState-discrete,
  RoomTransition, EntityType, EventType, room_state, room_action,
}
use hotel_booking.Workflow.{Entity, Loaded, load, run}

-- The `source` and `target` of the declared transitions.
unfoldable pub room_source : RoomTransition → OperationalState
room_source RoomTransition.allocate = OperationalState.vacant_clean
room_source RoomTransition.service = OperationalState.occupied_clean
room_source RoomTransition.service_complete = OperationalState.occupied_dirty
room_source RoomTransition.checkout = OperationalState.occupied_clean
room_source RoomTransition.clean = OperationalState.vacant_dirty
room_source RoomTransition.complete_cleaning = OperationalState.cleaning
room_source RoomTransition.approve = OperationalState.inspected
room_source RoomTransition.reject = OperationalState.inspected
room_source RoomTransition.defect = OperationalState.vacant_clean
room_source RoomTransition.maintenance = OperationalState.occupied_clean
room_source RoomTransition.restore = OperationalState.out_of_service
room_source RoomTransition.restore_direct = OperationalState.out_of_order

unfoldable pub room_target : RoomTransition → OperationalState
room_target RoomTransition.allocate = OperationalState.occupied_clean
room_target RoomTransition.service = OperationalState.occupied_dirty
room_target RoomTransition.service_complete = OperationalState.occupied_clean
room_target RoomTransition.checkout = OperationalState.vacant_dirty
room_target RoomTransition.clean = OperationalState.cleaning
room_target RoomTransition.complete_cleaning = OperationalState.inspected
room_target RoomTransition.approve = OperationalState.vacant_clean
room_target RoomTransition.reject = OperationalState.cleaning
room_target RoomTransition.defect = OperationalState.out_of_service
room_target RoomTransition.maintenance = OperationalState.out_of_order
room_target RoomTransition.restore = OperationalState.cleaning
room_target RoomTransition.restore_direct = OperationalState.vacant_clean

abbrev pub state_eq : OperationalState → OperationalState → Bool
state_eq a b = decide (OperationalState-discrete a b)

abbrev pub room_versioned : Versioned Room
room_versioned = record {
  id = λ r. r.id;
  version = λ r. r.version;
  set_version = λ n r. record r { version = n };
  id-set_version = λ n r. refl;
  version-set_version = λ n r. refl;
}

-- `VersionedMixin.save` on the table of rooms
abbrev pub store_room : Room → Action Room
store_room row db =
    let (r, bumped, rooms) = save room_versioned row db.rooms in
    elim r [ ok _ ↦ (ok bumped, record db { rooms = rooms }) | err e ↦ (err e, db) ]

abbrev pub room_entity : Entity Room OperationalState RoomTransition
room_entity = record {
  entity_type = EntityType.room;
  id = λ r. r.id;
  tenant_id = λ r. r.tenant_id;
  state = λ r. r.operational_state;
  set_state = λ s r. record r { operational_state = s };
  state_eq = state_eq;
  sources = λ t. room_source t ∷ [];
  target = room_target;
  event = λ t. some EventType.room_state_changed;
  log_state = room_state;
  log_action = room_action;
  store = store_room;
}

-- `RoomStateEvent.objects.create(…)`
unfoldable pub create_state_event :
    Room → OperationalState → OperationalState → RoomTransition → Option ℕ → Action (Unit {0})
create_state_event room from_state to_state transition actor = do
  i ← new_id
  modify λ db. record db {
    room_state_events =
        record {
          id = i;
          tenant_id = room.tenant_id;
          room_id = room.id;
          from_state = from_state;
          to_state = to_state;
          transition = transition;
          actor = actor;
        }
        ∷ db.room_state_events;
  }

abbrev pub unless_same : OperationalState → OperationalState → Action (Unit {0}) → Action (Unit {0})
unless_same before after m = if state_eq before after then pure tt else m

-- `RoomStateMachine.apply`
unfoldable pub apply :
    RoomTransition → Option ℕ → Loaded Room OperationalState → Action (Loaded Room OperationalState)
unfolding create_state_event
apply transition actor room = atomic do
  let before_state = room.row.operational_state
  updated ← run room_entity transition actor room
  let after_state = updated.row.operational_state
  unless_same before_state after_state
      (create_state_event updated.row before_state after_state transition actor)
  pure updated

abbrev is_active_row : Room → Bool
is_active_row r = elim r.deleted_at [ none ↦ true | some _ ↦ false ]

-- `RoomQuery.vacant_clean_candidates`
unfoldable pub vacant_clean_candidates : ℕ → ℕ → List Room → List Room
vacant_clean_candidates room_type_id property_id = select (λ r.
    r.room_type_id == room_type_id
    && (r.property_id == property_id
        && (state_eq r.operational_state OperationalState.vacant_clean && is_active_row r)))
