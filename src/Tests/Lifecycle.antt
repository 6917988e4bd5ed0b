-- ===== src/Tests/Lifecycle.antt =====
-- Runs of the idempotent mutations and of the workflows.
use hotel_booking.Base.{
  ◌≡◌, ◌≢◌, refl, true, false, none, some, [], ◌∷◌, arith, ◌==◌, if◌then◌else◌,
}
use hotel_booking.Tx.{
  Error, ok, err, pure, raise, insufficient_availability, integrity_error, does_not_exist,
  idempotency_key_conflict, transition_not_allowed, concurrency_error,
}
use hotel_booking.Table.{put_row, save}
use hotel_booking.Table.Versions.{save_lem, save-save_stale}
use hotel_booking.Model.{
  Db, Action, empty_db, Room, OperationalState, RoomTransition, Reservation, ReservationLine,
  ReservationStatus, Response, id_response, client, cancel_payload, Scope, PriceSnapshot,
}
use hotel_booking.Idempotency.{RecordKey, find_record}
use hotel_booking.Idempotency
use hotel_booking.Idempotency.Replay.{run-failure, run-integrity_error, run_once, started}
use hotel_booking.Workflow.{load, can_run, run}
use hotel_booking.Workflow.Run.{run_lem, logged}
use hotel_booking.Rooms.{room_entity, room_versioned, room_source, room_target, store_room, apply}
use hotel_booking.Rooms.Apply.{apply_lem, moved, applied}
use hotel_booking.Rooms.History.{
  transition, save_columns, perform_moves, AreRooms, perform_moves-IsTraced,
}
use hotel_booking.Tests.{env}

abbrev cancel_key : RecordKey
cancel_key = record { tenant_id = 1; scope = Scope.reservation_cancel; key = client 5 }

abbrev answer : Action Response
answer = pure (id_response 9)

run_once_example :
    let out = hotel_booking.Idempotency.run env cancel_key (cancel_payload 9) answer empty_db in
    (out.0 ≡ ok (id_response 9))
    × ((payload' : hotel_booking.Model.Payload) (execute' : Action Response)
        → hotel_booking.Idempotency.run env cancel_key payload' execute' out.1 ≡ (
            if env.fingerprint (cancel_payload 9) == env.fingerprint payload'
            then (ok (id_response 9), out.1)
            else (err idempotency_key_conflict, out.1)))
run_once_example =
    run_once env cancel_key (cancel_payload 9) answer empty_db
      (started env cancel_key (cancel_payload 9) empty_db) (id_response 9) refl refl refl

abbrev refuse : Action Response
refuse = raise insufficient_availability

run-failure_example :
    hotel_booking.Idempotency.run env cancel_key (cancel_payload 9) refuse empty_db
    ≡ (err insufficient_availability, empty_db)
run-failure_example =
    run-failure env cancel_key (cancel_payload 9) refuse empty_db insufficient_availability refl
      refl (λ e. cc)

abbrev collide : Action Response
collide = raise integrity_error

run-integrity_error_example :
    hotel_booking.Idempotency.run env cancel_key (cancel_payload 9) collide empty_db
    ≡ (err does_not_exist, empty_db)
run-integrity_error_example =
    run-integrity_error env cancel_key (cancel_payload 9) collide empty_db refl refl

abbrev room_101 : Room
room_101 = record {
  id = 101;
  tenant_id = 1;
  property_id = 2;
  room_type_id = 3;
  operational_state = OperationalState.vacant_clean;
  current_booking_line_id = none;
  deleted_at = none;
  version = 4;
}

abbrev room_102 : Room
room_102 = record room_101 { id = 102 }

abbrev rooms_db : Db
rooms_db = record empty_db { rooms = room_101 ∷ room_102 ∷ [] }

rooms-AreRooms : AreRooms rooms_db
rooms-AreRooms = ((refl, (refl, tt)), λ i room h. ground arith)

perform_moves-IsTraced_example : AreRooms (
    perform_moves
      (transition 101 RoomTransition.allocate none
        ∷ transition 101 RoomTransition.checkout (some 7)
        ∷ transition 102 RoomTransition.clean none
        ∷ save_columns 101 (record room_101 { operational_state = OperationalState.vacant_dirty })
        ∷ transition 101 RoomTransition.clean none
        ∷ [])
      rooms_db)
perform_moves-IsTraced_example =
    perform_moves-IsTraced
      (transition 101 RoomTransition.allocate none
        ∷ transition 101 RoomTransition.checkout (some 7)
        ∷ transition 102 RoomTransition.clean none
        ∷ save_columns 101 (record room_101 { operational_state = OperationalState.vacant_dirty })
        ∷ transition 101 RoomTransition.clean none
        ∷ [])
      rooms_db rooms-AreRooms

apply_lem_example :
    let t = RoomTransition.allocate in
    let out = apply t (some 7) (load room_entity room_101) rooms_db in
    (OperationalState.vacant_clean ≢ room_source t → out ≡ (err transition_not_allowed, rooms_db))
    × (OperationalState.vacant_clean ≡ room_source t
        → room_101.version ≢ room_101.version
        → out ≡ (err concurrency_error, rooms_db))
    × (OperationalState.vacant_clean ≡ room_source t
        → room_101.version ≡ room_101.version
        → out ≡ (ok (load room_entity (moved t room_101)), applied t (some 7) room_101 rooms_db))
apply_lem_example =
    apply_lem RoomTransition.allocate (some 7) room_101 room_101 rooms_db (refl, (refl, tt)) refl

run_lem_example :
    let t = RoomTransition.allocate in
    let out = run room_entity t none (load room_entity room_101) rooms_db in
    let (stored, db') =
      store_room (record room_101 { operational_state = room_target t }) rooms_db in
    (can_run room_entity t (load room_entity room_101) ≡ false
      → out ≡ (err transition_not_allowed, rooms_db))
    × ((x : Error)
        → can_run room_entity t (load room_entity room_101) ≡ true
        → stored ≡ err x
        → out ≡ (err x, rooms_db))
    × ((saved : Room)
        → can_run room_entity t (load room_entity room_101) ≡ true
        → stored ≡ ok saved
        → out ≡ (
          ok (load room_entity saved),
          logged room_entity t none saved OperationalState.vacant_clean saved.operational_state db',
        ))
run_lem_example = run_lem room_entity RoomTransition.allocate none room_101 rooms_db

abbrev stale_101 : Room
stale_101 = record room_101 { version = 3 }

save_lem_example :
    let (r, bumped, rows') = save room_versioned room_101 rooms_db.rooms in
    (bumped ≡ record room_101 { version = 5 })
    × (room_101.version ≡ room_101.version
        → (r ≡ ok tt) × (rows' ≡ put_row (λ x. x.id) bumped rooms_db.rooms))
    × (room_101.version ≢ room_101.version → (r ≡ err concurrency_error) × (rows' ≡ rooms_db.rooms))
save_lem_example = save_lem room_versioned room_101 room_101 rooms_db.rooms (refl, (refl, tt)) refl

save-save_stale_example :
    let (r, bumped, rows') = save room_versioned stale_101 rooms_db.rooms in
    let (r2, twice, rows2) = save room_versioned bumped rows' in
    (r ≡ err concurrency_error) × (r2 ≡ ok tt) × (rows2 ≡ put_row (λ x. x.id) twice rooms_db.rooms)
save-save_stale_example =
    save-save_stale room_versioned stale_101 room_101 rooms_db.rooms (refl, (refl, tt)) refl refl
