-- ===== src/Occupancy/Sequence.antt =====
-- Any sequence of calls of the two services.
use hotel_booking.Base.{ℕ, ◌≡◌, Option, List, [], ◌∷◌, arith, Option-cases}
use hotel_booking.Tx.{ok}
use hotel_booking.Tx.Keeps.{Keeps, bind-Keeps}
use hotel_booking.Table.{get_row}
use hotel_booking.Model.{
  Db, Env, Action, Key, RoomTransition, InspectionResult, Response, id_response, window_response,
  Payload, Scope, booking_line_payload, assign_payload, task_payload, inspect_payload,
}
use hotel_booking.Idempotency.{RecordKey}
use hotel_booking.Idempotency
use hotel_booking.Idempotency.Outcome.{run-Keeps}
use hotel_booking.Allocation.{execute_allocate, allocate_line, allocation_of_response}
use hotel_booking.Allocation.Outcome.{execute_allocate_ok}
use hotel_booking.Housekeeping.{
  execute_check_out, check_out_and_create_task, execute_assign, assign, execute_start_cleaning,
  start_cleaning, execute_complete_cleaning, complete_cleaning, execute_inspect, inspect,
  room_verdict, keyed_task, task_of_response,
}
use hotel_booking.Housekeeping.Calls.{
  execute_start_cleaning_ok, execute_complete_cleaning_ok, execute_inspect_ok,
  execute_assign-SameStays, execute_check_out_ok,
}
use hotel_booking.Occupancy.{guests, occupancy, IsHoused}
use hotel_booking.Occupancy.Calls.{
  same-IsHoused, allocated-IsHoused, left-IsHoused, aside-IsHoused, clean-IsAside,
  complete_cleaning-IsAside, room_verdict-IsAside,
}

-- A call with its arguments: the tenant, the line or the task, the key, the actor.
pub data Call : Type 0 where
  allocates : ℕ → ℕ → Key → Option ℕ → Call
  checks_out : ℕ → ℕ → Key → Option ℕ → Call
  assigns : ℕ → ℕ → Option ℕ → Key → Call
  starts : ℕ → ℕ → Key → Option ℕ → Call
  completes : ℕ → ℕ → Key → Option ℕ → Call
  inspects : ℕ → ℕ → InspectionResult → Key → Option ℕ → Option ℕ → Call

-- What a call leaves, whether it returns or raises.
unfoldable pub after_call : Env → Call → Db → Db
after_call env (allocates tenant_id line key actor) db =
    (allocate_line env tenant_id line key actor db).1
after_call env (checks_out tenant_id line key actor) db =
    (check_out_and_create_task env tenant_id line key actor db).1
after_call env (assigns tenant_id task assignee key) db =
    (assign env tenant_id task assignee key db).1
after_call env (starts tenant_id task key actor) db =
    (start_cleaning env tenant_id task key actor db).1
after_call env (completes tenant_id task key actor) db =
    (complete_cleaning env tenant_id task key actor db).1
after_call env (inspects tenant_id task result key inspector actor) db =
    (inspect env tenant_id task result key inspector actor db).1

unfoldable pub after_calls : Env → List Call → Db → Db
after_calls env [] db = db
after_calls env (c ∷ calls) db = after_calls env calls (after_call env c db)

task_of_response-Keeps : (resp : Response) → Keeps IsHoused (task_of_response resp)
task_of_response-Keeps (id_response i) db h =
    ground (arith, h, Option-cases (get_row (λ t. t.id) i db.housekeeping_tasks))
task_of_response-Keeps (window_response _) db h = h

allocation_of_response-Keeps : (resp : Response) → Keeps IsHoused (allocation_of_response resp)
allocation_of_response-Keeps (id_response i) db h =
    ground (arith, h, Option-cases (get_row (λ t. t.id) i db.allocation_records))
allocation_of_response-Keeps (window_response _) db h = h

-- A service of housekeeping keeps what its body keeps when it returns.
keyed_task-Keeps :
    (env : Env) (tenant_id : ℕ) (scope : Scope) (key : Key) (payload : Payload)
    (execute : Action Response)
    → ((db : Db) (resp : Response)
        → IsHoused db
        → (execute db).0 ≡ ok resp
        → IsHoused (execute db).1)
    → Keeps IsHoused (keyed_task env tenant_id scope key payload execute)
unfolding keyed_task
keyed_task-Keeps env tenant_id scope key payload execute keeps =
    let k : RecordKey = record { tenant_id = tenant_id; scope = scope; key = key } in
    bind-Keeps IsHoused (hotel_booking.Idempotency.run env k payload execute) task_of_response
      (run-Keeps IsHoused env k payload execute (λ db xs h. h) keeps) task_of_response-Keeps

after_call-IsHoused :
    (env : Env) (c : Call) (db : Db) → IsHoused db → IsHoused (after_call env c db)
unfolding after_call allocate_line check_out_and_create_task assign start_cleaning complete_cleaning
    inspect
after_call-IsHoused env (allocates tenant_id line key actor) =
    let k : RecordKey = record {
      tenant_id = tenant_id;
      scope = Scope.allocation_allocate_line;
      key = key;
    } in
    bind-Keeps IsHoused
      (hotel_booking.Idempotency.run env k (booking_line_payload line)
        (execute_allocate tenant_id line actor))
      allocation_of_response
      (run-Keeps IsHoused env k (booking_line_payload line) (execute_allocate tenant_id line actor)
        (λ db xs h. h)
        (λ db resp h done.
          let (l, b, r, made) = execute_allocate_ok tenant_id line actor db resp h.0 done in
          allocated-IsHoused tenant_id line db (execute_allocate tenant_id line actor db).1 resp l b
            r h made))
      allocation_of_response-Keeps
after_call-IsHoused env (checks_out tenant_id line key actor) =
    keyed_task-Keeps env tenant_id Scope.housekeeping_check_out_and_create_task key
      (booking_line_payload line) (execute_check_out tenant_id line actor)
      (λ db resp h done.
        let (l, r, left) = execute_check_out_ok tenant_id line actor db resp h.0 done in
        left-IsHoused line db (execute_check_out tenant_id line actor db).1 l r h left)
after_call-IsHoused env (assigns tenant_id task assignee key) =
    keyed_task-Keeps env tenant_id Scope.housekeeping_assign key (assign_payload task assignee)
      (execute_assign task assignee)
      (λ db resp h done.
        same-IsHoused db (execute_assign task assignee db).1 h
          (execute_assign-SameStays task assignee db))
after_call-IsHoused env (starts tenant_id task key actor) =
    keyed_task-Keeps env tenant_id Scope.housekeeping_start_cleaning key (task_payload task)
      (execute_start_cleaning task actor)
      (λ db resp h done.
        let (r, made) = execute_start_cleaning_ok task actor db resp h.0 done in
        aside-IsHoused RoomTransition.clean r db (execute_start_cleaning task actor db).1
          clean-IsAside h made)
after_call-IsHoused env (completes tenant_id task key actor) =
    keyed_task-Keeps env tenant_id Scope.housekeeping_complete_cleaning key (task_payload task)
      (execute_complete_cleaning task actor)
      (λ db resp h done.
        let (r, made) = execute_complete_cleaning_ok task actor db resp h.0 done in
        aside-IsHoused RoomTransition.complete_cleaning r db
          (execute_complete_cleaning task actor db).1 complete_cleaning-IsAside h made)
after_call-IsHoused env (inspects tenant_id task result key inspector actor) =
    keyed_task-Keeps env tenant_id Scope.housekeeping_inspect key (inspect_payload task result)
      (execute_inspect tenant_id task result inspector actor)
      (λ db resp h done.
        let (r, made) = execute_inspect_ok tenant_id task result inspector actor db resp h.0 done in
        aside-IsHoused (room_verdict result) r db
          (execute_inspect tenant_id task result inspector actor db).1 (room_verdict-IsAside result)
          h made)

after_calls-IsHoused :
    (env : Env) (calls : List Call) (db : Db) → IsHoused db → IsHoused (after_calls env calls db)
unfolding after_calls
after_calls-IsHoused env [] db h = h
after_calls-IsHoused env (c ∷ calls) db h =
    after_calls-IsHoused env calls (after_call env c db) (after_call-IsHoused env c db h)

-- Never two guests in one room, and no room occupied for nobody. Where rooms and booking lines have
-- unique ids and each room is in the state occupied and clean exactly when one line is checked in
-- to it (else no line is), the same holds after any sequence of allocations, check-outs,
-- assignments, cleanings and inspections, the failing and the repeated ones included.
pub after_calls-occupancy :
    (env : Env) (calls : List Call) (db : Db) (i : ℕ)
    → IsHoused db
    → let db' = after_calls env calls db in guests i db'.booking_lines ≡ occupancy i db'.rooms
after_calls-occupancy env calls db i h = (after_calls-IsHoused env calls db h).2 i
