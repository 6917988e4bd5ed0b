-- ===== src/Housekeeping.antt =====
-- apps/housekeeping/models.py and apps/housekeeping/services.py: check-out, cleaning and inspection.
-- A task's own state machine moves together with that of its room.
pub mod Calls
pub mod Moves
use hotel_booking.Base.{
  ℕ, ◌≡◌, refl, Bool, true, false, ◌&&◌, ◌||◌, not, Option, none, some, List, [], ◌∷◌, ◌==◌,
  if◌then◌else◌, decide,
}
use hotel_booking.Tx.{
  ok, err, task_not_transitionable, does_not_exist, integrity_error, key_error, pure, raise,
  raise_if, gets, modify, from_option, ◌>>=◌, ◌>>◌,
}
use hotel_booking.Table.{get_row, Versioned, save}
use hotel_booking.Model.{
  Db, Env, Action, new_id, today, Room, RoomTransition, BookingLine, BookingStatus,
  HousekeepingTask, Inspection, InspectionResult, pass, fail, TaskStatus, TaskStatus-discrete,
  TaskTransition, TaskKind, TaskKind-discrete, EntityType, EventType, task_state, task_action, Key,
  Response, id_response, Scope, Payload, booking_line_payload, assign_payload, task_payload,
  inspect_payload,
}
use hotel_booking.Workflow.{Entity, Loaded, load, run}
use hotel_booking.Rooms.{room_entity, apply}
use hotel_booking.Allocation.{line_status_eq, get_booking_line, get_booking, get_room, save_line}

-- The `source` and `target` of the declared transitions.
unfoldable pub task_sources : TaskTransition → List TaskStatus
task_sources TaskTransition.assign = TaskStatus.planned ∷ []
task_sources TaskTransition.start_cleaning = TaskStatus.planned ∷ TaskStatus.assigned ∷ []
task_sources TaskTransition.complete_cleaning = TaskStatus.in_progress ∷ []
task_sources TaskTransition.pass_inspection = TaskStatus.quality_check ∷ []
task_sources TaskTransition.fail_inspection = TaskStatus.quality_check ∷ []

unfoldable pub task_target : TaskTransition → TaskStatus
task_target TaskTransition.assign = TaskStatus.assigned
task_target TaskTransition.start_cleaning = TaskStatus.in_progress
task_target TaskTransition.complete_cleaning = TaskStatus.quality_check
task_target TaskTransition.pass_inspection = TaskStatus.verified
task_target TaskTransition.fail_inspection = TaskStatus.defect

unfoldable pub task_event : TaskTransition → Option EventType
task_event TaskTransition.complete_cleaning = some EventType.hk_task_completed
task_event TaskTransition.fail_inspection = some EventType.hk_defect_reported
task_event _ = none

abbrev pub task_status_eq : TaskStatus → TaskStatus → Bool
task_status_eq a b = decide (TaskStatus-discrete a b)

abbrev pub task_versioned : Versioned HousekeepingTask
task_versioned = record {
  id = λ r. r.id;
  version = λ r. r.version;
  set_version = λ n r. record r { version = n };
  id-set_version = λ n r. refl;
  version-set_version = λ n r. refl;
}

-- `VersionedMixin.save` on the table of tasks
abbrev pub store_task : HousekeepingTask → Action HousekeepingTask
store_task row db =
    let (r, bumped, tasks) = save task_versioned row db.housekeeping_tasks in
    elim r [ ok _ ↦ (ok bumped, record db { housekeeping_tasks = tasks }) | err e ↦ (err e, db) ]

abbrev pub task_entity : Entity HousekeepingTask TaskStatus TaskTransition
task_entity = record {
  entity_type = EntityType.housekeepingtask;
  id = λ r. r.id;
  tenant_id = λ r. r.tenant_id;
  state = λ r. r.status;
  set_state = λ s r. record r { status = s };
  state_eq = task_status_eq;
  sources = task_sources;
  target = task_target;
  event = task_event;
  log_state = task_state;
  log_action = task_action;
  store = store_task;
}

-- `HousekeepingTask.objects.get(pk=…)`
abbrev pub get_task : ℕ → Action HousekeepingTask
get_task i = do
  found ← gets (λ db. get_row (λ t. t.id) i db.housekeeping_tasks)
  from_option does_not_exist found

abbrev pub same_slot : HousekeepingTask → HousekeepingTask → Bool
same_slot a b =
    a.room_id == b.room_id
    && (a.business_date == b.business_date && decide (TaskKind-discrete a.task_kind b.task_kind))

-- The UNIQUE of room, business date and kind.
unfoldable pub is_planned : HousekeepingTask → List HousekeepingTask → Bool
is_planned task [] = false
is_planned task (t ∷ ts) = same_slot t task || is_planned task ts

-- `HousekeepingTask.objects.create(…)`
unfoldable pub create_task : ℕ → ℕ → ℕ → ℕ → Action HousekeepingTask
create_task tenant_id property_id room_id booking_line_id = do
  i ← new_id
  business_date ← gets today
  let row : HousekeepingTask = record {
    id = i;
    tenant_id = tenant_id;
    property_id = property_id;
    room_id = room_id;
    booking_line_id = some booking_line_id;
    business_date = business_date;
    task_kind = TaskKind.departure;
    status = TaskStatus.planned;
    assignee = none;
    version = 0;
  }
  planned ← gets (λ db. is_planned row db.housekeeping_tasks)
  raise_if planned integrity_error
  modify λ db. record db { housekeeping_tasks = row ∷ db.housekeeping_tasks }
  pure row

-- The room moves, then the line, then the task is opened.
unfoldable pub check_out : ℕ → BookingLine → Room → Option ℕ → Action Response
check_out tenant_id line room actor = do
  _ ← apply RoomTransition.checkout actor (load room_entity room)
  save_line (record line { status = BookingStatus.checked_out })
  booking ← get_booking line.booking_id
  task ← create_task tenant_id booking.property_id room.id line.id
  pure (id_response task.id)

unfoldable pub execute_check_out : ℕ → ℕ → Option ℕ → Action Response
execute_check_out tenant_id booking_line_id actor = do
  line ← get_booking_line booking_line_id
  raise_if (not (line_status_eq line.status BookingStatus.checked_in)) task_not_transitionable
  room_id ← from_option task_not_transitionable line.room_id
  room ← get_room room_id
  check_out tenant_id line room actor

-- `HousekeepingTask.objects.get(pk=response["task_id"])`
abbrev pub task_of_response : Response → Action HousekeepingTask
task_of_response (id_response i) = get_task i
task_of_response _ = raise key_error

-- The frame of the service's methods: a keyed mutation, then the task of its response.
unfoldable pub keyed_task :
    Env → ℕ → Scope → Key → Payload → Action Response → Action HousekeepingTask
keyed_task env tenant_id scope idempotency_key payload execute = do
  response ←
      hotel_booking.Idempotency.run env
        (record { tenant_id = tenant_id; scope = scope; key = idempotency_key }) payload execute
  task_of_response response

unfoldable pub check_out_and_create_task : Env → ℕ → ℕ → Key → Option ℕ → Action HousekeepingTask
check_out_and_create_task env tenant_id booking_line_id idempotency_key actor =
    keyed_task env tenant_id Scope.housekeeping_check_out_and_create_task idempotency_key
      (booking_line_payload booking_line_id) (execute_check_out tenant_id booking_line_id actor)

-- `WorkflowRunner(task, field="status").run(…)`
abbrev pub run_task : TaskTransition → HousekeepingTask → HousekeepingTask → Action Response
run_task t loaded task = do
  _ ← run task_entity t none (record { row = task; original = loaded.status })
  pure (id_response task.id)

unfoldable pub execute_assign : ℕ → Option ℕ → Action Response
execute_assign task_id assignee = do
  task ← get_task task_id
  run_task TaskTransition.assign task (record task { assignee = assignee })

unfoldable pub assign : Env → ℕ → ℕ → Option ℕ → Key → Action HousekeepingTask
assign env tenant_id task_id assignee idempotency_key =
    keyed_task env tenant_id Scope.housekeeping_assign idempotency_key
      (assign_payload task_id assignee) (execute_assign task_id assignee)

-- A room's transition and its task's, in this order.
unfoldable pub move_both :
    RoomTransition → TaskTransition → Option ℕ → HousekeepingTask → Room → Action Response
move_both room_transition task_transition actor task room = do
  _ ← apply room_transition actor (load room_entity room)
  run_task task_transition task task

unfoldable pub execute_start_cleaning : ℕ → Option ℕ → Action Response
execute_start_cleaning task_id actor = do
  task ← get_task task_id
  room ← get_room task.room_id
  raise_if
      (not (
        task_status_eq task.status TaskStatus.planned
        || task_status_eq task.status TaskStatus.assigned))
      task_not_transitionable
  move_both RoomTransition.clean TaskTransition.start_cleaning actor task room

unfoldable pub start_cleaning : Env → ℕ → ℕ → Key → Option ℕ → Action HousekeepingTask
start_cleaning env tenant_id task_id idempotency_key actor =
    keyed_task env tenant_id Scope.housekeeping_start_cleaning idempotency_key
      (task_payload task_id) (execute_start_cleaning task_id actor)

unfoldable pub execute_complete_cleaning : ℕ → Option ℕ → Action Response
execute_complete_cleaning task_id actor = do
  task ← get_task task_id
  room ← get_room task.room_id
  raise_if (not (task_status_eq task.status TaskStatus.in_progress)) task_not_transitionable
  move_both RoomTransition.complete_cleaning TaskTransition.complete_cleaning actor task room

unfoldable pub complete_cleaning : Env → ℕ → ℕ → Key → Option ℕ → Action HousekeepingTask
complete_cleaning env tenant_id task_id idempotency_key actor =
    keyed_task env tenant_id Scope.housekeeping_complete_cleaning idempotency_key
      (task_payload task_id) (execute_complete_cleaning task_id actor)

-- The UNIQUE of the inspections: one verdict for a task, ever.
unfoldable pub is_inspected : ℕ → List Inspection → Bool
is_inspected task_id [] = false
is_inspected task_id (r ∷ rs) = r.housekeeping_task_id == task_id || is_inspected task_id rs

-- `Inspection.objects.create(…)`
unfoldable pub create_inspection :
    ℕ → HousekeepingTask → Option ℕ → InspectionResult → Action (Unit {0})
create_inspection tenant_id task inspector result = do
  i ← new_id
  inspected ← gets (λ db. is_inspected task.id db.inspections)
  raise_if inspected integrity_error
  modify λ db. record db {
    inspections =
        record {
          id = i;
          tenant_id = tenant_id;
          property_id = task.property_id;
          housekeeping_task_id = task.id;
          inspector = inspector;
          result = result;
        }
        ∷ db.inspections;
  }

abbrev pub room_verdict : InspectionResult → RoomTransition
room_verdict pass = RoomTransition.approve
room_verdict fail = RoomTransition.reject

abbrev pub task_verdict : InspectionResult → TaskTransition
task_verdict pass = TaskTransition.pass_inspection
task_verdict fail = TaskTransition.fail_inspection

unfoldable pub execute_inspect : ℕ → ℕ → InspectionResult → Option ℕ → Option ℕ → Action Response
execute_inspect tenant_id task_id result inspector actor = do
  task ← get_task task_id
  room ← get_room task.room_id
  raise_if (not (task_status_eq task.status TaskStatus.quality_check)) task_not_transitionable
  create_inspection tenant_id task inspector result
  move_both (room_verdict result) (task_verdict result) actor task room

-- The test that `result` is 'pass' or 'fail' is its type here.
unfoldable pub inspect :
    Env → ℕ → ℕ → InspectionResult → Key → Option ℕ → Option ℕ → Action HousekeepingTask
inspect env tenant_id task_id result idempotency_key inspector actor =
    keyed_task env tenant_id Scope.housekeeping_inspect idempotency_key
      (inspect_payload task_id result) (execute_inspect tenant_id task_id result inspector actor)
