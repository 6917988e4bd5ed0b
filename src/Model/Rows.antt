-- ===== src/Model/Rows.antt =====
-- The rows of the tables. `property_id` and the like are foreign keys; a date is its ordinal and a
-- moment is a number of seconds. JSON snapshots stand as the values that they were made from.
use Prim.Native.String.{String}
use hotel_booking.Base.{ℕ, Bool, Option, List}
use hotel_booking.Base.Int.{ℤ}
use hotel_booking.Inventory.{Channel}
use hotel_booking.Pricing.{PriceBreakdown}
use hotel_booking.Model.States.{
  OperationalState, RoomTransition, ReservationStatus, BookingStatus, EntityState, EntityAction,
  EntityType, EventType, TaskStatus, TaskKind, InspectionResult, AllocationReason, PolicyStatus,
  PolicyType,
}

pub record Room : Type 0 where
  pub id : ℕ
  pub tenant_id : ℕ
  pub property_id : ℕ
  pub room_type_id : ℕ
  pub operational_state : OperationalState
  pub current_booking_line_id : Option ℕ
  pub deleted_at : Option ℕ
  pub version : ℕ

pub record RoomStateEvent : Type 0 where
  pub id : ℕ
  pub tenant_id : ℕ
  pub room_id : ℕ
  pub from_state : OperationalState
  pub to_state : OperationalState
  pub transition : RoomTransition
  pub actor : Option ℕ

pub record PriceSnapshot : Type 0 where
  pub currency : ℕ
  pub total_minor_units : ℤ
  pub lines : List PriceBreakdown

pub record Reservation : Type 0 where
  pub id : ℕ
  pub tenant_id : ℕ
  pub property_id : ℕ
  pub guest_profile : Option ℕ
  pub status : ReservationStatus
  pub hold_expiry_at : Option ℕ
  pub price_snapshot : PriceSnapshot
  pub policy_snapshot : ℕ

pub record ReservationLine : Type 0 where
  pub reservation_id : ℕ
  pub line_no : ℕ
  pub room_type_id : ℕ
  pub arrival_date : ℕ
  pub departure_date : ℕ
  pub quantity : ℕ
  pub price_snapshot : PriceBreakdown

pub record Booking : Type 0 where
  pub id : ℕ
  pub tenant_id : ℕ
  pub property_id : ℕ
  pub reservation_id : Option ℕ
  pub guest_profile : Option ℕ
  pub aggregate_status : BookingStatus
  pub currency : ℕ
  pub total_minor_units : ℤ
  pub arrival_date : ℕ
  pub departure_date : ℕ
  pub price_snapshot : PriceSnapshot
  pub policy_snapshot : ℕ

pub record BookingLine : Type 0 where
  pub id : ℕ
  pub booking_id : ℕ
  pub line_no : ℕ
  pub room_type_id : ℕ
  pub room_id : Option ℕ
  pub arrival_date : ℕ
  pub departure_date : ℕ
  pub status : BookingStatus
  pub price_snapshot : PriceBreakdown

-- One candidate's score: was the guest in this room before?
pub record RoomScore : Type 0 where
  pub room_id : ℕ
  pub stay_continuity : Bool

pub record AllocationCriteria : Type 0 where
  pub booking_line_id : ℕ
  pub room_type_id : ℕ
  pub guest_profile_id : Option ℕ
  pub candidate_room_ids : List ℕ

pub record AllocationRecord : Type 0 where
  pub id : ℕ
  pub tenant_id : ℕ
  pub property_id : ℕ
  pub booking_line_id : ℕ
  pub room_id : ℕ
  pub chosen_by : Option ℕ
  pub override : Bool
  pub criteria : AllocationCriteria
  pub scores : List RoomScore
  pub reason : AllocationReason

pub record HousekeepingTask : Type 0 where
  pub id : ℕ
  pub tenant_id : ℕ
  pub property_id : ℕ
  pub room_id : ℕ
  pub booking_line_id : Option ℕ
  pub business_date : ℕ
  pub task_kind : TaskKind
  pub status : TaskStatus
  pub assignee : Option ℕ
  pub version : ℕ

pub record Inspection : Type 0 where
  pub id : ℕ
  pub tenant_id : ℕ
  pub property_id : ℕ
  pub housekeeping_task_id : ℕ
  pub inspector : Option ℕ
  pub result : InspectionResult

-- A JSON value of a rule, and the rules of a policy as a dictionary.
pub data RuleValue : Type 0 where
  truth : Bool → RuleValue
  number : ℕ → RuleValue
  text_value : String → RuleValue
  null_value : RuleValue

abbrev pub Rules : Type 0
Rules = List (String × RuleValue)

pub record Policy : Type 0 where
  pub id : ℕ
  pub tenant_id : ℕ
  pub policy_type : PolicyType
  pub version : Option ℕ
  pub status : PolicyStatus
  pub effective_from : ℕ
  pub effective_to : Option ℕ
  pub rules : Option Rules
  pub property_id : Option ℕ
  pub published_at : Option ℕ

pub record PolicyEvaluationLog : Type 0 where
  pub evaluated_at : ℕ
  pub id : ℕ
  pub tenant_id : ℕ
  pub policy_id : ℕ
  pub context_date : ℕ
  pub context_property_id : Option ℕ
  pub answer : Rules

pub data EventPayload : Type 0 where
  state_change : EntityState → EntityState → EventPayload
  allocation : ℕ → ℕ → AllocationReason → EventPayload

pub data OutboxStatus : Type 0 where
  pending published dead_lettered : OutboxStatus

pub record OutboxEvent : Type 0 where
  pub id : ℕ
  pub event_type : EventType
  pub tenant_id : ℕ
  pub aggregate_type : EntityType
  pub aggregate_id : ℕ
  pub payload : EventPayload
  pub status : OutboxStatus
  pub attempts : ℕ
  pub created_at : ℕ

pub data DomainEventStatus : Type 0 where
  published archived : DomainEventStatus

pub record DomainEvent : Type 0 where
  pub event_id_uuid : ℕ
  pub tenant_id : ℕ
  pub event_type : EventType
  pub aggregate_type : EntityType
  pub aggregate_id : ℕ
  pub occurred_at : ℕ
  pub status : DomainEventStatus
  pub payload : EventPayload

pub record AuditLog : Type 0 where
  pub tenant_id : ℕ
  pub entity_type : EntityType
  pub entity_id : ℕ
  pub action : EntityAction
  pub before : EntityState
  pub after : EntityState
  pub actor : Option ℕ
  pub occurred_at : ℕ

-- The operation that a request payload names as `op`.
pub data InventoryOp : Type 0 where
  sell hold convert_hold_to_sold : InventoryOp

-- The canonical requests that an idempotency key covers.
pub data Payload : Type 0 where
  inventory_payload : InventoryOp → ℕ → ℕ → Channel → ℕ → ℕ → ℕ → Payload
  cancel_payload : ℕ → Payload
  confirm_payload : ℕ → Payload
  booking_line_payload : ℕ → Payload
  assign_payload : ℕ → Option ℕ → Payload
  task_payload : ℕ → Payload
  inspect_payload : ℕ → InspectionResult → Payload

pub data Scope : Type 0 where
  inventory_sell inventory_hold inventory_convert_hold_to_sold : Scope
  reservation_reserve reservation_cancel booking_confirm : Scope
  allocation_allocate_line housekeeping_check_out_and_create_task housekeeping_assign : Scope
  housekeeping_start_cleaning housekeeping_complete_cleaning housekeeping_inspect : Scope

unfoldable pub Scope-discrete : Discrete Scope
Scope-discrete = hlevel

-- A key of a caller, or one that a service derives: f"{key}:line:{n}" and
-- f"reservation:{id}:convert:line:{n}". Each scope uses one form, in which these texts are
-- injective.
pub data Key : Type 0 where
  client : ℕ → Key
  line_key : Key → ℕ → Key
  convert_line_key : ℕ → ℕ → Key

pub data Response : Type 0 where
  window_response : ℕ → Response
  id_response : ℕ → Response

pub data IdempotencyStatus : Type 0 where
  in_progress completed : IdempotencyStatus

pub record IdempotencyRecord : Type 0 where
  pub tenant_id : ℕ
  pub scope : Scope
  pub idempotency_key : Key
  pub request_hash : ℕ
  pub response : Option Response
  pub status : IdempotencyStatus
