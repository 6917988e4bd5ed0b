-- ===== src/Model/States.antt =====
-- The closed sets of statuses (`TextChoices`) and the names of the declared transitions:
-- apps/rooms/models.py, apps/reservations/models.py, apps/bookings/models.py and
-- apps/housekeeping/models.py. Behind them, the vocabulary of the event and audit logs.

-- Room.OperationalState
pub data OperationalState : Type 0 where
  vacant_clean vacant_dirty occupied_clean occupied_dirty : OperationalState
  out_of_service out_of_order cleaning inspected : OperationalState

pub data RoomTransition : Type 0 where
  allocate service service_complete checkout clean complete_cleaning approve reject : RoomTransition
  defect maintenance restore restore_direct : RoomTransition

pub data ReservationStatus : Type 0 where
  draft held awaiting_payment converted expired cancelled : ReservationStatus

pub data ReservationTransition : Type 0 where
  hold request_payment expire cancel convert : ReservationTransition

pub data BookingStatus : Type 0 where
  inquiry quote pending_payment confirmed checked_in in_house : BookingStatus
  checked_out completed cancelled no_show early_departure : BookingStatus

pub data BookingTransition : Type 0 where
  confirm : BookingTransition

pub data TaskStatus : Type 0 where
  planned assigned in_progress quality_check verified defect : TaskStatus

pub data TaskTransition : Type 0 where
  assign start_cleaning complete_cleaning pass_inspection fail_inspection : TaskTransition

pub data TaskKind : Type 0 where
  departure daily defect deep_clean : TaskKind

pub data InspectionResult : Type 0 where
  pass fail : InspectionResult

-- apps/policies/models.py
pub data PolicyStatus : Type 0 where
  draft published retired : PolicyStatus

pub data PolicyType : Type 0 where
  cancellation refund deposit check_in check_out cleaning pricing : PolicyType

-- `AllocationDecision.reason_for`
pub data AllocationReason : Type 0 where
  stay_continuity_reason tie_break_reason : AllocationReason

unfoldable pub OperationalState-discrete : Discrete OperationalState
OperationalState-discrete = hlevel

unfoldable pub ReservationStatus-discrete : Discrete ReservationStatus
ReservationStatus-discrete = hlevel

unfoldable pub BookingStatus-discrete : Discrete BookingStatus
BookingStatus-discrete = hlevel

unfoldable pub TaskStatus-discrete : Discrete TaskStatus
TaskStatus-discrete = hlevel

unfoldable pub TaskKind-discrete : Discrete TaskKind
TaskKind-discrete = hlevel

unfoldable pub PolicyStatus-discrete : Discrete PolicyStatus
PolicyStatus-discrete = hlevel

unfoldable pub PolicyType-discrete : Discrete PolicyType
PolicyType-discrete = hlevel

-- A state or an action of some entity, as the logs record it.
pub data EntityState : Type 0 where
  room_state : OperationalState → EntityState
  reservation_state : ReservationStatus → EntityState
  booking_state : BookingStatus → EntityState
  task_state : TaskStatus → EntityState

pub data EntityAction : Type 0 where
  room_action : RoomTransition → EntityAction
  reservation_action : ReservationTransition → EntityAction
  booking_action : BookingTransition → EntityAction
  task_action : TaskTransition → EntityAction

pub data EntityType : Type 0 where
  room reservation booking housekeepingtask allocationrecord rateplan : EntityType

pub data EventType : Type 0 where
  room_state_changed room_allocated : EventType
  reservation_created reservation_expired reservation_converted : EventType
  booking_confirmed hk_task_completed hk_defect_reported rate_changed : EventType
