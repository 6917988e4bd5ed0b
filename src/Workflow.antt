-- ===== src/Workflow.antt =====
-- apps/shared/workflows/runner.py, apps/shared/workflows/context.py, `WorkflowStateGuardMixin` of
-- apps/shared/models/mixins.py, and the writers of the two logs: `OutboxService` of
-- apps/shared/services/outbox.py and `AuditService` of apps/shared/services/audit.py. Whether a
-- workflow is active is an argument of the guarded save, in place of the thread-local flag.
pub mod Run
use hotel_booking.Base.{
  ℕ, Bool, true, false, ◌&&◌, ◌||◌, not, Option, none, some, List, [], ◌∷◌, if◌then◌else◌,
}
use hotel_booking.Tx.{
  ok, err, transition_not_allowed, value_error, pure, raise_if, gets, modify, atomic, ◌>>=◌, ◌>>◌,
}
use hotel_booking.Model.{
  Db, Action, new_id, EntityType, EntityState, EntityAction, EventType, EventPayload, state_change,
  OutboxEvent, OutboxStatus, AuditLog,
}

-- An instance in memory: its columns, and the guarded value that the mixin's `__init__` (or its
-- last save) noted.
pub record Loaded (Row State : Type 0) : Type 0 where
  pub row : Row
  pub original : State

-- A model with a workflow-governed field: its declared transitions, and how it is stored.
pub record Entity (Row State Transition : Type 0) : Type 0 where
  pub entity_type : EntityType
  pub id : Row → ℕ
  pub tenant_id : Row → ℕ
  pub state : Row → State
  pub set_state : State → Row → Row
  pub state_eq : State → State → Bool
  pub sources : Transition → List State
  pub target : Transition → State
  pub event : Transition → Option EventType
  pub log_state : State → EntityState
  pub log_action : Transition → EntityAction
  pub store : Row → Action Row

-- `OutboxService.record_event`
unfoldable pub record_event : EventType → ℕ → EntityType → ℕ → EventPayload → Action (Unit {0})
record_event event_type tenant_id aggregate_type aggregate_id payload = do
  i ← new_id
  modify λ db. record db {
    outbox =
        record {
          id = i;
          event_type = event_type;
          tenant_id = tenant_id;
          aggregate_type = aggregate_type;
          aggregate_id = aggregate_id;
          payload = payload;
          status = OutboxStatus.pending;
          attempts = 0;
          created_at = db.now;
        }
        ∷ db.outbox;
  }

-- `AuditService.record`
unfoldable pub record_audit :
    ℕ → EntityType → ℕ → EntityAction → EntityState → EntityState → Option ℕ → Action (Unit {0})
record_audit tenant_id entity_type entity_id action before after actor = modify λ db. record db {
  audit =
      record {
        tenant_id = tenant_id;
        entity_type = entity_type;
        entity_id = entity_id;
        action = action;
        before = before;
        after = after;
        actor = actor;
        occurred_at = db.now;
      }
      ∷ db.audit;
}

module _ {Row State Transition : Type 0} (e : Entity Row State Transition) where
  abbrev pub load : Row → Loaded Row State
  load row = record { row = row; original = e.state row }

  -- `WorkflowStateGuardMixin.save` of an instance that has a primary key, as each of the program's
  -- workflow instances has: they were loaded or created before.
  unfoldable pub guarded_save : Bool → Loaded Row State → Action (Loaded Row State)
  guarded_save is_workflow_active instance' = do
    raise_if (not (e.state_eq instance'.original (e.state instance'.row)) && not is_workflow_active)
        value_error
    saved ← e.store instance'.row
    pure (load saved)

  -- Is the state among the sources of a transition?
  unfoldable pub among : State → List State → Bool
  among s [] = false
  among s (x ∷ xs) = e.state_eq s x || among s xs

  -- `can_run`: no transition of the program declares a guard or a permission.
  abbrev pub can_run : Transition → Loaded Row State → Bool
  can_run name instance' = among (e.state instance'.row) (e.sources name)

  abbrev pub publish : Option EventType → Row → State → State → Action (Unit {0})
  publish none row before after = pure tt
  publish (some event_type) row before after =
      record_event event_type (e.tenant_id row) e.entity_type (e.id row)
        (state_change (e.log_state before) (e.log_state after))

  -- `WorkflowRunner.run`
  unfoldable pub run : Transition → Option ℕ → Loaded Row State → Action (Loaded Row State)
  unfolding record_event record_audit
  run name actor instance' = do
    raise_if (not (can_run name instance')) transition_not_allowed
    atomic do
      let before = e.state instance'.row
      let moved = record instance' { row = e.set_state (e.target name) instance'.row }
      saved ← guarded_save true moved
      let after = e.state saved.row
      publish (e.event name) saved.row before after
      record_audit (e.tenant_id saved.row) e.entity_type (e.id saved.row) (e.log_action name)
          (e.log_state before) (e.log_state after) actor
      pure saved
