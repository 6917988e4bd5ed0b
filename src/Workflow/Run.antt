-- ===== src/Workflow/Run.antt =====
-- `WorkflowRunner.run`: what each branch leaves.
use hotel_booking.Base.{ℕ, suc, ◌≡◌, refl, true, false, Option, none, some, ◌∷◌, arith, Bool-cases}
use hotel_booking.Tx.{Error, ok, err, transition_not_allowed, value_error}
use hotel_booking.Model.{Db, EventType, OutboxEvent, OutboxStatus, AuditLog, state_change}
use hotel_booking.Workflow.{
  Entity, Loaded, load, guarded_save, can_run, publish, record_event, record_audit, run,
}

module _ {Row State Transition : Type 0} (e : Entity Row State Transition) where
  -- The event of a move, as it stands in the outbox.
  abbrev pub event_of : EventType → Row → State → State → Db → OutboxEvent
  event_of event_type row before after db = record {
    id = db.next_id;
    event_type = event_type;
    tenant_id = e.tenant_id row;
    aggregate_type = e.entity_type;
    aggregate_id = e.id row;
    payload = state_change (e.log_state before) (e.log_state after);
    status = OutboxStatus.pending;
    attempts = 0;
    created_at = db.now;
  }

  abbrev pub audit_of : Transition → Option ℕ → Row → State → State → Db → AuditLog
  audit_of name actor row before after db = record {
    tenant_id = e.tenant_id row;
    entity_type = e.entity_type;
    entity_id = e.id row;
    action = e.log_action name;
    before = e.log_state before;
    after = e.log_state after;
    actor = actor;
    occurred_at = db.now;
  }

  abbrev pub with_event : Option EventType → Row → State → State → Db → Db
  with_event none row before after db = db
  with_event (some event_type) row before after db = record db {
    next_id = suc db.next_id;
    outbox = event_of event_type row before after db ∷ db.outbox;
  }

  -- The database after the logs of a move were written.
  abbrev pub logged : Transition → Option ℕ → Row → State → State → Db → Db
  logged name actor row before after db =
      let db' = with_event (e.event name) row before after db in
      record db' { audit = audit_of name actor row before after db ∷ db'.audit }

  pub publish-with_event :
      (o : Option EventType) (row : Row) (before after : State) (db : Db)
      → publish e o row before after db ≡ (ok tt, with_event o row before after db)
  unfolding record_event
  publish-with_event none row before after db = refl
  publish-with_event (some event_type) row before after db = refl

  pub run-refused :
      (name : Transition) (actor : Option ℕ) (instance' : Loaded Row State) (db : Db)
      → can_run e name instance' ≡ false
      → run e name actor instance' db ≡ (err transition_not_allowed, db)
  unfolding run
  run-refused name actor instance' db cannot = ground (arith, cannot)

  pub run-store_error :
      (name : Transition) (actor : Option ℕ) (row : Row) (db : Db) (x : Error)
      → can_run e name (load e row) ≡ true
      → (e.store (e.set_state (e.target name) row) db).0 ≡ err x
      → run e name actor (load e row) db ≡ (err x, db)
  unfolding run guarded_save
  run-store_error name actor row db x can fails = ground (
    arith,
    can,
    fails,
    Bool-cases (e.state_eq (e.state row) (e.state (e.set_state (e.target name) row))),
  )

  pub run-ok :
      (name : Transition) (actor : Option ℕ) (row saved : Row) (db db' : Db)
      → can_run e name (load e row) ≡ true
      → e.store (e.set_state (e.target name) row) db ≡ (ok saved, db')
      → run e name actor (load e row) db
        ≡ (ok (load e saved), logged name actor saved (e.state row) (e.state saved) db')
  unfolding run guarded_save record_audit
  run-ok name actor row saved db db' can done = ground (
    arith,
    can,
    done,
    publish-with_event (e.event name) saved (e.state row) (e.state saved) db',
    Bool-cases (e.state_eq (e.state row) (e.state (e.set_state (e.target name) row))),
  )

  -- A transition of a freshly loaded instance is all or nothing. From a state that is no source of
  -- it, `run` raises `TransitionNotAllowed` and changes nothing. From a source, when storing the
  -- moved row raises, `run` raises the same and the database is as it was; when storing succeeds,
  -- exactly the declared event (if any) and one audit entry are added to what the store left, both
  -- with the state before and the state after.
  pub run_lem :
      (name : Transition) (actor : Option ℕ) (row : Row) (db : Db)
      → let out = run e name actor (load e row) db in
        let (stored, db') = e.store (e.set_state (e.target name) row) db in
        (can_run e name (load e row) ≡ false → out ≡ (err transition_not_allowed, db))
        × ((x : Error) → can_run e name (load e row) ≡ true → stored ≡ err x → out ≡ (err x, db))
        × ((saved : Row)
            → can_run e name (load e row) ≡ true
            → stored ≡ ok saved
            → out ≡ (ok (load e saved), logged name actor saved (e.state row) (e.state saved) db'))
  run_lem name actor row db = (
    run-refused name actor (load e row) db,
    run-store_error name actor row db,
    λ saved can done. run-ok name actor row saved db _ can (ground (arith, done)),
  )

  -- Outside a workflow, a save of an instance whose governed state was changed since it was loaded
  -- raises `ValueError` and changes nothing; when the state is as loaded, the save stores the row.
  pub guarded_save-bypass :
      (row moved : Row) (db : Db)
      → let out = guarded_save e false (record { row = moved; original = e.state row }) db in
        (e.state_eq (e.state row) (e.state moved) ≡ false → out ≡ (err value_error, db))
        × ((saved : Row) (db' : Db)
            → e.state_eq (e.state row) (e.state moved) ≡ true
            → e.store moved db ≡ (ok saved, db')
            → out ≡ (ok (load e saved), db'))
  unfolding guarded_save
  guarded_save-bypass row moved db =
      (λ changed. ground (arith, changed), λ saved db' same done. ground (arith, same, done))
