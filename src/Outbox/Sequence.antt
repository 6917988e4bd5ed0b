-- ===== src/Outbox/Sequence.antt =====
-- The outbox and the log under any sequence of recorded events and batches of the relay.
use mathlib.Core.Path.{subst}
use hotel_booking.Base.{
  sym, ℕ, suc, ◌≤◌, ◌<◌, ◌≡◌, refl, false, ◌&&◌, Option, none, List, [], ◌∷◌, arith, leb, ◌==◌, All,
  inl, inr, Bool-cases, Option-cases, find?,
}
use hotel_booking.Tx.{Error}
use hotel_booking.Model.{
  Db, OutboxEvent, OutboxStatus, DomainEvent, EventType, EntityType, EventPayload,
}
use hotel_booking.Workflow.{record_event}
use hotel_booking.Outbox.{
  OutboxRelay, is_pending, has_key, domain_event_of, get_or_create, publish, publish_all,
  pending_rows, publish_batch, count_attempt,
}
use hotel_booking.Outbox.Rows.{conditional_update-All, pending_rows-All}
use hotel_booking.Outbox.Delivery.{
  deliveries, due, IsConsistent, publish_ok, publish_err, publish_batch-IsConsistent,
}

-- A recorded event, or a batch of a relay with its own limit and failures.
pub data Step : Type 0 where
  recorded : EventType → ℕ → EntityType → ℕ → EventPayload → Step
  relayed : ℕ → (OutboxEvent → Option Error) → ℕ → Step

get_or_create-All :
    (P : DomainEvent → Type 0) (relay : OutboxRelay) (row : OutboxEvent) (events : List DomainEvent)
    → P (domain_event_of relay row)
    → All P events
    → All P (get_or_create relay row events)
unfolding get_or_create
get_or_create-All P relay row events p h =
    let made = get_or_create relay row events in
    elim (Option-cases (find? (has_key relay row) events)) [
      | inl new ↦
          let at : made ≡ domain_event_of relay row ∷ events = ground (arith, new) in
          subst (All P) (sym at) (p, h)
      | inr (e, there) ↦ let at : made ≡ events = ground (arith, there) in subst (All P) (sym at) h
    ]

module _ (stable_event_id : ℕ → ℕ) where
  abbrev pub relay_of : ℕ → (OutboxEvent → Option Error) → OutboxRelay
  relay_of max_attempts failure = record {
    max_attempts = max_attempts;
    stable_event_id = stable_event_id;
    failure = failure;
  }

  abbrev pub after_step : Step → Db → Db
  after_step (recorded event_type tenant_id aggregate_type aggregate_id payload) db =
      (record_event event_type tenant_id aggregate_type aggregate_id payload db).1
  after_step (relayed max_attempts failure batch_size) db =
      (publish_batch (relay_of max_attempts failure) batch_size db).1

  abbrev pub after_steps : List Step → Db → Db
  after_steps [] db = db
  after_steps (s ∷ steps) db = after_steps steps (after_step s db)

  -- Ids from `n` on are free.
  abbrev IsOld : ℕ → DomainEvent → Type 0
  IsOld n e = (i : ℕ) → n ≤ i → (e.event_id_uuid == stable_event_id i) ≡ false

  abbrev IsFresh : Db → Type 0
  IsFresh db = All (λ r. r.id < db.next_id) db.outbox × All (IsOld db.next_id) db.domain_events

  old-deliveries :
      (m : ℕ) (failure : OutboxEvent → Option Error) (row : OutboxEvent) (events : List DomainEvent)
      → All (IsOld row.id) events
      → deliveries (relay_of m failure) row events ≡ []
  old-deliveries m failure row [] h = refl
  old-deliveries m failure row (e ∷ events) h =
      ground (arith, h.0 row.id (omega arith), old-deliveries m failure row events h.1)

  publish-IsFresh :
      (m : ℕ) (failure : OutboxEvent → Option Error) (row : OutboxEvent) (db : Db)
      → ((i j : ℕ) → stable_event_id i ≡ stable_event_id j → i ≡ j)
      → row.id < db.next_id
      → IsFresh db
      → IsFresh (publish (relay_of m failure) row db).1
        × ((publish (relay_of m failure) row db).1.next_id ≡ db.next_id)
  publish-IsFresh m failure row db injective below (rows, events) =
      let P = λ (r : OutboxEvent). r.id < db.next_id in
      let counted =
        conditional_update-All P (λ r. r.id == row.id) (λ r. record r { attempts = suc r.attempts })
          db.outbox (λ r met old. old) rows in
      let old : IsOld db.next_id (domain_event_of (relay_of m failure) row) = λ i bound.
        elim (Bool-cases (stable_event_id row.id == stable_event_id i)) [
          | inl same ↦ ground (arith, injective row.id i (ground (arith, same)), below, bound)
          | inr differs ↦ differs
        ] in
      elim (Option-cases (failure row)) [
        | inl fine ↦ rw (publish_ok (relay_of m failure) row db fine) (
          (
            conditional_update-All P (λ r. (r.id == row.id) && is_pending r.status)
                (λ r. record r { status = OutboxStatus.published }) db.outbox (λ r met old. old)
                rows,
            get_or_create-All (IsOld db.next_id) (relay_of m failure) row db.domain_events old
                events,
          ),
          refl,
        )
        | inr (e, failed) ↦ elim (Bool-cases (leb m (suc row.attempts))) [
          | inl spent ↦
              rw (publish_err (relay_of m failure) row db e failed, spent)
                (
                  (
                    conditional_update-All P (λ r. (r.id == row.id) && is_pending r.status)
                        (λ r. record r { status = OutboxStatus.dead_lettered })
                        (count_attempt row db.outbox) (λ r met old. old) counted,
                    events,
                  ),
                  refl,
                )
          | inr again ↦
              rw (publish_err (relay_of m failure) row db e failed, again) ((counted, events), refl)
        ]
      ]

  publish_all-IsFresh :
      (m : ℕ) (failure : OutboxEvent → Option Error) (rows : List OutboxEvent) (db : Db)
      → ((i j : ℕ) → stable_event_id i ≡ stable_event_id j → i ≡ j)
      → All (λ r. r.id < db.next_id) rows
      → IsFresh db
      → IsFresh (publish_all (relay_of m failure) rows db).1
  unfolding publish_all
  publish_all-IsFresh m failure [] db injective below h = h
  publish_all-IsFresh m failure (row ∷ rows) db injective below h =
      let (fresh, same) = publish-IsFresh m failure row db injective below.0 h in
      let db1 = (publish (relay_of m failure) row db).1 in
      let below1 : All (λ r. r.id < db1.next_id) rows = rw same below.1 in
      publish_all-IsFresh m failure rows db1 injective below1 fresh

  IsOld-later :
      (n : ℕ) (events : List DomainEvent) → All (IsOld n) events → All (IsOld (suc n)) events
  IsOld-later n [] h = tt
  IsOld-later n (e ∷ events) h =
      (λ i bound. h.0 i (ground (arith, bound)), IsOld-later n events h.1)

  below-later :
      (n : ℕ) (rows : List OutboxEvent)
      → All (λ r. r.id < n) rows
      → All (λ r. r.id < suc n) rows × All (λ r. (n == r.id) ≡ false) rows
  below-later n [] h = (tt, tt)
  below-later n (r ∷ rows) h =
      let (later, apart) = below-later n rows h.1 in
      let below : r.id < n = h.0 in ((ground (arith, below), later), (ground (arith, below), apart))

  -- Consistent, and with free ids ahead.
  abbrev IsSound : Db → Type 0
  IsSound db = IsConsistent (relay_of 0 (λ _. none)) db × IsFresh db

  after_step-IsSound :
      (s : Step) (db : Db)
      → ((i j : ℕ) → stable_event_id i ≡ stable_event_id j → i ≡ j)
      → IsSound db
      → IsSound (after_step s db)
  unfolding publish_batch record_event
  after_step-IsSound (recorded event_type tenant_id aggregate_type aggregate_id payload) db
        injective ((unique, delivered), (below, old)) =
      let (later, apart) = below-later db.next_id db.outbox below in
      let row : OutboxEvent = record {
        id = db.next_id;
        event_type = event_type;
        tenant_id = tenant_id;
        aggregate_type = aggregate_type;
        aggregate_id = aggregate_id;
        payload = payload;
        status = OutboxStatus.pending;
        attempts = 0;
        created_at = db.now;
      } in
      (
        ((apart, unique), (old-deliveries 0 (λ _. none) row db.domain_events old, delivered)),
        ((omega arith, later), IsOld-later db.next_id db.domain_events old),
      )
  after_step-IsSound (relayed m failure batch_size) db injective (consistent, fresh) = (
    publish_batch-IsConsistent (relay_of m failure) batch_size db injective consistent,
    publish_all-IsFresh m failure (pending_rows batch_size db.outbox) db injective
        (pending_rows-All (λ r. r.id < db.next_id) batch_size db.outbox fresh.0) fresh,
  )

  after_steps-IsSound :
      (steps : List Step) (db : Db)
      → ((i j : ℕ) → stable_event_id i ≡ stable_event_id j → i ≡ j)
      → IsSound db
      → IsSound (after_steps steps db)
  after_steps-IsSound [] db injective h = h
  after_steps-IsSound (s ∷ steps) db injective h =
      after_steps-IsSound steps (after_step s db) injective (after_step-IsSound s db injective h)

-- Exactly once: where different rows have different event uuids, after any sequence of recorded
-- events and relay batches (of any size, any attempt limit, failing on whatever rows) from an
-- empty outbox and an empty log, the log has exactly one event under the key of each published
-- row, with that row's content, and none under the key of a pending or dead-lettered one.
pub after_steps-exactly_once :
    (stable_event_id : ℕ → ℕ) (steps : List Step) (db : Db)
    → ((i j : ℕ) → stable_event_id i ≡ stable_event_id j → i ≡ j)
    → db.outbox ≡ []
    → db.domain_events ≡ []
    → let relay = relay_of stable_event_id 0 (λ _. none) in
      let db' = after_steps stable_event_id steps db in
      All (λ row. deliveries relay row db'.domain_events ≡ due relay row row.status) db'.outbox
after_steps-exactly_once stable_event_id steps db injective no_rows no_events =
    (after_steps-IsSound stable_event_id steps db injective
      (rw (no_rows, no_events) ((tt, tt), (tt, tt)))).0.1
