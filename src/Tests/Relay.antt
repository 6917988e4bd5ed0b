-- ===== src/Tests/Relay.antt =====
-- A run of the outbox and its relay.
use hotel_booking.Base.{
  arith, ◌≡◌, refl, none, some, Option, List, [], ◌∷◌, ◌==◌, if◌then◌else◌, All,
}
use hotel_booking.Tx.{Error, value_error}
use hotel_booking.Model.{
  Db, OutboxStatus, empty_db, OutboxEvent, EventType, EntityType, allocation, tie_break_reason,
}
use hotel_booking.Outbox.{OutboxRelay, publish_batch}
use hotel_booking.Outbox.Attempts.{IsTried, publish_batch-IsTried}
use hotel_booking.Outbox.Delivery.{deliveries, due}
use hotel_booking.Outbox.Sequence.{
  Step, recorded, relayed, relay_of, after_steps, after_steps-exactly_once,
}

-- The first row cannot be promoted.
abbrev refuse_first : OutboxEvent → Option Error
refuse_first row = if row.id == 1 then some value_error else none

abbrev steps : List Step
steps =
    recorded EventType.room_allocated 1 EntityType.allocationrecord 4
      (allocation 4 101 tie_break_reason)
    ∷ recorded EventType.room_allocated 1 EntityType.allocationrecord 5
        (allocation 5 102 tie_break_reason)
    ∷ relayed 2 refuse_first 100
    ∷ recorded EventType.room_allocated 2 EntityType.allocationrecord 6
        (allocation 6 101 tie_break_reason)
    ∷ relayed 2 refuse_first 1
    ∷ relayed 5 (λ _. none) 100
    ∷ []

after_steps-exactly_once_example :
    let relay = relay_of (λ i. i) 0 (λ _. none) in
    let db' = after_steps (λ i. i) steps empty_db in
    All (λ row. deliveries relay row db'.domain_events ≡ due relay row row.status) db'.outbox
after_steps-exactly_once_example =
    after_steps-exactly_once (λ i. i) steps empty_db (λ i j same. same) refl refl

abbrev relay_2 : OutboxRelay
relay_2 = record { max_attempts = 2; stable_event_id = λ i. i; failure = refuse_first }

abbrev row_1 : OutboxEvent
row_1 = record {
  id = 1;
  event_type = EventType.room_allocated;
  tenant_id = 1;
  aggregate_type = EntityType.allocationrecord;
  aggregate_id = 4;
  payload = allocation 4 101 tie_break_reason;
  status = OutboxStatus.pending;
  attempts = 1;
  created_at = 0;
}

abbrev waiting_db : Db
waiting_db = record empty_db {
  next_id = 4;
  outbox =
      record row_1 { id = 3; attempts = 0 }
      ∷ record row_1 { id = 2; status = OutboxStatus.dead_lettered; attempts = 2 }
      ∷ row_1
      ∷ [];
}

publish_batch-IsTried_example : All (IsTried 2) (publish_batch relay_2 100 waiting_db).1.outbox
publish_batch-IsTried_example =
    publish_batch-IsTried relay_2 100 waiting_db ((refl, (refl, tt)), ((refl, tt), (tt, tt)))
      (omega arith, (refl, (omega arith, tt)))
