-- ===== src/Outbox.antt =====
-- `OutboxRelay` of apps/shared/services/outbox.py: promotion of the pending rows, oldest first, with
-- retries and dead-lettering. The producer, `OutboxService.record_event`, is in Workflow.
pub mod Attempts
pub mod Delivery
pub mod Rows
pub mod Sequence
use hotel_booking.Base.{
  ℕ, suc, ◌+◌, Bool, true, false, ◌&&◌, ◌||◌, Option, none, some, List, [], ◌∷◌, ltb, leb, ◌==◌,
  if◌then◌else◌, select, find?,
}
use hotel_booking.Tx.{
  Error, Result, ok, err, pure, raise, raise_if, gets, modify, atomic, ◌>>=◌, ◌>>◌,
}
use hotel_booking.Model.{Db, Action, OutboxEvent, OutboxStatus, DomainEvent, DomainEventStatus}

-- The relay: `max_attempts`, the uuid of the name `outbox:{pk}` (uuid.uuid5), and what the database
-- raises on the promotion of a row, if anything.
pub record OutboxRelay : Type 0 where
  pub max_attempts : ℕ
  pub stable_event_id : ℕ → ℕ
  pub failure : OutboxEvent → Option Error

unfoldable pub is_pending : OutboxStatus → Bool
is_pending OutboxStatus.pending = true
is_pending _ = false

-- `recipes.conditional_update`: `UPDATE … SET … WHERE …`
unfoldable pub conditional_update :
    (OutboxEvent → Bool) → (OutboxEvent → OutboxEvent) → List OutboxEvent → List OutboxEvent
conditional_update conditions values [] = []
conditional_update conditions values (r ∷ rows) =
    (if conditions r then values r else r) ∷ conditional_update conditions values rows

-- The key of the UNIQUE constraint: the tenant and the event's uuid.
abbrev pub has_key : OutboxRelay → OutboxEvent → DomainEvent → Bool
has_key relay row e =
    (e.tenant_id == row.tenant_id) && (e.event_id_uuid == relay.stable_event_id row.id)

abbrev pub domain_event_of : OutboxRelay → OutboxEvent → DomainEvent
domain_event_of relay row = record {
  event_id_uuid = relay.stable_event_id row.id;
  tenant_id = row.tenant_id;
  event_type = row.event_type;
  aggregate_type = row.aggregate_type;
  aggregate_id = row.aggregate_id;
  occurred_at = row.created_at;
  status = DomainEventStatus.published;
  payload = row.payload;
}

-- `DomainEvent.objects.get_or_create(…)`
unfoldable pub get_or_create : OutboxRelay → OutboxEvent → List DomainEvent → List DomainEvent
get_or_create relay row events = elim (find? (has_key relay row) events) [
  | none ↦ domain_event_of relay row ∷ events
  | some _ ↦ events
]

abbrev pub mark_published : OutboxEvent → List OutboxEvent → List OutboxEvent
mark_published row =
    conditional_update (λ r. (r.id == row.id) && is_pending r.status)
      (λ r. record r { status = OutboxStatus.published })

-- `_promote`: a failure puts both tables back.
unfoldable pub promote : OutboxRelay → OutboxEvent → Action (Unit {0})
promote relay row = atomic do
  modify λ db. record db { domain_events = get_or_create relay row db.domain_events }
  elim (relay.failure row) [ none ↦ pure tt | some e ↦ raise e ]
  modify λ db. record db { outbox = mark_published row db.outbox }

abbrev pub count_attempt : OutboxEvent → List OutboxEvent → List OutboxEvent
count_attempt row =
    conditional_update (λ r. r.id == row.id) (λ r. record r { attempts = suc r.attempts })

abbrev pub give_up : OutboxEvent → List OutboxEvent → List OutboxEvent
give_up row =
    conditional_update (λ r. (r.id == row.id) && is_pending r.status)
      (λ r. record r { status = OutboxStatus.dead_lettered })

-- `_dead_letter`: the attempts of `row` are those read with the batch.
unfoldable pub dead_letter : OutboxRelay → OutboxEvent → Db → Db
dead_letter relay row db =
    let counted = count_attempt row db.outbox in
    record db {
      outbox = if leb relay.max_attempts (suc row.attempts) then give_up row counted else counted;
    }

-- `_publish`: whatever the promotion raises is caught.
unfoldable pub publish : OutboxRelay → OutboxEvent → Db → Bool × Db
publish relay row db =
    let (r, db') = promote relay row db in
    elim r [ ok _ ↦ (true, db') | err _ ↦ (false, dead_letter relay row db') ]

unfoldable pub publish_all : OutboxRelay → List OutboxEvent → Db → ℕ × Db
publish_all relay [] db = (0, db)
publish_all relay (row ∷ rows) db =
    let (done, db1) = publish relay row db in
    let (published, db2) = publish_all relay rows db1 in
    ((if done then suc published else published), db2)

-- `.order_by("created_at", "id")`
abbrev pub is_before : OutboxEvent → OutboxEvent → Bool
is_before a b = ltb a.created_at b.created_at || ((a.created_at == b.created_at) && leb a.id b.id)

unfoldable pub insert_row : OutboxEvent → List OutboxEvent → List OutboxEvent
insert_row x [] = x ∷ []
insert_row x (y ∷ ys) = let rest = insert_row x ys in if is_before x y then x ∷ y ∷ ys else y ∷ rest

unfoldable pub order_rows : List OutboxEvent → List OutboxEvent
order_rows [] = []
order_rows (x ∷ xs) = insert_row x (order_rows xs)

-- `[:batch_size]`
unfoldable pub take : ℕ → List OutboxEvent → List OutboxEvent
take Prim.Native.Nat.zero rows = []
take (suc n) [] = []
take (suc n) (row ∷ rows) = row ∷ take n rows

abbrev pub pending_rows : ℕ → List OutboxEvent → List OutboxEvent
pending_rows batch_size rows = take batch_size (order_rows (select (λ r. is_pending r.status) rows))

-- `publish_batch`: the rows are read once, at the start.
unfoldable pub publish_batch : OutboxRelay → ℕ → Db → ℕ × Db
publish_batch relay batch_size db = publish_all relay (pending_rows batch_size db.outbox) db
