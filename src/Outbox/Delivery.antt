-- ===== src/Outbox/Delivery.antt =====
-- Exactly one event of the log for each published row of the outbox.
use hotel_booking.Base.{
  ℕ, suc, ◌≡◌, refl, Bool, true, false, ◌&&◌, none, some, List, [], ◌∷◌, arith, leb, ◌==◌,
  if◌then◌else◌, All, inl, inr, Bool-cases, Option-cases, select, find?,
}
use hotel_booking.Tx.{Result, ok, err, atomic, ◌>>=◌, ◌>>◌}
use hotel_booking.Model.{Db, OutboxEvent, OutboxStatus, DomainEvent}
use hotel_booking.Outbox.{
  OutboxRelay, is_pending, conditional_update, has_key, domain_event_of, get_or_create,
  mark_published, promote, count_attempt, give_up, dead_letter, publish, publish_all, pending_rows,
  publish_batch,
}
use hotel_booking.Outbox.Rows.{
  IsUnique, IsRead, conditional_update-All, conditional_update-IsUnique, conditional_update-IsRead,
  pending_rows-All, pending_rows-IsUnique, unique-IsRead, All-zip, is_pending_lem,
  pending_rows-waits,
}

find-select :
    (p : DomainEvent → Bool) (events : List DomainEvent)
    → select p events ≡ []
    → find? p events ≡ none
find-select p [] h = refl
find-select p (e ∷ events) h = elim (Bool-cases (p e)) [
  | inl hit ↦ ground (arith, hit)
  | inr miss ↦ ground (arith, miss, find-select p events (ground (arith, miss)))
]

module _ (relay : OutboxRelay) where
  -- The events that the log has under the key of a row.
  abbrev pub deliveries : OutboxEvent → List DomainEvent → List DomainEvent
  deliveries row events = select (has_key relay row) events

  abbrev pub due : OutboxEvent → OutboxStatus → List DomainEvent
  due row OutboxStatus.published = domain_event_of relay row ∷ []
  due row OutboxStatus.pending = []
  due row OutboxStatus.dead_lettered = []

  abbrev pub IsDelivered : List DomainEvent → OutboxEvent → Type 0
  IsDelivered events row = deliveries row events ≡ due row row.status

  -- Keys are distinct; a published row has one event of its own, any other row none.
  abbrev pub IsConsistent : Db → Type 0
  IsConsistent db = IsUnique db.outbox × All (IsDelivered db.domain_events) db.outbox

  get_or_create-new :
      (row : OutboxEvent) (events : List DomainEvent)
      → deliveries row events ≡ []
      → deliveries row (get_or_create relay row events) ≡ domain_event_of relay row ∷ []
  unfolding get_or_create
  get_or_create-new row events new = ground (arith, new, find-select (has_key relay row) events new)

  get_or_create-other :
      (row r : OutboxEvent) (events : List DomainEvent)
      → ((i j : ℕ) → relay.stable_event_id i ≡ relay.stable_event_id j → i ≡ j)
      → (r.id == row.id) ≡ false
      → deliveries r (get_or_create relay row events) ≡ deliveries r events
  unfolding get_or_create
  get_or_create-other row r events injective apart =
      let differs : (relay.stable_event_id row.id == relay.stable_event_id r.id) ≡ false =
        elim (Bool-cases (relay.stable_event_id row.id == relay.stable_event_id r.id)) [
          | inl same ↦ ground (arith, same, injective row.id r.id (ground (arith, same)), apart)
          | inr differs ↦ differs
        ] in
      ground (arith, differs, Option-cases (find? (has_key relay row) events))

  mark_published-All :
      (row : OutboxEvent) (events : List DomainEvent) (rows : List OutboxEvent)
      → ((i j : ℕ) → relay.stable_event_id i ≡ relay.stable_event_id j → i ≡ j)
      → row.status ≡ OutboxStatus.pending
      → IsRead rows row
      → All (IsDelivered events) rows
      → All (IsDelivered (get_or_create relay row events)) (mark_published row rows)
  unfolding conditional_update is_pending
  mark_published-All row events [] injective waits read h = tt
  mark_published-All row events (r ∷ rows) injective waits read h = (
    elim (Bool-cases (r.id == row.id)) [
      | inl hit ↦
          let same = read.0 hit in
          let new : deliveries row events ≡ [] = ground (arith, h.0, same, waits) in
          ground (arith, hit, same, waits, get_or_create-new row events new)
      | inr miss ↦ ground (arith, miss, h.0, get_or_create-other row r events injective miss)
    ],
    mark_published-All row events rows injective waits read.1 h.1,
  )

  give_up-All :
      (row : OutboxEvent) (events : List DomainEvent) (rows : List OutboxEvent)
      → All (IsDelivered events) rows
      → All (IsDelivered events) (give_up row rows)
  give_up-All row events rows h =
      conditional_update-All (IsDelivered events) (λ r. (r.id == row.id) && is_pending r.status)
        (λ r. record r { status = OutboxStatus.dead_lettered }) rows
        (λ r met old.
          let waits : is_pending r.status ≡ true = ground (arith, met) in
          ground (arith, old, is_pending_lem r.status waits))
        h

  count_attempt-All :
      (row : OutboxEvent) (events : List DomainEvent) (rows : List OutboxEvent)
      → All (IsDelivered events) rows
      → All (IsDelivered events) (count_attempt row rows)
  count_attempt-All row events rows h =
      conditional_update-All (IsDelivered events) (λ r. r.id == row.id)
        (λ r. record r { attempts = suc r.attempts }) rows (λ r met old. old) h

  -- The three outcomes of one row.
  pub publish_ok :
      (row : OutboxEvent) (db : Db)
      → relay.failure row ≡ none
      → publish relay row db ≡ (
        true,
        record db {
          domain_events = get_or_create relay row db.domain_events;
          outbox = mark_published row db.outbox;
        },
      )
  unfolding publish promote
  publish_ok row db fine = ground (arith, fine)

  pub publish_err :
      (row : OutboxEvent) (db : Db) (e : hotel_booking.Tx.Error)
      → relay.failure row ≡ some e
      → publish relay row db ≡ (
        false,
        record db {
          outbox =
              if leb relay.max_attempts (suc row.attempts)
              then give_up row (count_attempt row db.outbox)
              else count_attempt row db.outbox;
        },
      )
  unfolding publish promote dead_letter
  publish_err row db e failed = ground (arith, failed)

  -- The other rows of the batch still stand in the table as they were read.
  pub publish-IsRead :
      (row y : OutboxEvent) (db : Db)
      → (row.id == y.id) ≡ false
      → IsRead db.outbox y
      → IsRead (publish relay row db).1.outbox y
  publish-IsRead row y db apart old =
      let open' = λ (r : OutboxEvent). (r.id == row.id) && is_pending r.status in
      let to = λ (s : OutboxStatus) (r : OutboxEvent). record r { status = s } in
      let counted : IsRead (count_attempt row db.outbox) y =
        conditional_update-IsRead (λ r. r.id == row.id)
          (λ r. record r { attempts = suc r.attempts }) db.outbox row y (λ r. refl) (λ r met. met)
          apart old in
      elim (Option-cases (relay.failure row)) [
        | inl fine ↦ rw (publish_ok row db fine) (
            conditional_update-IsRead open' (to OutboxStatus.published) db.outbox row y (λ r. refl)
              (λ r met. ground (arith, met)) apart old)
        | inr (e, failed) ↦ elim (Bool-cases (leb relay.max_attempts (suc row.attempts))) [
          | inl spent ↦
              rw (publish_err row db e failed, spent)
                (conditional_update-IsRead open' (to OutboxStatus.dead_lettered)
                  (count_attempt row db.outbox) row y (λ r. refl) (λ r met. ground (arith, met))
                  apart counted)
          | inr again ↦ rw (publish_err row db e failed, again) counted
        ]
      ]

  publish-IsConsistent :
      (row : OutboxEvent) (db : Db)
      → ((i j : ℕ) → relay.stable_event_id i ≡ relay.stable_event_id j → i ≡ j)
      → row.status ≡ OutboxStatus.pending
      → IsRead db.outbox row
      → IsConsistent db
      → IsConsistent (publish relay row db).1
  publish-IsConsistent row db injective waits read (unique, delivered) =
      let open' = λ (r : OutboxEvent). (r.id == row.id) && is_pending r.status in
      let to = λ (s : OutboxStatus) (r : OutboxEvent). record r { status = s } in
      let counted = count_attempt row db.outbox in
      let counted-unique : IsUnique counted =
        conditional_update-IsUnique (λ r. r.id == row.id)
          (λ r. record r { attempts = suc r.attempts }) db.outbox (λ r. refl) unique in
      let counted-delivered = count_attempt-All row db.domain_events db.outbox delivered in
      elim (Option-cases (relay.failure row)) [
        | inl fine ↦ rw (publish_ok row db fine) (
          conditional_update-IsUnique open' (to OutboxStatus.published) db.outbox (λ r. refl)
              unique,
          mark_published-All row db.domain_events db.outbox injective waits read delivered,
        )
        | inr (e, failed) ↦ elim (Bool-cases (leb relay.max_attempts (suc row.attempts))) [
          | inl spent ↦
              rw (publish_err row db e failed, spent)
                (
                  conditional_update-IsUnique open' (to OutboxStatus.dead_lettered) counted
                      (λ r. refl) counted-unique,
                  give_up-All row db.domain_events counted counted-delivered,
                )
          | inr again ↦ rw (publish_err row db e failed, again) (counted-unique, counted-delivered)
        ]
      ]

  publish_all-IsConsistent :
      (rows : List OutboxEvent) (db : Db)
      → ((i j : ℕ) → relay.stable_event_id i ≡ relay.stable_event_id j → i ≡ j)
      → IsUnique rows
      → All (λ row. row.status ≡ OutboxStatus.pending) rows
      → All (IsRead db.outbox) rows
      → IsConsistent db
      → IsConsistent (publish_all relay rows db).1
  unfolding publish_all
  publish_all-IsConsistent [] db injective unique waits read h = h
  publish_all-IsConsistent (row ∷ rows) db injective unique waits read h =
      let next = publish-IsConsistent row db injective waits.0 read.0 h in
      let db1 = (publish relay row db).1 in
      publish_all-IsConsistent rows db1 injective unique.1 waits.1
        (All-zip {P = λ s. (row.id == s.id) ≡ false} {Q = IsRead db.outbox} {R = IsRead db1.outbox}
          rows (λ y apart old. publish-IsRead row y db apart old) unique.0 read.1)
        next

  pub publish_batch-IsConsistent :
      (batch_size : ℕ) (db : Db)
      → ((i j : ℕ) → relay.stable_event_id i ≡ relay.stable_event_id j → i ≡ j)
      → IsConsistent db
      → IsConsistent (publish_batch relay batch_size db).1
  unfolding publish_batch
  publish_batch-IsConsistent batch_size db injective h =
      publish_all-IsConsistent (pending_rows batch_size db.outbox) db injective
        (pending_rows-IsUnique batch_size db.outbox h.0) (pending_rows-waits batch_size db.outbox)
        (pending_rows-All (IsRead db.outbox) batch_size db.outbox (unique-IsRead db.outbox h.0)) h
