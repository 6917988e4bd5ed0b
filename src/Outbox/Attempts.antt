-- ===== src/Outbox/Attempts.antt =====
-- How often the relay tries a row, and when it gives up.
use hotel_booking.Base.{
  ℕ, suc, ◌<◌, ◌≡◌, true, false, ◌&&◌, List, [], ◌∷◌, arith, leb, ◌==◌, All, inl, inr, Bool-cases,
  Option-cases,
}
use hotel_booking.Model.{Db, OutboxEvent, OutboxStatus}
use hotel_booking.Outbox.{
  OutboxRelay, is_pending, conditional_update, mark_published, count_attempt, give_up, publish,
  publish_all, pending_rows, publish_batch,
}
use hotel_booking.Outbox.Rows.{
  IsUnique, IsRead, All-zip, pending_rows-All, pending_rows-IsUnique, pending_rows-waits,
  unique-IsRead, conditional_update-All, is_pending_lem,
}
use hotel_booking.Outbox.Delivery.{publish_ok, publish_err, publish-IsRead}

-- Dead-lettered after exactly `m` attempts, and otherwise with fewer.
abbrev pub IsTried : ℕ → OutboxEvent → Type 0
IsTried m r = elim r.status [
  | OutboxStatus.pending ↦ r.attempts < m
  | OutboxStatus.published ↦ r.attempts < m
  | OutboxStatus.dead_lettered ↦ r.attempts ≡ m
]

module _ (m : ℕ) (row : OutboxEvent) where
  mark_published-All :
      (rows : List OutboxEvent) → All (IsTried m) rows → All (IsTried m) (mark_published row rows)
  mark_published-All rows h =
      conditional_update-All (IsTried m) (λ r. (r.id == row.id) && is_pending r.status)
        (λ r. record r { status = OutboxStatus.published }) rows
        (λ r met old.
          let waits : is_pending r.status ≡ true = ground (arith, met) in
          let below : r.attempts < m = ground (arith, is_pending_lem r.status waits, old) in below)
        h

  count_attempt-All :
      (rows : List OutboxEvent)
      → row.status ≡ OutboxStatus.pending
      → leb m (suc row.attempts) ≡ false
      → IsRead rows row
      → All (IsTried m) rows
      → All (IsTried m) (count_attempt row rows)
  unfolding conditional_update
  count_attempt-All [] waits again read h = tt
  count_attempt-All (r ∷ rows) waits again read h = (
    elim (Bool-cases (r.id == row.id)) [
      | inl hit ↦
          let below : suc row.attempts < m = ground (arith, again) in
          rw (hit, read.0 hit, waits) below
      | inr miss ↦ rw miss h.0
    ],
    count_attempt-All rows waits again read.1 h.1,
  )

  give_up-All :
      (rows : List OutboxEvent)
      → row.status ≡ OutboxStatus.pending
      → leb m (suc row.attempts) ≡ true
      → IsRead rows row
      → All (IsTried m) rows
      → All (IsTried m) (give_up row (count_attempt row rows))
  unfolding conditional_update is_pending
  give_up-All [] waits spent read h = tt
  give_up-All (r ∷ rows) waits spent read h = (
    elim (Bool-cases (r.id == row.id)) [
      | inl hit ↦
          let old : row.attempts < m = ground (arith, h.0, read.0 hit, waits) in
          let reached : suc row.attempts ≡ m = ground (arith, spent, old) in
          let self : (row.id == row.id) ≡ true = ground arith in
          rw (hit, read.0 hit, waits, self) reached
      | inr miss ↦ rw (miss, miss) h.0
    ],
    give_up-All rows waits spent read.1 h.1,
  )

module _ (relay : OutboxRelay) where
  publish-IsTried :
      (row : OutboxEvent) (db : Db)
      → row.status ≡ OutboxStatus.pending
      → IsRead db.outbox row
      → All (IsTried relay.max_attempts) db.outbox
      → All (IsTried relay.max_attempts) (publish relay row db).1.outbox
  publish-IsTried row db waits read h = elim (Option-cases (relay.failure row)) [
    | inl fine ↦
        rw (publish_ok relay row db fine) (mark_published-All relay.max_attempts row db.outbox h)
    | inr (e, failed) ↦ elim (Bool-cases (leb relay.max_attempts (suc row.attempts))) [
      | inl spent ↦
          rw (publish_err relay row db e failed, spent)
            (give_up-All relay.max_attempts row db.outbox waits spent read h)
      | inr again ↦
          rw (publish_err relay row db e failed, again)
            (count_attempt-All relay.max_attempts row db.outbox waits again read h)
    ]
  ]

  publish_all-IsTried :
      (rows : List OutboxEvent) (db : Db)
      → IsUnique rows
      → All (λ row. row.status ≡ OutboxStatus.pending) rows
      → All (IsRead db.outbox) rows
      → All (IsTried relay.max_attempts) db.outbox
      → All (IsTried relay.max_attempts) (publish_all relay rows db).1.outbox
  unfolding publish_all
  publish_all-IsTried [] db unique waits read h = h
  publish_all-IsTried (row ∷ rows) db unique waits read h =
      let db1 = (publish relay row db).1 in
      publish_all-IsTried rows db1 unique.1 waits.1
        (All-zip {P = λ s. (row.id == s.id) ≡ false} {Q = IsRead db.outbox} {R = IsRead db1.outbox}
          rows (λ y apart old. publish-IsRead relay row y db apart old) unique.0 read.1)
        (publish-IsTried row db waits.0 read.0 h)

-- A batch of the relay, whatever its size and whichever rows fail, keeps the bound on attempts: if
-- the rows of the outbox have distinct ids, and each is dead-lettered with exactly `max_attempts`
-- attempts or not dead-lettered with fewer, then so is each of them after the batch.
pub publish_batch-IsTried :
    (relay : OutboxRelay) (batch_size : ℕ) (db : Db)
    → IsUnique db.outbox
    → All (IsTried relay.max_attempts) db.outbox
    → All (IsTried relay.max_attempts) (publish_batch relay batch_size db).1.outbox
unfolding publish_batch
publish_batch-IsTried relay batch_size db unique h =
    publish_all-IsTried relay (pending_rows batch_size db.outbox) db
      (pending_rows-IsUnique batch_size db.outbox unique) (pending_rows-waits batch_size db.outbox)
      (pending_rows-All (IsRead db.outbox) batch_size db.outbox (unique-IsRead db.outbox unique)) h
