-- ===== src/Allocation/Outcome.antt =====
-- What `AllocationService.allocate_line` returns and leaves.
use mathlib.Core.Path.{subst}
use hotel_booking.Base.{
  ℕ, ◌≡◌, sym, ◌∙◌, ap, false, ◌||◌, not, Option, none, some, List, ◌∷◌, arith, All, inl, inr,
  Bool-cases, Option-cases, decide_iff,
}
use hotel_booking.Tx.{Error, ok, err, raise_if, gets, booking_line_not_allocatable, ◌>>=◌, ◌>>◌}
use hotel_booking.Tx.Keeps.{Result-cases, bind_ok, bind_inv, raise_if_ok}
use hotel_booking.Table.{get_row}
use hotel_booking.Table.Versions.{IsKeyed}
use hotel_booking.Table.Lookup.{IsKeyed-All}
use hotel_booking.Model.{
  Db, Env, Key, Room, Booking, BookingLine, BookingStatus, BookingStatus-discrete, RoomScore,
  AllocationRecord, Response, id_response, Scope, booking_line_payload,
}
use hotel_booking.Idempotency.{RecordKey, find_record}
use hotel_booking.Idempotency
use hotel_booking.Idempotency.Outcome.{run_ok_inv, run_err_inv}
use hotel_booking.Allocation.{
  line_status_eq, is_some, get_booking_line, get_booking, candidate_ids, score_all,
  score_candidates, assign_room, decide_room, execute_allocate, allocation_of_response,
  allocate_line,
}
use hotel_booking.Allocation.Choice.{NoBetter}
use hotel_booking.Allocation.Locks.{get_row-own}
use hotel_booking.Allocation.CheckIn.{IsCheckedIn}
use hotel_booking.Allocation.Chosen.{
  IsEligible, criteria, IsFirst, IsScore, score_of, scores-All, best-All, IsAssigned,
  assign_room_ok,
}

-- The line that was allocated, its booking, and the room that it got.
abbrev pub IsAllocated : ℕ → ℕ → Db → Db → Response → BookingLine → Booking → Room → Type 0
IsAllocated tenant_id booking_line_id db db' resp line booking room =
    (get_row (λ l. l.id) booking_line_id db.booking_lines ≡ some line)
    × (line.status ≡ BookingStatus.confirmed)
    × (line.room_id ≡ none)
    × (get_row (λ b. b.id) line.booking_id db.bookings ≡ some booking)
    × (get_row (λ r. r.id) room.id db.rooms ≡ some room)
    × IsEligible tenant_id line booking room
    × All (IsFirst tenant_id line booking db room) db.rooms
    × IsCheckedIn line room db db' resp

pub get_booking_line_ok :
    (i : ℕ) (db : Db) (l : BookingLine)
    → (get_booking_line i db).0 ≡ ok l
    → (get_booking_line i db ≡ (ok l, db)) × (get_row (λ x. x.id) i db.booking_lines ≡ some l)
get_booking_line_ok i db l h = ground (arith, Option-cases (get_row (λ x. x.id) i db.booking_lines))

pub get_booking_ok :
    (i : ℕ) (db : Db) (b : Booking)
    → (get_booking i db).0 ≡ ok b
    → (get_booking i db ≡ (ok b, db)) × (get_row (λ x. x.id) i db.bookings ≡ some b)
get_booking_ok i db b h = ground (arith, Option-cases (get_row (λ x. x.id) i db.bookings))

allocatable :
    (line : BookingLine)
    → (not (line_status_eq line.status BookingStatus.confirmed) || is_some line.room_id ≡ false)
    → (line.status ≡ BookingStatus.confirmed) × (line.room_id ≡ none)
allocatable line h = ground (
  arith,
  Bool-cases (line_status_eq line.status BookingStatus.confirmed),
  decide_iff BookingStatus-discrete line.status BookingStatus.confirmed,
  Option-cases line.room_id,
)

-- The room of the best score is the one that was locked.
chosen_room :
    (tenant_id : ℕ) (line : BookingLine) (booking : Booking) (db db' : Db) (resp : Response)
    (room : Room)
    → IsKeyed (λ r. r.id) db.rooms
    → IsAssigned
        (IsScore tenant_id line booking db)
        line
        (decide_room tenant_id line booking db)
        db
        db'
        resp
        room
    → (get_row (λ r. r.id) room.id db.rooms ≡ some room)
      × IsEligible tenant_id line booking room
      × All (IsFirst tenant_id line booking db room) db.rooms
unfolding decide_room score_candidates
chosen_room tenant_id line booking db db' resp room k
      (locked, vacant, found, (x, (r, at, fits, is_score), free, best), _) =
    let ids = candidate_ids tenant_id line.room_type_id booking.property_id db.rooms in
    let all = IsKeyed-All (λ r. r.id) db.rooms k in
    let here : get_row (λ r. r.id) r.id vacant ≡ some room =
      ap (λ (s : RoomScore). get_row (λ r. r.id) s.room_id vacant) (sym is_score) ∙ free in
    let own = get_row-own r.id vacant room here in
    let same : r ≡ room =
      ground (arith, at, locked.0, ap (λ k. get_row (λ x. x.id) k db.rooms) own) in
    let best' =
      subst (λ y. All (NoBetter vacant y) (score_all (criteria tenant_id line booking ids) db ids))
        (is_score ∙ ap (score_of tenant_id line booking db) same) best in
    (
      locked.0,
      subst (IsEligible tenant_id line booking) same fits,
      best-All tenant_id line booking db ids vacant room db.rooms all found best',
    )

decided_scores :
    (tenant_id : ℕ) (line : BookingLine) (booking : Booking) (db : Db)
    → IsKeyed (λ r. r.id) db.rooms
    → All (IsScore tenant_id line booking db) (decide_room tenant_id line booking db).scores
unfolding decide_room score_candidates
decided_scores tenant_id line booking db k =
    scores-All tenant_id line booking db
      (candidate_ids tenant_id line.room_type_id booking.property_id db.rooms) db.rooms
      (IsKeyed-All (λ r. r.id) db.rooms k)

pub execute_allocate_ok :
    (tenant_id booking_line_id : ℕ) (actor : Option ℕ) (db : Db) (resp : Response)
    → IsKeyed (λ r. r.id) db.rooms
    → (execute_allocate tenant_id booking_line_id actor db).0 ≡ ok resp
    → (line : BookingLine) × (booking : Booking) × (room : Room) × IsAllocated tenant_id
        booking_line_id db
        (execute_allocate tenant_id booking_line_id actor db).1
        resp
        line
        booking
        room
unfolding execute_allocate
execute_allocate_ok tenant_id booking_line_id actor db resp k done =
    let finish = λ (line : BookingLine) (booking : Booking).
      gets (decide_room tenant_id line booking) >>= λ decision.
      assign_room tenant_id line booking decision actor in
    let check = λ (line : BookingLine).
      not (line_status_eq line.status BookingStatus.confirmed) || is_some line.room_id in
    let next = λ (line : BookingLine).
      raise_if (check line) booking_line_not_allocatable
      >> (get_booking line.booking_id >>= finish line) in
    let (line, read, ran) = bind_inv (get_booking_line booking_line_id) next db resp done in
    let (at, stored) = get_booking_line_ok booking_line_id db line read in
    let ran1 = ran ∙ ap (λ o. next line o.1) at in
    let (fits, ran2) =
      raise_if_ok (check line) booking_line_not_allocatable
        (get_booking line.booking_id >>= finish line) db resp (ap (λ o. o.0) (sym ran1) ∙ done) in
    let (booking, of_line, ran3) =
      bind_inv (get_booking line.booking_id) (finish line) db resp
        (ap (λ o. o.0) (sym (ran1 ∙ ran2)) ∙ done) in
    let (at2, found) = get_booking_ok line.booking_id db booking of_line in
    let decision = decide_room tenant_id line booking db in
    let ran4 : execute_allocate tenant_id booking_line_id actor db
        ≡ assign_room tenant_id line booking decision actor db =
      ran1 ∙ ran2 ∙ ran3 ∙ ap (λ o. finish line booking o.1) at2 in
    let scored = decided_scores tenant_id line booking db k in
    let (room, assigned) =
      assign_room_ok (IsScore tenant_id line booking db) tenant_id line booking decision actor db
        resp k scored (ap (λ o. o.0) (sym ran4) ∙ done) in
    let db' = (assign_room tenant_id line booking decision actor db).1 in
    let (here, eligible, first) = chosen_room tenant_id line booking db db' resp room k assigned in
    let (confirmed, free) = allocatable line fits in
    (
      line,
      booking,
      room,
      subst (λ o. IsAllocated tenant_id booking_line_id db o.1 resp line booking room) (sym ran4)
          (stored, confirmed, free, found, here, eligible, first, assigned.4),
    )

read_back :
    (resp : Response) (row : AllocationRecord) (rest : List AllocationRecord) (db : Db)
    → db.allocation_records ≡ row ∷ rest
    → resp ≡ id_response row.id
    → allocation_of_response resp db ≡ (ok row, db)
read_back resp row rest db kept answer = ground (arith, kept, answer)

-- `allocate_line` on rooms with unique ids, under a key not used before, is all or nothing. When it
-- raises, the database is as it was. When it returns, the line was confirmed and had no room; the
-- room is one of the caller's tenant, of the booked type, at the booking's property, vacant and
-- clean and not deleted; every other such room comes no earlier in the order of the scores (rooms
-- of the guest's other lines first, then the lower id). Then exactly that room has moved (to
-- occupied, with the line noted), exactly that line is checked in with the room, and one
-- allocation record, the one returned, names the two.
pub allocate_line_lem :
    (env : Env) (tenant_id booking_line_id : ℕ) (key : Key) (actor : Option ℕ) (db : Db)
    → IsKeyed (λ r. r.id) db.rooms
    → find_record
        (record { tenant_id = tenant_id; scope = Scope.allocation_allocate_line; key = key })
        db
      ≡ none
    → let out = allocate_line env tenant_id booking_line_id key actor db in
      ((e : Error) → out.0 ≡ err e → out.1 ≡ db)
      × ((made : AllocationRecord)
          → out.0 ≡ ok made
          → (line : BookingLine) × (booking : Booking) × (room : Room) × IsAllocated tenant_id
              booking_line_id db out.1
              (id_response made.id)
              line
              booking
              room
            × (made.booking_line_id ≡ line.id)
            × (made.room_id ≡ room.id))
unfolding allocate_line
allocate_line_lem env tenant_id booking_line_id key actor db keyed new =
    let k : RecordKey = record {
      tenant_id = tenant_id;
      scope = Scope.allocation_allocate_line;
      key = key;
    } in
    let execute = execute_allocate tenant_id booking_line_id actor in
    let payload = booking_line_payload booking_line_id in
    let ran = hotel_booking.Idempotency.run env k payload execute db in
    elim (Result-cases ran.0) [
      | inr (x, failed) ↦
          let same = run_err_inv env k payload execute db x new failed in
          (λ e h. ground (arith, failed, same), λ made h. ground (arith, failed))
      | inl (resp, done) ↦
          let (xs, ys, fine, at) = run_ok_inv env k payload execute db resp new done in
          let st = record db { idempotency = xs } in
          let (line, booking, room, whole) =
            execute_allocate_ok tenant_id booking_line_id actor st resp keyed fine in
          let (_, _, _, row, kept, answer, of_line, of_room) = whole.7 in
          let db' = record (execute st).1 { idempotency = ys } in
          let out : allocate_line env tenant_id booking_line_id key actor db ≡ (ok row, db') =
            bind_ok (hotel_booking.Idempotency.run env k payload execute) allocation_of_response db
              resp done
            ∙ ap (λ o. allocation_of_response resp o.1) at
            ∙ read_back resp row db.allocation_records db' kept answer in
          (
            λ e h. ground (arith, out, h),
            λ made h.
                let same : row ≡ made = ground (arith, out, h) in
                (
                  line,
                  booking,
                  room,
                  subst
                      (λ o.
                        IsAllocated tenant_id booking_line_id db o.1 (id_response made.id) line
                          booking room)
                      (sym out)
                      (subst (λ r. IsAllocated tenant_id booking_line_id db db' r line booking room)
                        (answer ∙ ap (λ (x : AllocationRecord). id_response x.id) same) whole),
                  ground (arith, same, of_line),
                  ground (arith, same, of_room),
                ),
          )
    ]
