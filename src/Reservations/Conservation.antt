-- ===== src/Reservations/Conservation.antt =====
-- What a reservation held, its expiry or its cancellation gives back.
use mathlib.Core.Option
use hotel_booking.Base.{
  ℕ, ◌≡◌, refl, ◌∙◌, ap, true, Option, none, some, List, [], ◌∷◌, arith, All, Option-cases,
}
use hotel_booking.Tx.{Result, ok}
use hotel_booking.Tx.Keeps.{bind_ok}
use hotel_booking.Table.{get_row}
use hotel_booking.Inventory.{SlotKey, Slot, reserved_field}
use hotel_booking.Inventory.View.{view}
use hotel_booking.Inventory.Writes.{add_field, drop_field}
use hotel_booking.Model.{
  Db, Env, Key, Scope, cancel_payload, id_response, Reservation, ReservationStatus,
  ReservationStatus-discrete, ReservationTransition,
}
use hotel_booking.Workflow.{load, can_run, among}
use hotel_booking.Reservations.{
  reservation_sources, reservation_target, reservation_entity, is_unsettled, for_each, lines_of,
  release_line, release_and_run, run_on, expire, cancel, execute_cancel,
}
use hotel_booking.Reservations.Frames.{run_on_ok, run_on-reservations}
use hotel_booking.Table.Versions.{get-put_row}
use hotel_booking.Idempotency.{RecordKey, find_record, complete_all}
use hotel_booking.Idempotency.Replay.{started, started-new, run-success}
use hotel_booking.Reservations.Reserve.{QuotedLine}
use hotel_booking.Reservations.Capacity.{quoted_key, AreHeld, held_units}
use hotel_booking.Reservations.Release.{line_rows, Rows, release_lines_ok}

unsettled-can :
    (r : Reservation)
    → is_unsettled r.status ≡ true
    → (can_run reservation_entity ReservationTransition.expire (load reservation_entity r) ≡ true)
      × (can_run reservation_entity ReservationTransition.cancel (load reservation_entity r) ≡ true)
unfolding reservation_sources among ReservationStatus-discrete is_unsettled
unsettled-can r h =
    elim r.status
        as (λ s.
          is_unsettled s ≡ true
          → (can_run reservation_entity ReservationTransition.expire
                (load reservation_entity (record r { status = s }))
              ≡ true)
            × (can_run reservation_entity ReservationTransition.cancel
                  (load reservation_entity (record r { status = s }))
                ≡ true)) [
                  | ReservationStatus.draft ↦ λ h. ground arith
                  | ReservationStatus.held ↦ λ h. (refl, refl)
                  | ReservationStatus.awaiting_payment ↦ λ h. (refl, refl)
                  | ReservationStatus.converted ↦ λ h. ground arith
                  | ReservationStatus.expired ↦ λ h. ground arith
                  | ReservationStatus.cancelled ↦ λ h. ground arith
                ]
      h

drop-add :
    (n : ℕ) (o : Option Slot)
    → Option.map (drop_field reserved_field n) (Option.map (add_field reserved_field n) o) ≡ o
drop-add n none = refl
drop-add n (some s) = ground arith

HasRows-forth :
    (env : Env) (key : Key) (r : Reservation) (t t' : List Slot) (u : SlotKey → ℕ → ℕ)
    (qs : List QuotedLine)
    → ((k : SlotKey) (d : ℕ)
        → view k d t' ≡ Option.map (add_field reserved_field (u k d)) (view k d t))
    → All (Rows env key r t) qs
    → All (Rows env key r t') qs
HasRows-forth env key r t t' u [] seen h = tt
HasRows-forth env key r t t' u (q ∷ qs) seen h = (
  λ d m gap. h.0 d m (
      ground (
        arith,
        seen (quoted_key env r.tenant_id r.property_id key q) d,
        gap,
        Option-cases (view (quoted_key env r.tenant_id r.property_id key q) d t),
      )),
  HasRows-forth env key r t t' u qs seen h.1,
)

module _ (env : Env) (key : Key) (r : Reservation) (qs : List QuotedLine) where
  -- What a reservation's row and lines must be for its release to find them.
  abbrev pub Stands : Db → Type 0
  Stands db =
      (get_row (λ x. x.id) r.id db.reservations ≡ some r) × (lines_of r.id db ≡ line_rows r.id 1 qs)

  -- What is left when its lines are released and the transition is made.
  abbrev pub IsMoved : ReservationTransition → List Slot → Result Reservation × Db → Type 0
  IsMoved t back (x, db') =
      (x ≡ ok (record r { status = reservation_target t }))
      × ((k : SlotKey) (d : ℕ) → view k d db'.slots ≡ view k d back)
      × (get_row (λ x. x.id) r.id db'.reservations
          ≡ some (record r { status = reservation_target t }))

  -- The release of the lines that stand for the reservation, then a transition.
  release_and_run_ok :
      (t : ReservationTransition) (db db' : Db)
      → AreHeld env r.tenant_id r.property_id key qs db.slots db'.slots
      → Stands db'
      → can_run reservation_entity t (load reservation_entity r) ≡ true
      → IsMoved t db.slots (release_and_run t r db')
  unfolding release_and_run
  release_and_run_ok t db db' (v, held, rows, dates) (found, stand) can =
      let units = λ (k : SlotKey) (d : ℕ). held_units env r.tenant_id r.property_id key k d qs in
      let rows' = HasRows-forth env key r db.slots db'.slots units qs held rows in
      let (done, valid, seen, rest) = release_lines_ok env key r 1 qs db' v rows' dates in
      let loop = for_each (release_line r) (line_rows r.id 1 qs) in
      let ran = bind_ok loop (λ _. run_on t r) db' tt done in
      let (moved, same, _) = run_on_ok t r (loop db').1 can in
      let kept : get_row (λ x. x.id) r.id (loop db').1.reservations ≡ some r =
        ap (λ x. get_row (λ x. x.id) r.id x.reservations) rest ∙ found in
      let stored : get_row (λ x. x.id) r.id (run_on t r (loop db').1).1.reservations
          ≡ some (record r { status = reservation_target t }) =
        ground (
          arith,
          run_on-reservations t r (loop db').1,
          can,
          kept,
          get-put_row (λ x. x.id) r.id (record r { status = reservation_target t })
              (loop db').1.reservations,
        ) in
      let whole : IsMoved t db.slots (run_on t r (loop db').1) = (
        moved,
        λ k d.
            ap (view k d) same
            ∙ seen k d
            ∙ ap (Option.map (drop_field reserved_field (units k d))) (held k d)
            ∙ drop-add (units k d) (view k d db.slots),
        stored,
      ) in
      rw (stand, ran) whole

  pub expire_held :
      (db db' : Db)
      → AreHeld env r.tenant_id r.property_id key qs db.slots db'.slots
      → Stands db'
      → is_unsettled r.status ≡ true
      → IsMoved ReservationTransition.expire db.slots (expire r.id db')
  unfolding expire
  expire_held db db' holds stands open' =
      let moved =
        release_and_run_ok ReservationTransition.expire db db' holds stands
          (unsettled-can r open').0 in
      let ran : expire r.id db' ≡ release_and_run ReservationTransition.expire r db' =
        ground (arith, stands.0, open', moved.0) in
      rw ran moved

  pub cancel_held :
      (request_key : Key) (db db' : Db)
      → AreHeld env r.tenant_id r.property_id key qs db.slots db'.slots
      → Stands db'
      → is_unsettled r.status ≡ true
      → find_record
          (record { tenant_id = r.tenant_id; scope = Scope.reservation_cancel; key = request_key })
          db'
        ≡ none
      → IsMoved ReservationTransition.cancel db.slots (cancel env r.tenant_id r.id request_key db')
  unfolding cancel execute_cancel
  cancel_held request_key db db' holds stands open' new =
      let k : RecordKey = record {
        tenant_id = r.tenant_id;
        scope = Scope.reservation_cancel;
        key = request_key;
      } in
      let execute = execute_cancel r.tenant_id r.id in
      let (xs, begun) = started-new env k (cancel_payload r.id) db' new in
      let st = record db' { idempotency = xs } in
      let release' = release_and_run ReservationTransition.cancel r in
      let (done, back, found) =
        release_and_run_ok ReservationTransition.cancel db st holds stands
          (unsettled-can r open').1 in
      let left = (release' st).1 in
      let whole : execute (started env k (cancel_payload r.id) db')
          ≡ (ok (id_response r.id), left) =
        ap execute begun ∙ ground (arith, stands.0, open', done) in
      let kept =
        run-success env k (cancel_payload r.id) execute db' left (id_response r.id) new whole in
      let ended = record left {
        idempotency = complete_all k (id_response r.id) left.idempotency;
      } in
      let ran : cancel env r.tenant_id r.id request_key db'
          ≡ (ok (record r { status = reservation_target ReservationTransition.cancel }), ended) =
        ground (arith, kept, found) in
      rw ran (refl, back, found)
