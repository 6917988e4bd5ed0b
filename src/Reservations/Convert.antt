-- ===== src/Reservations/Convert.antt =====
-- `ReservationService.convert`: its guards, and what it leaves.
use hotel_booking.Base.{
  ℕ, ◌≡◌, refl, true, false, ◌&&◌, not, some, List, arith, inl, inr, decide_iff, sym, ap, ◌∙◌,
}
use hotel_booking.Tx.{Error, ok, err, transition_not_allowed, raise_if, ◌>>=◌, ◌>>◌}
use hotel_booking.Tx.Keeps.{Result-cases, bind_ok, raise_if_ok, atomic_ok, atomic_err}
use hotel_booking.Table.{get_row}
use hotel_booking.Table.Versions.{get-put_row}
use hotel_booking.Model.{
  Db, Env, Reservation, ReservationLine, ReservationStatus, ReservationStatus-discrete,
  ReservationTransition,
}
use hotel_booking.Workflow.{load, can_run, among}
use hotel_booking.Reservations.{
  reservation_sources, reservation_target, reservation_entity, status_eq, is_unsettled, is_past,
  for_each, lines_of, convert_line, run_on, convert, convert_awaiting, convert_and_run,
  reject_if_hold_expired, get_tenant_reservation,
}
use hotel_booking.Reservations.Frames.{
  for_each-Keeps, convert_line-reservations, get_row-id, get_tenant_ok, run_on-reservations,
}

lines-reservations :
    (env : Env) (r : Reservation) (lines : List ReservationLine) (db : Db)
    → (for_each (convert_line env r) lines db).1.reservations ≡ db.reservations
lines-reservations env r lines db =
    for_each-Keeps (λ d. d.reservations ≡ db.reservations) (convert_line env r) lines
      (λ l d p. convert_line-reservations env r l d ∙ p) db refl

awaiting-can :
    (r : Reservation)
    → r.status ≡ ReservationStatus.awaiting_payment
    → can_run reservation_entity ReservationTransition.convert (load reservation_entity r) ≡ true
unfolding reservation_sources among ReservationStatus-discrete
awaiting-can r h = rw h refl

convert_and_run_ok :
    (env : Env) (r r' : Reservation) (db : Db)
    → r.status ≡ ReservationStatus.awaiting_payment
    → get_row (λ x. x.id) r.id db.reservations ≡ some r
    → (convert_and_run env r db).0 ≡ ok r'
    → get_row (λ x. x.id) r.id (convert_and_run env r db).1.reservations
      ≡ some (record r { status = ReservationStatus.converted })
unfolding convert_and_run reservation_target
convert_and_run_ok env r r' db waits found done =
    let moved = record r { status = ReservationStatus.converted } in
    let lines = for_each (convert_line env r) (lines_of r.id db) db in
    elim (Result-cases lines.0) [
      | inr (e, failed) ↦ ground (arith, failed)
      | inl (u, fine) ↦
          let ran =
            bind_ok (for_each (convert_line env r) (lines_of r.id db))
              (λ _. run_on ReservationTransition.convert r) db u fine in
          let stands : get_row (λ x. x.id) r.id lines.1.reservations ≡ some r =
            cc (lines-reservations env r (lines_of r.id db) db, found) in
          let left : get_row (λ x. x.id) r.id
                (run_on ReservationTransition.convert r lines.1).1.reservations
              ≡ some moved =
            ground (
              arith,
              stands,
              run_on-reservations ReservationTransition.convert r lines.1,
              awaiting-can r waits,
              get-put_row (λ x. x.id) r.id moved lines.1.reservations,
            ) in
          ap (λ o. get_row (λ x. x.id) r.id o.1.reservations) ran ∙ left
    ]

awaiting_gate :
    (env : Env) (r r' : Reservation) (db : Db)
    → (convert_awaiting env r db).0 ≡ ok r'
    → (is_unsettled r.status && is_past r.hold_expiry_at db.now ≡ false)
      × (not (status_eq r.status ReservationStatus.awaiting_payment) ≡ false)
      × (convert_awaiting env r db ≡ convert_and_run env r db)
unfolding convert_awaiting reject_if_hold_expired
awaiting_gate env r r' db done =
    let waits = not (status_eq r.status ReservationStatus.awaiting_payment) in
    let rest = raise_if waits transition_not_allowed >> convert_and_run env r in
    let (live, same) =
      raise_if_ok (is_unsettled r.status && is_past r.hold_expiry_at db.now) transition_not_allowed
        rest db r' done in
    let (passed, same2) =
      raise_if_ok waits transition_not_allowed (convert_and_run env r) db r'
        (ap (λ o. o.0) (sym same) ∙ done) in
    (live, passed, same ∙ same2)

-- `convert` is all or nothing, and guarded. When it raises, the database is as it was. When it
-- returns, the reservation was there under the caller's tenant, awaiting payment and its hold not
-- past its expiry, and its row is the same afterwards but for the status, which is converted.
pub convert_lem :
    (env : Env) (j tenant_id : ℕ) (db : Db)
    → let out = convert env j tenant_id db in
      ((e : Error) → out.0 ≡ err e → out.1 ≡ db)
      × ((r' : Reservation)
          → out.0 ≡ ok r'
          → (r : Reservation) × (get_row (λ x. x.id) j db.reservations ≡ some r)
            × (r.tenant_id ≡ tenant_id)
            × (r.status ≡ ReservationStatus.awaiting_payment)
            × (is_past r.hold_expiry_at db.now ≡ false)
            × (get_row (λ x. x.id) j out.1.reservations
                ≡ some (record r { status = ReservationStatus.converted })))
unfolding convert is_unsettled
convert_lem env j tenant_id db = (
  atomic_err (get_tenant_reservation tenant_id j >>= convert_awaiting env) db,
  λ r' done.
      let (inner, out) =
        atomic_ok (get_tenant_reservation tenant_id j >>= convert_awaiting env) db r' done in
      let (r, found, owned, at) = get_tenant_ok tenant_id j (convert_awaiting env) db r' inner in
      let (live, passed, ran) = awaiting_gate env r r' db (ap (λ o. o.0) (sym at) ∙ inner) in
      let waits : r.status ≡ ReservationStatus.awaiting_payment = ground (
        arith,
        passed,
        decide_iff ReservationStatus-discrete r.status ReservationStatus.awaiting_payment,
      ) in
      let whole = out ∙ at ∙ ran in
      let kept = get_row-id j db.reservations r found in
      let left =
        convert_and_run_ok env r r' db waits (cc (kept, found))
          (ap (λ o. o.0) (sym whole) ∙ done) in
      (
        r,
        found,
        owned,
        waits,
        ground (arith, live, waits),
        cc (left, kept, ap (λ o. o.1.reservations) whole),
      ),
)
