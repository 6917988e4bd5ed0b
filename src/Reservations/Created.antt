-- ===== src/Reservations/Created.antt =====
-- `ReservationService.reserve` from its call to the rows that it leaves.
use mathlib.Core.Path.{subst}
use hotel_booking.Base.{
  ℕ, suc, ◌≡◌, refl, sym, ◌∙◌, ap, Option, none, some, List, [], ◌∷◌, arith, inl, inr, Option-cases,
}
use hotel_booking.Tx.{ok, ◌>>=◌, lift}
use hotel_booking.Tx.Keeps.{Result-cases, bind_inv}
use hotel_booking.Table.{get_row}
use hotel_booking.Inventory.View.{IsValid}
use hotel_booking.Model.{
  Db, Env, Action, Key, Payload, Scope, Scope-discrete, Response, id_response, Reservation,
  ReservationStatus,
}
use hotel_booking.Idempotency.{
  RecordKey, find_record, matches, run, first_request, create_record, complete_record, complete_all,
}
use hotel_booking.Idempotency.Replay.{started, started-new, run-success}
use hotel_booking.Reservations.{lines_of, reservation_of_response}
use hotel_booking.Reservations.Reserve.{
  ReservationLineRequest, Services, QuotedLine, create_reservation, hold_reservation,
  reserve_quoted, price_snapshot_of, ask, get_minutes, execute_reserve, reserve,
}
use hotel_booking.Reservations.Capacity.{IsNew}
use hotel_booking.Reservations.Reserved.{
  draft_row, create_reservation_ok, IsReserved, hold_reservation_ok,
}

-- A keyed mutation that returned did so by its own run, where the key was new.
run_inv :
    (env : Env) (k : RecordKey) (payload : Payload) (execute : Action Response) (db : Db)
    (response : Response)
    → find_record k db ≡ none
    → (run env k payload execute db).0 ≡ ok response
    → (execute (started env k payload db)).0 ≡ ok response
unfolding run first_request create_record complete_record
run_inv env k payload execute db response new done =
    elim (Result-cases (execute (started env k payload db)).0) [
      | inl (x, fine) ↦ ground (arith, new, fine)
      | inr (e, failed) ↦ ground (arith, new, failed)
    ]

held_row : ℕ → ℕ → Option ℕ → ℕ → List QuotedLine → ℕ → Db → Reservation
held_row tenant_id property_id guest minutes qs policy db =
    record (draft_row tenant_id property_id guest minutes (price_snapshot_of qs) policy db) {
      status = ReservationStatus.held;
    }

module _ (env : Env) (tenant_id property_id : ℕ) (key : Key) where
  reserve_quoted_ok :
      (minutes : ℕ) (guest : Option ℕ) (qs : List QuotedLine) (policy : ℕ) (db : Db)
      (resp : Response)
      → IsValid db.slots
      → ((m : ℕ) → IsNew env tenant_id property_id key m db)
      → lines_of db.next_id db ≡ []
      → (reserve_quoted env tenant_id property_id key minutes guest qs policy db).0 ≡ ok resp
      → (resp ≡ id_response db.next_id)
        × IsReserved env tenant_id property_id key qs
            (held_row tenant_id property_id guest minutes qs policy db)
            db.slots
            (reserve_quoted env tenant_id property_id key minutes guest qs policy db).1
  unfolding reserve_quoted held_row
  reserve_quoted_ok minutes guest qs policy db resp v new none' done =
      let create =
        create_reservation tenant_id property_id guest minutes (price_snapshot_of qs) policy in
      let (r, created, ran) =
        bind_inv create (hold_reservation env tenant_id property_id key qs) db resp done in
      let (shape, at) =
        create_reservation_ok tenant_id property_id guest minutes (price_snapshot_of qs) policy db r
          created in
      let row = draft_row tenant_id property_id guest minutes (price_snapshot_of qs) policy db in
      let db1 = record db { next_id = suc db.next_id; reservations = row ∷ db.reservations } in
      let at1 : (create db).1 ≡ db1 =
        at
        ∙ ap (λ x. record db { next_id = suc db.next_id; reservations = x ∷ db.reservations })
            shape in
      let hold' = hold_reservation env tenant_id property_id key qs in
      let ran1 : (create >>= hold') db ≡ hold' row db1 =
        ran ∙ ap (λ x. hold' x (create db).1) shape ∙ ap (hold' row) at1 in
      let there : get_row (λ x. x.id) row.id db1.reservations ≡ some row = ground arith in
      let (answer, reserved) =
        hold_reservation_ok env tenant_id property_id key qs row db1 resp v (λ m k e. new m k e)
          refl there none' (ap (λ o. o.0) (sym ran1) ∙ done) in
      (answer, rw ran1 reserved)

started-IsNew :
    (env : Env) (tenant_id property_id : ℕ) (key : Key) (k : RecordKey) (payload : Payload)
    (db : Db) (m : ℕ)
    → k.scope ≡ Scope.reservation_reserve
    → IsNew env tenant_id property_id key m db
    → IsNew env tenant_id property_id key m (started env k payload db)
unfolding matches create_record Scope-discrete
started-IsNew env tenant_id property_id key k payload db m scope new slot_key e =
    ground (arith, new slot_key e, scope, Option-cases (find_record k db))

-- What the body of `reserve` did, when it returned on a database where the guest service writes
-- nothing else.
execute_reserve_ok :
    (env : Env) (c : Services) (tenant_id property_id : ℕ) (line : ReservationLineRequest)
    (lines : List ReservationLineRequest) (key : Key) (hold_minutes : Option ℕ) (db : Db)
    (resp : Response)
    → ((d : Db) → (c.resolve_guest d).1 ≡ d)
    → IsValid db.slots
    → ((m : ℕ) → IsNew env tenant_id property_id key m db)
    → lines_of db.next_id db ≡ []
    → (execute_reserve env c tenant_id property_id line lines key hold_minutes db).0 ≡ ok resp
    → (qs : List QuotedLine) × (guest : Option ℕ) × (policy : ℕ) × (resp ≡ id_response db.next_id)
      × IsReserved env tenant_id property_id key qs
          (held_row tenant_id property_id guest
            (get_minutes hold_minutes env.reservation_hold_minutes)
            qs
            policy
            db)
          db.slots
          (execute_reserve env c tenant_id property_id line lines key hold_minutes db).1
unfolding execute_reserve
execute_reserve_ok env c tenant_id property_id line lines key hold_minutes db resp silent v new
      none' done =
    let minutes = get_minutes hold_minutes env.reservation_hold_minutes in
    let next = λ (guest : Option ℕ) (answers : List QuotedLine × ℕ).
      reserve_quoted env tenant_id property_id key minutes guest answers.0 answers.1 in
    let (guest, asked, ran1) =
      bind_inv c.resolve_guest (λ guest. lift (ask c line lines) >>= next guest) db resp done in
    let ran2 : (c.resolve_guest >>= λ guest. lift (ask c line lines) >>= next guest) db
        ≡ (lift (ask c line lines) >>= next guest) db =
      ran1 ∙ ap (λ d. (lift (ask c line lines) >>= next guest) d) (silent db) in
    let (answers, answered, ran3) =
      bind_inv (lift (ask c line lines)) (next guest) db resp (ap (λ o. o.0) (sym ran2) ∙ done) in
    let ran = ran2 ∙ ran3 in
    let (answer, reserved) =
      reserve_quoted_ok env tenant_id property_id key minutes guest answers.0 answers.1 db resp v
        new none' (ap (λ o. o.0) (sym ran) ∙ done) in
    (
      answers.0,
      guest,
      answers.1,
      answer,
      subst
          (λ o.
            IsReserved env tenant_id property_id key answers.0
              (held_row tenant_id property_id guest minutes answers.0 answers.1 db) db.slots o.1)
          (sym ran) reserved,
    )

-- What `reserve` returned and left, where its own key and those of its lines are new, the guest
-- service writes nothing else, and no line stands for the next id.
pub reserve_ok :
    (env : Env) (c : Services) (payload : Payload) (tenant_id property_id : ℕ)
    (line : ReservationLineRequest) (lines : List ReservationLineRequest) (key : Key)
    (hold_minutes : Option ℕ) (db : Db) (reservation : Reservation)
    → ((d : Db) → (c.resolve_guest d).1 ≡ d)
    → IsValid db.slots
    → find_record
        (record { tenant_id = tenant_id; scope = Scope.reservation_reserve; key = key })
        db
      ≡ none
    → ((m : ℕ) → IsNew env tenant_id property_id key m db)
    → lines_of db.next_id db ≡ []
    → let out = reserve env c payload tenant_id property_id (line ∷ lines) key hold_minutes db in
      out.0 ≡ ok reservation
      → (qs : List QuotedLine) × (reservation.tenant_id ≡ tenant_id)
        × (reservation.property_id ≡ property_id)
        × (reservation.status ≡ ReservationStatus.held)
        × IsReserved env tenant_id property_id key qs reservation db.slots out.1
unfolding reserve held_row
reserve_ok env c payload tenant_id property_id line lines key hold_minutes db reservation silent v
      new news none' done =
    let k : RecordKey = record {
      tenant_id = tenant_id;
      scope = Scope.reservation_reserve;
      key = key;
    } in
    let execute = execute_reserve env c tenant_id property_id line lines key hold_minutes in
    let (resp, kept, ran) =
      bind_inv (run env k payload execute) reservation_of_response db reservation done in
    let fine = run_inv env k payload execute db resp new kept in
    let (xs, begun) = started-new env k payload db new in
    let st = record db { idempotency = xs } in
    let news' : (m : ℕ) → IsNew env tenant_id property_id key m st = λ m.
      subst (IsNew env tenant_id property_id key m) begun
        (started-IsNew env tenant_id property_id key k payload db m refl (news m)) in
    let fine' : (execute st).0 ≡ ok resp = ap (λ d. (execute d).0) (sym begun) ∙ fine in
    let (qs, guest, policy, answer, reserved) =
      execute_reserve_ok env c tenant_id property_id line lines key hold_minutes st resp silent v
        news' none' fine' in
    let dbx = (execute st).1 in
    let whole : execute (started env k payload db) ≡ (ok resp, dbx) =
      ap execute begun ∙ ground (arith, fine') in
    let left = run-success env k payload execute db dbx resp new whole in
    let ys = complete_all k resp dbx.idempotency in
    let dbf = record dbx { idempotency = ys } in
    let row =
      held_row tenant_id property_id guest (get_minutes hold_minutes env.reservation_hold_minutes)
        qs policy st in
    let read : reservation_of_response (id_response db.next_id) dbf ≡ (ok row, dbf) =
      ground (arith, reserved.1) in
    let ended =
      ran
      ∙ ap (λ o. reservation_of_response resp o.1) left
      ∙ ap (λ x. reservation_of_response x dbf) answer
      ∙ read in
    let same : row ≡ reservation = ground (arith, ap (λ o. o.0) (sym ended) ∙ done) in
    subst
      (λ x.
        (qs : List QuotedLine) × (x.tenant_id ≡ tenant_id)
        × (x.property_id ≡ property_id)
        × (x.status ≡ ReservationStatus.held)
        × IsReserved env tenant_id property_id key qs x db.slots
            (reserve env c payload tenant_id property_id (line ∷ lines) key hold_minutes db).1)
      same
      (
        qs,
        refl,
        refl,
        refl,
        subst (λ o. IsReserved env tenant_id property_id key qs row db.slots o.1) (sym ended)
            reserved,
      )
