-- ===== src/Reservations/Settled.antt =====
-- A settled reservation stays settled: no operation changes the row of a reservation that is
-- converted, expired or cancelled.
use hotel_booking.Base.{
  ℕ, ◌≡◌, refl, Bool, true, false, ◌&&◌, not, Option, none, some, List, [], ◌∷◌, arith, ◌==◌, inl,
  inr, Bool-cases, Option-cases,
}
use hotel_booking.Tx.{
  transition_not_allowed, does_not_exist, ◌>>=◌, ◌>>◌, pure, raise_if, from_option,
}
use hotel_booking.Tx.Keeps.{Keeps, bind-Keeps, atomic-Keeps, raise_if-Keeps}
use hotel_booking.Table.{get_row}
use hotel_booking.Table.Versions.{get-put_row}
use hotel_booking.Model.{
  Db, Env, Action, Reservation, ReservationStatus, ReservationStatus-discrete,
  ReservationTransition, Key, cancel_payload, Response, id_response, window_response, Scope,
}
use hotel_booking.Idempotency.{
  RecordKey, find_record, replay, first_request, create_record, complete_record,
}
use hotel_booking.Workflow.{load, can_run, among}
use hotel_booking.Reservations.{
  reservation_sources, reservation_target, reservation_entity, status_eq, is_unsettled, for_each,
  lines_of, release_line, convert_line, run_on, release_and_run, expire, expire_open,
  cancel_response, convert_and_run, convert_awaiting, await_payment, is_past, execute_cancel,
  cancel, cancel_open, convert, request_payment, reject_if_hold_expired, reservation_of_response,
  get_reservation, get_tenant_reservation,
}
use hotel_booking.Reservations.Frames.{
  run-reservations, for_each-Keeps, release_line-reservations, convert_line-reservations,
  get_row-id, run_on-reservations,
}

-- Is the status one that no operation leaves?
unfoldable pub is_settled : ReservationStatus → Bool
is_settled ReservationStatus.converted = true
is_settled ReservationStatus.expired = true
is_settled ReservationStatus.cancelled = true
is_settled _ = false

-- The row stands in the table.
abbrev pub Stands : Reservation → Db → Type 0
Stands row db = get_row (λ r. r.id) row.id db.reservations ≡ some row

settled-away :
    (s : ReservationStatus)
    → is_settled s ≡ true
    → (status_eq s ReservationStatus.draft ≡ false)
      × (status_eq s ReservationStatus.held ≡ false)
      × (status_eq s ReservationStatus.awaiting_payment ≡ false)
unfolding is_settled ReservationStatus-discrete
settled-away ReservationStatus.draft h = ground arith
settled-away ReservationStatus.held h = ground arith
settled-away ReservationStatus.awaiting_payment h = ground arith
settled-away ReservationStatus.converted h = (refl, refl, refl)
settled-away ReservationStatus.expired h = (refl, refl, refl)
settled-away ReservationStatus.cancelled h = (refl, refl, refl)

settled-cannot :
    (t : ReservationTransition) (row : Reservation)
    → is_settled row.status ≡ true
    → can_run reservation_entity t (load reservation_entity row) ≡ false
unfolding reservation_sources among
settled-cannot ReservationTransition.hold row h = ground (arith, settled-away row.status h)
settled-cannot ReservationTransition.request_payment row h =
    ground (arith, settled-away row.status h)
settled-cannot ReservationTransition.expire row h = ground (arith, settled-away row.status h)
settled-cannot ReservationTransition.cancel row h = ground (arith, settled-away row.status h)
settled-cannot ReservationTransition.convert row h = ground (arith, settled-away row.status h)

module _ (row : Reservation) (settled : is_settled row.status ≡ true) where
  run_on-Stands :
      (t : ReservationTransition) (r : Reservation)
      → (r.id ≡ row.id → r ≡ row)
      → Keeps (Stands row) (run_on t r)
  run_on-Stands t r same db p = ground (
    arith,
    run_on-reservations t r db,
    settled-cannot t row settled,
    get-put_row (λ r. r.id) row.id (record r { status = reservation_target t }) db.reservations,
    Bool-cases (can_run reservation_entity t (load reservation_entity r)),
    Option-cases (get_row (λ r. r.id) r.id db.reservations),
  )

  Stands-same :
      (db : Db) (r : Reservation)
      → get_row (λ r. r.id) r.id db.reservations ≡ some r
      → Stands row db
      → r.id ≡ row.id
      → r ≡ row
  Stands-same db r h p e = ground arith

  from_found :
      {A : Type 0} (j : ℕ) (o : Option Reservation) (f : Reservation → Action A) (db : Db)
      → ((r : Reservation) → (r.id ≡ row.id → r ≡ row) → Keeps (Stands row) (f r))
      → get_row (λ r. r.id) j db.reservations ≡ o
      → Stands row db
      → Stands row ((from_option does_not_exist o >>= f) db).1
  from_found j none f db kf h p = p
  from_found j (some r) f db kf h p =
      kf r (λ e. ground (arith, get_row-id j db.reservations r h)) db p

  get-Stands :
      {A : Type 0} (j : ℕ) (f : Reservation → Action A)
      → ((r : Reservation) → (r.id ≡ row.id → r ≡ row) → Keeps (Stands row) (f r))
      → Keeps (Stands row) (get_reservation j >>= f)
  get-Stands j f kf db p = from_found j (get_row (λ r. r.id) j db.reservations) f db kf refl p

  gated :
      {A : Type 0} (b : Bool) (r : Reservation) (f : Reservation → Action A) (db : Db)
      → Keeps (Stands row) (f r)
      → Stands row db
      → Stands row (((raise_if b does_not_exist >> pure r) >>= f) db).1
  gated true r f db kf p = p
  gated false r f db kf p = kf db p

  from_found_tenant :
      {A : Type 0} (tenant_id j : ℕ) (o : Option Reservation) (f : Reservation → Action A) (db : Db)
      → ((r : Reservation) → (r.id ≡ row.id → r ≡ row) → Keeps (Stands row) (f r))
      → get_row (λ r. r.id) j db.reservations ≡ o
      → Stands row db
      → Stands row
          (((from_option does_not_exist o >>= λ r.
                raise_if (not (r.tenant_id == tenant_id)) does_not_exist >> pure r)
              >>= f)
            db).1
  from_found_tenant tenant_id j none f db kf h p = p
  from_found_tenant tenant_id j (some r) f db kf h p =
      gated (not (r.tenant_id == tenant_id)) r f db
        (kf r (λ e. ground (arith, get_row-id j db.reservations r h))) p

  get_tenant-Stands :
      {A : Type 0} (tenant_id j : ℕ) (f : Reservation → Action A)
      → ((r : Reservation) → (r.id ≡ row.id → r ≡ row) → Keeps (Stands row) (f r))
      → Keeps (Stands row) (get_tenant_reservation tenant_id j >>= f)
  get_tenant-Stands tenant_id j f kf db p =
      from_found_tenant tenant_id j (get_row (λ r. r.id) j db.reservations) f db kf refl p

  release_and_run-Stands :
      (t : ReservationTransition) (r : Reservation)
      → (r.id ≡ row.id → r ≡ row)
      → Keeps (Stands row) (release_and_run t r)
  unfolding release_and_run
  release_and_run-Stands t r same db p =
      bind-Keeps (Stands row) (for_each (release_line r) (lines_of r.id db)) (λ _. run_on t r)
        (for_each-Keeps (Stands row) (release_line r) (lines_of r.id db)
          (λ l db' q. ground (arith, release_line-reservations r l db')))
        (λ _. run_on-Stands t r same) db p

  expire_open-Stands :
      (r : Reservation) → (r.id ≡ row.id → r ≡ row) → Keeps (Stands row) (expire_open r)
  expire_open-Stands r same = elim (Bool-cases (is_unsettled r.status)) [
    | inl open' ↦ rw open' (release_and_run-Stands ReservationTransition.expire r same)
    | inr shut ↦ rw shut (λ db p. p)
  ]

  expire-Stands : (j : ℕ) → Keeps (Stands row) (expire j)
  unfolding expire
  expire-Stands j =
      atomic-Keeps (Stands row) (get_reservation j >>= expire_open)
        (get-Stands j expire_open expire_open-Stands)

  cancel_open-Stands :
      (r : Reservation) → (r.id ≡ row.id → r ≡ row) → Keeps (Stands row) (cancel_open r)
  cancel_open-Stands r same = elim (Bool-cases (is_unsettled r.status)) [
    | inl open' ↦ rw open' (release_and_run-Stands ReservationTransition.cancel r same)
    | inr shut ↦ elim (Bool-cases (status_eq r.status ReservationStatus.draft)) [
      | inl draft ↦ rw (shut, draft) (run_on-Stands ReservationTransition.cancel r same)
      | inr other ↦ rw (shut, other) (λ db p. p)
    ]
  ]

  cancel_response-Stands :
      (r : Reservation) → (r.id ≡ row.id → r ≡ row) → Keeps (Stands row) (cancel_response r)
  cancel_response-Stands r same =
      bind-Keeps (Stands row) (cancel_open r) (λ _. pure (id_response r.id))
        (cancel_open-Stands r same) (λ _ db p. p)

  response-Stands : (response : Response) → Keeps (Stands row) (reservation_of_response response)
  response-Stands (id_response i) db p =
      elim (Option-cases (get_row (λ r. r.id) i db.reservations)) [
        | inl gap ↦ ground (arith, gap, p)
        | inr (r, found) ↦ ground (arith, found, p)
      ]
  response-Stands (window_response n) db p = p

  cancel-Stands :
      (env : Env) (tenant_id j : ℕ) (key : Key) → Keeps (Stands row) (cancel env tenant_id j key)
  unfolding cancel execute_cancel
  cancel-Stands env tenant_id j key =
      bind-Keeps (Stands row)
        (hotel_booking.Idempotency.run env
          (record { tenant_id = tenant_id; scope = Scope.reservation_cancel; key = key })
          (cancel_payload j) (execute_cancel tenant_id j))
        reservation_of_response
        (run-reservations (λ rows. get_row (λ r. r.id) row.id rows ≡ some row) env _ _
          (execute_cancel tenant_id j)
          (get_tenant-Stands tenant_id j cancel_response cancel_response-Stands))
        response-Stands

  convert_and_run-Stands :
      (env : Env) (r : Reservation)
      → (r.id ≡ row.id → r ≡ row)
      → Keeps (Stands row) (convert_and_run env r)
  unfolding convert_and_run
  convert_and_run-Stands env r same db p =
      bind-Keeps (Stands row) (for_each (convert_line env r) (lines_of r.id db))
        (λ _. run_on ReservationTransition.convert r)
        (for_each-Keeps (Stands row) (convert_line env r) (lines_of r.id db)
          (λ l db' q. ground (arith, convert_line-reservations env r l db')))
        (λ _. run_on-Stands ReservationTransition.convert r same) db p

  reject-Stands : (r : Reservation) → Keeps (Stands row) (reject_if_hold_expired r)
  unfolding reject_if_hold_expired
  reject-Stands r db =
      raise_if-Keeps (Stands row) (is_unsettled r.status && is_past r.hold_expiry_at db.now)
        transition_not_allowed db

  convert_awaiting-Stands :
      (env : Env) (r : Reservation)
      → (r.id ≡ row.id → r ≡ row)
      → Keeps (Stands row) (convert_awaiting env r)
  unfolding convert_awaiting
  convert_awaiting-Stands env r same =
      let waits = not (status_eq r.status ReservationStatus.awaiting_payment) in
      bind-Keeps (Stands row) (reject_if_hold_expired r)
        (λ _. raise_if waits transition_not_allowed >> convert_and_run env r) (reject-Stands r)
        (λ _.
          bind-Keeps (Stands row) (raise_if waits transition_not_allowed)
            (λ _. convert_and_run env r) (raise_if-Keeps (Stands row) waits transition_not_allowed)
            (λ _. convert_and_run-Stands env r same))

  convert-Stands : (env : Env) (j tenant_id : ℕ) → Keeps (Stands row) (convert env j tenant_id)
  unfolding convert
  convert-Stands env j tenant_id =
      atomic-Keeps (Stands row) (get_tenant_reservation tenant_id j >>= convert_awaiting env)
        (get_tenant-Stands tenant_id j (convert_awaiting env) (convert_awaiting-Stands env))

  request_payment-Stands : (j tenant_id : ℕ) → Keeps (Stands row) (request_payment j tenant_id)
  unfolding request_payment await_payment
  request_payment-Stands j tenant_id =
      atomic-Keeps (Stands row) (get_tenant_reservation tenant_id j >>= await_payment) (
        get_tenant-Stands tenant_id j await_payment (λ r same.
          bind-Keeps (Stands row) (reject_if_hold_expired r)
            (λ _. run_on ReservationTransition.request_payment r) (reject-Stands r)
            (λ _. run_on-Stands ReservationTransition.request_payment r same)))

-- A call of the service on a reservation that exists.
pub data Call : Type 0 where
  expire_call : ℕ → Call
  cancel_call : ℕ → ℕ → Key → Call
  convert_call : ℕ → ℕ → Call
  request_payment_call : ℕ → ℕ → Call

-- The database after a call, whether it returned or raised.
unfoldable pub after_call : Env → Call → Db → Db
after_call env (expire_call j) db = (expire j db).1
after_call env (cancel_call tenant_id j key) db = (cancel env tenant_id j key db).1
after_call env (convert_call j tenant_id) db = (convert env j tenant_id db).1
after_call env (request_payment_call j tenant_id) db = (request_payment j tenant_id db).1

unfoldable pub after_calls : Env → List Call → Db → Db
after_calls env [] db = db
after_calls env (c ∷ cs) db = after_calls env cs (after_call env c db)

-- A reservation that is converted, expired or cancelled is final: its row is the same after any
-- sequence of expire, cancel, convert and request_payment calls, on it or on other reservations.
pub after_calls-settled :
    (env : Env) (calls : List Call) (row : Reservation) (db : Db)
    → is_settled row.status ≡ true
    → get_row (λ r. r.id) row.id db.reservations ≡ some row
    → get_row (λ r. r.id) row.id (after_calls env calls db).reservations ≡ some row
unfolding after_calls after_call
after_calls-settled env [] row db h p = p
after_calls-settled env (expire_call j ∷ cs) row db h p =
    after_calls-settled env cs row (expire j db).1 h (expire-Stands row h j db p)
after_calls-settled env (cancel_call tenant_id j key ∷ cs) row db h p =
    after_calls-settled env cs row (cancel env tenant_id j key db).1 h
      (cancel-Stands row h env tenant_id j key db p)
after_calls-settled env (convert_call j tenant_id ∷ cs) row db h p =
    after_calls-settled env cs row (convert env j tenant_id db).1 h
      (convert-Stands row h env j tenant_id db p)
after_calls-settled env (request_payment_call j tenant_id ∷ cs) row db h p =
    after_calls-settled env cs row (request_payment j tenant_id db).1 h
      (request_payment-Stands row h j tenant_id db p)
