-- ===== src/Reservations/RoundTrip.antt =====
-- `ReservationService.reserve`, then `ReservationService.expire` or
-- `ReservationService.cancel`.
use mathlib.Core.Path.{subst}
use hotel_booking.Base.{ℕ, ◌≡◌, sym, ap, true, none, List, [], ◌∷◌, Option}
use hotel_booking.Tx.{ok}
use hotel_booking.Inventory.{SlotKey}
use hotel_booking.Inventory.View.{view, IsValid}
use hotel_booking.Model.{Db, Env, Key, Payload, Scope, Reservation, ReservationStatus}
use hotel_booking.Idempotency.{find_record}
use hotel_booking.Reservations.{lines_of, expire, cancel, is_unsettled, reservation_target}
use hotel_booking.Reservations.Reserve.{ReservationLineRequest, Services, QuotedLine, reserve}
use hotel_booking.Reservations.Capacity.{IsNew, AreHeld}
use hotel_booking.Reservations.Conservation.{Stands, expire_held, cancel_held}
use hotel_booking.Reservations.Created.{reserve_ok}
use hotel_booking.Reservations.Reserved.{IsReserved}

held-unsettled :
    (r : Reservation) → r.status ≡ ReservationStatus.held → is_unsettled r.status ≡ true
unfolding is_unsettled
held-unsettled r held = ap is_unsettled held

-- `reserve_ok`, told with the reservation's own tenant and property.
reserved_as_held :
    (env : Env) (c : Services) (payload : Payload) (tenant_id property_id : ℕ)
    (line : ReservationLineRequest) (lines : List ReservationLineRequest) (key : Key)
    (hold_minutes : Option ℕ) (db : Db) (reservation : Reservation)
    → ((d : Db) → (c.resolve_guest d).1 ≡ d)
    → IsValid db.slots
    → find_record
        (record { tenant_id = tenant_id; scope = Scope.reservation_reserve; key = key })
        db
      ≡ none
    → ((m : ℕ) → IsNew env tenant_id property_id key m db)
    → lines_of db.next_id db ≡ []
    → let made = reserve env c payload tenant_id property_id (line ∷ lines) key hold_minutes db in
      made.0 ≡ ok reservation
      → (qs : List QuotedLine) × (reservation.tenant_id ≡ tenant_id)
        × (reservation.property_id ≡ property_id)
        × (reservation.status ≡ ReservationStatus.held)
        × AreHeld env reservation.tenant_id reservation.property_id key qs db.slots made.1.slots
        × Stands env key reservation qs made.1
reserved_as_held env c payload tenant_id property_id line lines key hold_minutes db reservation
      silent v new news none' done =
    let made = reserve env c payload tenant_id property_id (line ∷ lines) key hold_minutes db in
    let (qs, tenant, property, held, reserved) =
      reserve_ok env c payload tenant_id property_id line lines key hold_minutes db reservation
        silent v new news none' done in
    let reserved' : IsReserved env reservation.tenant_id property_id key qs reservation db.slots
        made.1 =
      subst (λ t. IsReserved env t property_id key qs reservation db.slots made.1) (sym tenant)
        reserved in
    let (holds, found, stand) =
      subst (λ p. IsReserved env reservation.tenant_id p key qs reservation db.slots made.1)
        (sym property) reserved' in
    (qs, tenant, property, held, holds, (found, stand))

-- Where `reserve` returned a reservation, on a valid inventory, under a key that is new for it and
-- for the hold of each line, with a guest service that writes nothing to these tables and no line
-- that stands for the next id already, an `expire` of it right after returns the reservation
-- with status expired, and every slot, whatever its key and date, is again what it was before the
-- call of `reserve`.
pub expire-reserve :
    (env : Env) (c : Services) (payload : Payload) (tenant_id property_id : ℕ)
    (line : ReservationLineRequest) (lines : List ReservationLineRequest) (key : Key)
    (hold_minutes : Option ℕ) (db : Db) (reservation : Reservation)
    → ((d : Db) → (c.resolve_guest d).1 ≡ d)
    → IsValid db.slots
    → find_record
        (record { tenant_id = tenant_id; scope = Scope.reservation_reserve; key = key })
        db
      ≡ none
    → ((m : ℕ) → IsNew env tenant_id property_id key m db)
    → lines_of db.next_id db ≡ []
    → (reserve env c payload tenant_id property_id (line ∷ lines) key hold_minutes db).0
      ≡ ok reservation
    → let made = reserve env c payload tenant_id property_id (line ∷ lines) key hold_minutes db in
      let out = expire reservation.id made.1 in
      (out.0 ≡ ok (record reservation { status = ReservationStatus.expired }))
      × ((k : SlotKey) (d : ℕ) → view k d out.1.slots ≡ view k d db.slots)
unfolding reservation_target
expire-reserve env c payload tenant_id property_id line lines key hold_minutes db reservation silent
      v new news none' done =
    let (qs, _, _, held, holds, stands) =
      reserved_as_held env c payload tenant_id property_id line lines key hold_minutes db
        reservation silent v new news none' done in
    let made = reserve env c payload tenant_id property_id (line ∷ lines) key hold_minutes db in
    let (done', back, _) =
      expire_held env key reservation qs db made.1 holds stands (held-unsettled reservation held) in
    (done', back)

-- Where `reserve` returned a reservation, on a valid inventory, under a key that is new for it and
-- for the hold of each line, with a guest service that writes nothing to these tables and no line
-- that stands for the next id already, a `cancel` of it right after, by its tenant and under a
-- key that is new for cancellations, returns the reservation with status cancelled, and every
-- slot, whatever its key and date, is again what it was before the call of `reserve`.
pub cancel-reserve :
    (env : Env) (c : Services) (payload : Payload) (tenant_id property_id : ℕ)
    (line : ReservationLineRequest) (lines : List ReservationLineRequest) (key cancel_key : Key)
    (hold_minutes : Option ℕ) (db : Db) (reservation : Reservation)
    → ((d : Db) → (c.resolve_guest d).1 ≡ d)
    → IsValid db.slots
    → find_record
        (record { tenant_id = tenant_id; scope = Scope.reservation_reserve; key = key })
        db
      ≡ none
    → ((m : ℕ) → IsNew env tenant_id property_id key m db)
    → lines_of db.next_id db ≡ []
    → let made = reserve env c payload tenant_id property_id (line ∷ lines) key hold_minutes db in
      made.0 ≡ ok reservation
      → find_record
          (record { tenant_id = tenant_id; scope = Scope.reservation_cancel; key = cancel_key })
          made.1
        ≡ none
      → let out = cancel env tenant_id reservation.id cancel_key made.1 in
        (out.0 ≡ ok (record reservation { status = ReservationStatus.cancelled }))
        × ((k : SlotKey) (d : ℕ) → view k d out.1.slots ≡ view k d db.slots)
unfolding reservation_target
cancel-reserve env c payload tenant_id property_id line lines key cancel_key hold_minutes db
      reservation silent v new news none' done new' =
    let (qs, tenant, _, held, holds, stands) =
      reserved_as_held env c payload tenant_id property_id line lines key hold_minutes db
        reservation silent v new news none' done in
    let made = reserve env c payload tenant_id property_id (line ∷ lines) key hold_minutes db in
    let new2 : find_record
          (record {
            tenant_id = reservation.tenant_id;
            scope = Scope.reservation_cancel;
            key = cancel_key;
          })
          made.1
        ≡ none =
      subst
        (λ t.
          find_record (record { tenant_id = t; scope = Scope.reservation_cancel; key = cancel_key })
            made.1
          ≡ none)
        (sym tenant) new' in
    let (done', back, _) =
      cancel_held env key reservation qs cancel_key db made.1 holds stands
        (held-unsettled reservation held) new2 in
    subst
      (λ t.
        ((cancel env t reservation.id cancel_key made.1).0
          ≡ ok (record reservation { status = ReservationStatus.cancelled }))
        × ((k : SlotKey) (d : ℕ)
            → view k d (cancel env t reservation.id cancel_key made.1).1.slots ≡ view k d db.slots))
      tenant (done', back)
