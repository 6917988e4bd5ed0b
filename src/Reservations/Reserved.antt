-- ===== src/Reservations/Reserved.antt =====
-- What `ReservationService.reserve` leaves when it returns.
use hotel_booking.Base.{
  ℕ, suc, ◌+◌, ◌*◌, ◌<◌, ◌≡◌, refl, sym, ◌∙◌, ap, Bool, true, Option, some, List, [], ◌∷◌, ◌++◌,
  arith, leb, ◌==◌, All, inl, inr, Bool-cases, select,
}
use hotel_booking.Tx.{ok, ◌>>=◌, ◌>>◌, pure}
use hotel_booking.Tx.Keeps.{bind_ok, bind_inv}
use hotel_booking.Table.{get_row}
use hotel_booking.Model.{
  ReservationStatus-discrete, Db, Env, Key, Response, id_response, Reservation, ReservationStatus,
  ReservationTransition, PriceSnapshot,
}
use hotel_booking.Inventory.{Slot}
use hotel_booking.Inventory.View.{IsValid}
use hotel_booking.Workflow.{load, can_run, among}
use hotel_booking.Table.Versions.{get-put_row}
use hotel_booking.Reservations.{
  lines_of, run_on, reservation_entity, reservation_sources, reservation_target,
}
use hotel_booking.Reservations.Frames.{run_on_ok, run_on-reservations}
use hotel_booking.Reservations.Capacity.{IsNew, AreHeld, hold_lines_ok}
use hotel_booking.Reservations.Reserve.{
  QuotedLine, create_reservation, create_line, create_lines, hold_lines, hold_reservation,
}
use hotel_booking.Reservations.Release.{line_row, line_rows}

append_one : {A : Type 0} (xs ys : List A) (x : A) → (xs ++ (x ∷ [])) ++ ys ≡ xs ++ (x ∷ ys)
append_one [] ys x = refl
append_one (z ∷ xs) ys x = cc (append_one xs ys x)

append_none : {A : Type 0} (xs : List A) → xs ++ [] ≡ xs
append_none [] = refl
append_none (x ∷ xs) = cc (append_none xs)

select-append :
    {A : Type 0} (p : A → Bool) (xs ys : List A) → select p (xs ++ ys) ≡ select p xs ++ select p ys
select-append p [] ys = refl
select-append p (x ∷ xs) ys = ground (arith, select-append p xs ys, Bool-cases (p x))

select-line_rows :
    (i n : ℕ) (qs : List QuotedLine)
    → select (λ l. l.reservation_id == i) (line_rows i n qs) ≡ line_rows i n qs
select-line_rows i n [] = refl
select-line_rows i n (q ∷ qs) = ground (arith, select-line_rows i (suc n) qs)

-- The new reservation.
abbrev pub draft_row : ℕ → ℕ → Option ℕ → ℕ → PriceSnapshot → ℕ → Db → Reservation
draft_row tenant_id property_id guest minutes price policy db = record {
  id = db.next_id;
  tenant_id = tenant_id;
  property_id = property_id;
  guest_profile = guest;
  status = ReservationStatus.draft;
  hold_expiry_at = some (db.now + minutes * 60);
  price_snapshot = price;
  policy_snapshot = policy;
}

pub create_reservation_ok :
    (tenant_id property_id : ℕ) (guest : Option ℕ) (minutes : ℕ) (price : PriceSnapshot)
    (policy : ℕ) (db : Db) (r : Reservation)
    → (create_reservation tenant_id property_id guest minutes price policy db).0 ≡ ok r
    → (r ≡ draft_row tenant_id property_id guest minutes price policy db)
      × ((create_reservation tenant_id property_id guest minutes price policy db).1
          ≡ record db { next_id = suc db.next_id; reservations = r ∷ db.reservations })
unfolding create_reservation
create_reservation_ok tenant_id property_id guest minutes price policy db r done =
    ground (arith, Bool-cases (leb minutes 0))

create_line_ok :
    (i n : ℕ) (q : QuotedLine) (db : Db)
    → (create_line i n q db).0 ≡ ok tt
    → (0 < q.line.quantity)
      × (create_line i n q db ≡ (
        ok tt,
        record db { reservation_lines = db.reservation_lines ++ (line_row i n q ∷ []) },
      ))
unfolding create_line
create_line_ok i n q db done = elim (Bool-cases (leb q.line.quantity 0)) [
  | inl none' ↦ ground (arith, none')
  | inr some' ↦ (ground (arith, some'), ground (arith, some'))
]

pub create_lines_ok :
    (i n : ℕ) (qs : List QuotedLine) (db : Db)
    → (create_lines i n qs db).0 ≡ ok tt
    → All (λ q. 0 < q.line.quantity) qs
      × ((create_lines i n qs db).1
          ≡ record db { reservation_lines = db.reservation_lines ++ line_rows i n qs })
unfolding create_lines
create_lines_ok i n [] db done =
    (tt, ap (λ ls. record db { reservation_lines = ls }) (sym (append_none db.reservation_lines)))
create_lines_ok i n (q ∷ qs) db done =
    let (u, first, ran) =
      bind_inv (create_line i n q) (λ _. create_lines i (suc n) qs) db tt done in
    let (positive, at) = create_line_ok i n q db first in
    let db1 = record db { reservation_lines = db.reservation_lines ++ (line_row i n q ∷ []) } in
    let ran1 : (create_line i n q >> create_lines i (suc n) qs) db ≡ create_lines i (suc n) qs db1 =
      ran ∙ ap (λ o. create_lines i (suc n) qs o.1) at in
    let (positives, left) = create_lines_ok i (suc n) qs db1 (ap (λ o. o.0) (sym ran1) ∙ done) in
    let joined = append_one db.reservation_lines (line_rows i (suc n) qs) (line_row i n q) in
    (
      (positive, positives),
      ap (λ o. o.1) ran1 ∙ left ∙ ap (λ ls. record db { reservation_lines = ls }) joined,
    )

draft-can :
    (r : Reservation)
    → r.status ≡ ReservationStatus.draft
    → can_run reservation_entity ReservationTransition.hold (load reservation_entity r) ≡ true
unfolding reservation_sources among ReservationStatus-discrete
draft-can r h = rw h refl

module _ (env : Env) (tenant_id property_id : ℕ) (key : Key) (qs : List QuotedLine) where
  -- The reservation and its lines stand in the database, and the slots hold its units.
  abbrev pub IsReserved : Reservation → List Slot → Db → Type 0
  IsReserved r t db =
      AreHeld env tenant_id property_id key qs t db.slots
      × (get_row (λ x. x.id) r.id db.reservations ≡ some r)
      × (lines_of r.id db ≡ line_rows r.id 1 qs)

  held_lines :
      (r : Reservation) (db : Db)
      → IsValid db.slots
      → ((m : ℕ) → IsNew env tenant_id property_id key m db)
      → lines_of r.id db ≡ []
      → (create_lines r.id 1 qs db).0 ≡ ok tt
      → let db1 = (create_lines r.id 1 qs db).1 in
        (hold_lines env tenant_id property_id key 1 qs db1).0 ≡ ok tt
        → let db2 = (hold_lines env tenant_id property_id key 1 qs db1).1 in
          AreHeld env tenant_id property_id key qs db.slots db2.slots
          × (db2.reservations ≡ db.reservations)
          × (lines_of r.id db2 ≡ line_rows r.id 1 qs)
  held_lines r db v new none' created held =
      let (positive, at) = create_lines_ok r.id 1 qs db created in
      let db1 = record db { reservation_lines = db.reservation_lines ++ line_rows r.id 1 qs } in
      let held1 : (hold_lines env tenant_id property_id key 1 qs db1).0 ≡ ok tt =
        ap (λ d. (hold_lines env tenant_id property_id key 1 qs d).0) (sym at) ∙ held in
      let (after, same) =
        hold_lines_ok env tenant_id property_id key 1 qs db1 v positive (λ m le k e. new m k e)
          held1 in
      let mine : lines_of r.id db1 ≡ line_rows r.id 1 qs =
        select-append (λ l. l.reservation_id == r.id) db.reservation_lines (line_rows r.id 1 qs)
        ∙ ap (λ ls. ls ++ select (λ l. l.reservation_id == r.id) (line_rows r.id 1 qs)) none'
        ∙ select-line_rows r.id 1 qs in
      let db2 = (hold_lines env tenant_id property_id key 1 qs db1).1 in
      let whole : AreHeld env tenant_id property_id key qs db.slots db2.slots
          × (db2.reservations ≡ db.reservations)
          × (lines_of r.id db2 ≡ line_rows r.id 1 qs) =
        (after, same.0, ap (λ ls. select (λ l. l.reservation_id == r.id) ls) same.1 ∙ mine) in
      rw at whole

  pub hold_reservation_ok :
      (r : Reservation) (db : Db) (resp : Response)
      → IsValid db.slots
      → ((m : ℕ) → IsNew env tenant_id property_id key m db)
      → r.status ≡ ReservationStatus.draft
      → get_row (λ x. x.id) r.id db.reservations ≡ some r
      → lines_of r.id db ≡ []
      → (hold_reservation env tenant_id property_id key qs r db).0 ≡ ok resp
      → (resp ≡ id_response r.id)
        × IsReserved
            (record r { status = ReservationStatus.held })
            db.slots
            (hold_reservation env tenant_id property_id key qs r db).1
  unfolding hold_reservation reservation_target
  hold_reservation_ok r db resp v new draft found none' done =
      let finish =
        λ (_ : Unit {0}). run_on ReservationTransition.hold r >>= λ _. pure (id_response r.id) in
      let (_, created, ran1) =
        bind_inv (create_lines r.id 1 qs)
          (λ _. hold_lines env tenant_id property_id key 1 qs >>= finish) db resp done in
      let db1 = (create_lines r.id 1 qs db).1 in
      let (_, held, ran2) =
        bind_inv (hold_lines env tenant_id property_id key 1 qs) finish db1 resp
          (ap (λ o. o.0) (sym ran1) ∙ done) in
      let db2 = (hold_lines env tenant_id property_id key 1 qs db1).1 in
      let (after, rows, lines) = held_lines r db v new none' created held in
      let (moved, slots, kept) = run_on_ok ReservationTransition.hold r db2 (draft-can r draft) in
      let ran3 =
        bind_ok (run_on ReservationTransition.hold r) (λ _. pure (id_response r.id)) db2
          (record r { status = ReservationStatus.held }) moved in
      let stored = run_on-reservations ReservationTransition.hold r db2 in
      let db3 = (run_on ReservationTransition.hold r db2).1 in
      let r' = record r { status = ReservationStatus.held } in
      let ran = ran1 ∙ ran2 ∙ ran3 in
      let there : get_row (λ x. x.id) r.id db2.reservations ≡ some r = cc (rows, found) in
      let row : get_row (λ x. x.id) r.id db3.reservations ≡ some r' = ground (
        arith,
        stored,
        draft-can r draft,
        there,
        get-put_row (λ x. x.id) r.id r' db2.reservations,
      ) in
      let whole : IsReserved r' db.slots db3 =
        (rw slots after, row, ap (λ ls. select (λ l. l.reservation_id == r.id) ls) kept ∙ lines) in
      let answered : ok resp ≡ ok (id_response r.id) = sym done ∙ ap (λ o. o.0) ran in
      (ground (arith, answered), rw ran whole)
