-- ===== src/Bookings/Confirmed.antt =====
-- The booking lines that a confirmation stores.
use mathlib.Core.Path.{subst}
use hotel_booking.Base.{
  ℕ, ◌≡◌, none, Bool-cases, Option-cases, inl, inr, refl, sym, ap, ◌∙◌, Bool, true, List, [], ◌∷◌,
  ◌++◌, arith, All, range_from,
}
use hotel_booking.Tx.{ok, pure, ◌>>=◌, ◌>>◌}
use hotel_booking.Tx.Keeps.{bind_inv}
use hotel_booking.Model.{
  Db, Action, Reservation, ReservationLine, Booking, BookingLine, BookingTransition, Response,
  id_response,
}
use hotel_booking.Table.{get_row}
use hotel_booking.Workflow.{load, can_run, guarded_save, run}
use hotel_booking.Bookings.{
  booking_entity, create_booking, create_booking_lines, confirm_lines, first_arrival,
  last_departure, fan_out,
}
use hotel_booking.Bookings.FanOut.{Terms, units, count, numbers, IsOpen, fan_out_lem}

-- The new lines stand after the old ones.
abbrev pub FansOut : ℕ → List ReservationLine → List BookingLine → List BookingLine → Type 0
FansOut booking_id lines before after =
    (made : List BookingLine) × (after ≡ before ++ made)
    × ((p : Terms → Bool) → count p made ≡ units p lines)
    × (numbers made ≡ range_from 1 (units (λ _. true) lines))
    × All (IsOpen booking_id) made

create_booking_lines-FansOut :
    (booking_id : ℕ) (lines : List ReservationLine) (db : Db)
    → FansOut booking_id lines db.booking_lines
        (create_booking_lines booking_id lines db).1.booking_lines
unfolding create_booking_lines
create_booking_lines-FansOut booking_id lines db =
    let (counts, numbered, opened) = fan_out_lem booking_id db.next_id lines in
    (fan_out booking_id db.next_id 0 lines, refl, counts, numbered, opened)

create_booking-lines :
    (reservation : Reservation) (arrival departure : ℕ) (db : Db) (b : Booking)
    → (create_booking reservation arrival departure db).0 ≡ ok b
    → (create_booking reservation arrival departure db).1.booking_lines ≡ db.booking_lines
unfolding create_booking
create_booking-lines reservation arrival departure db b done = ground (arith, done)

run-lines :
    (b : Booking) (db : Db)
    → (run booking_entity BookingTransition.confirm none (load booking_entity b) db).1.booking_lines
      ≡ db.booking_lines
unfolding run guarded_save
run-lines b db =
    elim (Bool-cases (can_run booking_entity BookingTransition.confirm (load booking_entity b))) [
      | inl can ↦ elim (Option-cases (get_row (λ x. x.id) b.id db.bookings)) [
        | inl new ↦ ground (arith, can, new)
        | inr (old, at) ↦ ground (arith, can, at)
      ]
      | inr cannot ↦ ground (arith, cannot)
    ]

-- What `confirm_lines` does once the booking is there.
abbrev finish : List ReservationLine → Booking → Action Response
finish lines booking =
    create_booking_lines booking.id lines
    >> (run booking_entity BookingTransition.confirm none (load booking_entity booking) >>= λ _.
        pure (id_response booking.id))

finish-lines :
    (lines : List ReservationLine) (booking : Booking) (db : Db) (resp : Response)
    → (finish lines booking db).0 ≡ ok resp
    → (resp ≡ id_response booking.id)
      × FansOut booking.id lines db.booking_lines (finish lines booking db).1.booking_lines
finish-lines lines booking db resp done =
    let made : Db = (create_booking_lines booking.id lines db).1 in
    let confirm = run booking_entity BookingTransition.confirm none (load booking_entity booking) in
    let (_, first, stored) =
      bind_inv (create_booking_lines booking.id lines)
        (λ _. confirm >>= λ _. pure (id_response booking.id)) db resp done in
    let (_, moved, ran) =
      bind_inv confirm (λ _. pure (id_response booking.id)) made resp
        (ap (λ o. o.0) (sym stored) ∙ done) in
    let all : finish lines booking db ≡ (ok (id_response booking.id), (confirm made).1) =
      stored ∙ ran in
    (
      ground (arith, ap (λ o. o.0) (sym all) ∙ done),
      subst (FansOut booking.id lines db.booking_lines)
          (sym (ap (λ o. o.1.booking_lines) all ∙ run-lines booking made))
          (create_booking_lines-FansOut booking.id lines db),
    )

-- When `confirm_lines` returns, for every choice of room type, dates and price the booking it names
-- has as many new lines as the reservation lines with these ask for units; the new lines stand
-- after those that were there, which are unchanged, and are numbered 1, 2, … in order without a gap;
-- and each is confirmed, of the booking, and has no room yet.
pub confirm_lines-FansOut :
    (reservation : Reservation) (lines : List ReservationLine) (db : Db) (resp : Response)
    → (confirm_lines reservation lines db).0 ≡ ok resp
    → (booking_id : ℕ) × (resp ≡ id_response booking_id)
      × FansOut booking_id lines db.booking_lines
          (confirm_lines reservation lines db).1.booking_lines
unfolding confirm_lines
confirm_lines-FansOut reservation [] db resp done = ground (arith, done)
confirm_lines-FansOut reservation (line ∷ lines) db resp done =
    let create =
      create_booking reservation (first_arrival line lines) (last_departure line lines) in
    let (booking, made, ran) = bind_inv create (finish (line ∷ lines)) db resp done in
    let (named, fanned) =
      finish-lines (line ∷ lines) booking (create db).1 resp (ap (λ o. o.0) (sym ran) ∙ done) in
    let same =
      create_booking-lines reservation (first_arrival line lines) (last_departure line lines) db
        booking made in
    (
      booking.id,
      named,
      subst (λ o. FansOut booking.id (line ∷ lines) db.booking_lines o.1.booking_lines) (sym ran)
          (subst
            (λ before.
              FansOut booking.id (line ∷ lines) before
                (finish (line ∷ lines) booking (create db).1).1.booking_lines)
            same fanned),
    )
