-- ===== src/Reservations/Release.antt =====
-- Releasing the lines of a reservation.
use mathlib.Core.Option
use hotel_booking.Base.{
  ℕ, suc, ◌≡◌, refl, sym, ◌∙◌, ap, true, Option, none, some, List, [], ◌∷◌, arith, ltb, All,
  Option-cases,
}
use hotel_booking.DateRange.{date_range, stay_period, as_date_range}
use hotel_booking.Tx.{Result, ok}
use hotel_booking.Tx.Keeps.{bind_ok}
use hotel_booking.Inventory.{SlotKey, Slot, reserved_field}
use hotel_booking.Inventory.View.{view, IsValid}
use hotel_booking.Inventory.Writes.{drop_field}
use hotel_booking.Model.{Db, Env, Key, Reservation, ReservationLine}
use hotel_booking.Availability.{release_hold}
use hotel_booking.Availability.Held.{release_hold_ok}
use hotel_booking.Reservations.{release_line, line_range, for_each}
use hotel_booking.Reservations.Reserve.{QuotedLine}
use hotel_booking.Reservations.Capacity.{quoted_key, quoted_range, line_units, held_units, HasRows}

-- The rows that `create_lines` makes.
abbrev pub line_row : ℕ → ℕ → QuotedLine → ReservationLine
line_row reservation_id line_no q = record {
  reservation_id = reservation_id;
  line_no = line_no;
  room_type_id = q.line.room_type_id;
  arrival_date = q.line.stay_period.arrival;
  departure_date = q.line.stay_period.departure;
  quantity = q.line.quantity;
  price_snapshot = q.breakdown;
}

abbrev pub line_rows : ℕ → ℕ → List QuotedLine → List ReservationLine
line_rows reservation_id line_no [] = []
line_rows reservation_id line_no (q ∷ qs) =
    line_row reservation_id line_no q ∷ line_rows reservation_id (suc line_no) qs

map-drop_0 : (o : Option Slot) → Option.map (drop_field reserved_field 0) o ≡ o
map-drop_0 none = refl
map-drop_0 (some s) = ground arith

module _ (env : Env) (key : Key) (r : Reservation) where
  abbrev units_of : SlotKey → ℕ → List QuotedLine → ℕ
  units_of = held_units env r.tenant_id r.property_id key

  abbrev pub Rows : List Slot → QuotedLine → Type 0
  Rows = HasRows env r.tenant_id r.property_id key

  -- What releasing lines leaves.
  abbrev pub IsReleased : List QuotedLine → Db → Result (Unit {0}) → Db → Type 0
  IsReleased qs db x db' =
      (x ≡ ok tt)
      × IsValid db'.slots
      × ((k : SlotKey) (d : ℕ)
          → view k d db'.slots
            ≡ Option.map (drop_field reserved_field (units_of k d qs)) (view k d db.slots))
      × (db' ≡ record db { slots = db'.slots })

  release_line-release_hold :
      (n : ℕ) (q : QuotedLine) (db : Db)
      → ltb q.line.stay_period.arrival q.line.stay_period.departure ≡ true
      → release_line r (line_row r.id n q) db
        ≡ release_hold
            (quoted_key env r.tenant_id r.property_id key q)
            (quoted_range env r.tenant_id r.property_id key q)
            q.line.quantity
            db
  unfolding release_line line_range stay_period as_date_range date_range
  release_line-release_hold n q db fine = ground (arith, fine)

  Rows-keep :
      (t t' : List Slot) (u : SlotKey → ℕ → ℕ) (qs : List QuotedLine)
      → ((k : SlotKey) (d : ℕ)
          → view k d t' ≡ Option.map (drop_field reserved_field (u k d)) (view k d t))
      → All (Rows t) qs
      → All (Rows t') qs
  Rows-keep t t' u [] seen h = tt
  Rows-keep t t' u (q ∷ qs) seen h = (
    λ d m gap. h.0 d m (
        ground (
          arith,
          seen (quoted_key env r.tenant_id r.property_id key q) d,
          gap,
          Option-cases (view (quoted_key env r.tenant_id r.property_id key q) d t),
        )),
    Rows-keep t t' u qs seen h.1,
  )

  pub release_lines_ok :
      (n : ℕ) (qs : List QuotedLine) (db : Db)
      → IsValid db.slots
      → All (Rows db.slots) qs
      → All (λ q. ltb q.line.stay_period.arrival q.line.stay_period.departure ≡ true) qs
      → let (x, db') = for_each (release_line r) (line_rows r.id n qs) db in IsReleased qs db x db'
  unfolding for_each release_hold
  release_lines_ok n [] db v rows dates =
      (refl, v, λ k d. sym (map-drop_0 (view k d db.slots)), refl)
  release_lines_ok n (q ∷ qs) db v rows dates =
      let at = release_line-release_hold n q db dates.0 in
      let k0 = quoted_key env r.tenant_id r.property_id key q in
      let r0 = quoted_range env r.tenant_id r.property_id key q in
      let (done, valid, seen, same) = release_hold_ok k0 r0 q.line.quantity db v rows.0 in
      let db1 = (release_hold k0 r0 q.line.quantity db).1 in
      let seen1 : (k : SlotKey) (d : ℕ)
          → view k d db1.slots
            ≡ Option.map
                (drop_field reserved_field (line_units env r.tenant_id r.property_id key k d q))
                (view k d db.slots) =
        λ k d. ground (arith, seen k d, map-drop_0 (view k d db.slots)) in
      let (done2, valid2, seen2, same2) =
        release_lines_ok (suc n) qs db1 valid
          (Rows-keep db.slots db1.slots (λ k d. line_units env r.tenant_id r.property_id key k d q)
            qs seen1 rows.1)
          dates.1 in
      let ran =
        bind_ok (release_line r (line_row r.id n q))
          (λ _. for_each (release_line r) (line_rows r.id (suc n) qs)) db tt
          (ap (λ o. o.0) at ∙ done) in
      let rest = for_each (release_line r) (line_rows r.id (suc n) qs) in
      let ran2 = ran ∙ ap (λ o. rest o.1) at in
      let whole : IsReleased (q ∷ qs) db (rest db1).0 (rest db1).1 = (
        done2,
        valid2,
        λ k d. ground (arith, seen2 k d, seen1 k d, Option-cases (view k d db.slots)),
        same2,
      ) in
      rw ran2 whole
