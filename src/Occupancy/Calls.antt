-- ===== src/Occupancy/Calls.antt =====
-- Guests and rooms stay in step under the services.
use mathlib.Core.Path.{subst}
use hotel_booking.Base.{
  ℕ, ◌+◌, ◌≡◌, refl, sym, ◌∙◌, ap, false, some, List, [], ◌∷◌, arith, ◌==◌, if◌then◌else◌, inl, inr,
  Bool-cases,
}
use hotel_booking.Table.{get_row, put_row}
use hotel_booking.Table.Versions.{IsKeyed}
use hotel_booking.Table.Lookup.{put_row-IsKeyed}
use hotel_booking.Model.{
  Db, Room, OperationalState, OperationalState-discrete, RoomTransition, Booking, BookingLine,
  BookingStatus, BookingStatus-discrete, InspectionResult, pass, fail, Response,
}
use hotel_booking.Rooms.{room_source, room_target, state_eq}
use hotel_booking.Rooms.Apply.{moved}
use hotel_booking.Allocation.CheckIn.{taken, arrived}
use hotel_booking.Allocation.Outcome.{IsAllocated}
use hotel_booking.Housekeeping.{room_verdict}
use hotel_booking.Housekeeping.Moves.{SameStays, IsMoved}
use hotel_booking.Housekeeping.Calls.{IsCheckedOut}
use hotel_booking.Occupancy.{
  is_guest, one_if, guests, is_occupied, occupancy, IsHoused, guests-put_row, occupancy-put_row,
}

pub same-IsHoused : (db db' : Db) → IsHoused db → SameStays db db' → IsHoused db'
same-IsHoused db db' (kr, kl, h) (rooms, lines) = (
  subst (IsKeyed (λ r. r.id)) (sym rooms) kr,
  subst (IsKeyed (λ l. l.id)) (sym lines) kl,
  λ i. ap (guests i) lines ∙ h i ∙ ap (occupancy i) (sym rooms),
)

-- A room that stays as occupied as it was.
moved-IsHoused :
    (db db' : Db) (old new : Room)
    → IsHoused db
    → get_row (λ r. r.id) new.id db.rooms ≡ some old
    → is_occupied new ≡ is_occupied old
    → db'.rooms ≡ put_row (λ r. r.id) new db.rooms
    → db'.booking_lines ≡ db.booking_lines
    → IsHoused db'
moved-IsHoused db db' old new (kr, kl, h) found alike rooms lines = (
  subst (IsKeyed (λ r. r.id)) (sym rooms) (put_row-IsKeyed (λ r. r.id) new db.rooms kr),
  subst (IsKeyed (λ l. l.id)) (sym lines) kl,
  λ i.
      let at = occupancy-put_row i old new db.rooms found in
      let kept : occupancy i (put_row (λ r. r.id) new db.rooms) ≡ occupancy i db.rooms =
        elim (Bool-cases (new.id == i)) [
          | inl hit ↦
              let here : get_row (λ r. r.id) i db.rooms ≡ some old = ground (arith, hit, found) in
              ground (arith, at, hit, here, alike)
          | inr miss ↦ ground (arith, at, miss)
        ] in
      ap (guests i) lines ∙ h i ∙ sym kept ∙ ap (occupancy i) (sym rooms),
)

-- A line and a room that change together, by the same number of guests in each room.
exchange-IsHoused :
    (db db' : Db) (old new : Room) (l l' : BookingLine)
    → IsHoused db
    → get_row (λ r. r.id) new.id db.rooms ≡ some old
    → get_row (λ x. x.id) l'.id db.booking_lines ≡ some l
    → db'.rooms ≡ put_row (λ r. r.id) new db.rooms
    → db'.booking_lines ≡ put_row (λ x. x.id) l' db.booking_lines
    → ((i : ℕ)
        → one_if (is_guest i l') + (if new.id == i then one_if (is_occupied old) else 0)
          ≡ one_if (is_guest i l) + (if new.id == i then one_if (is_occupied new) else 0))
    → IsHoused db'
exchange-IsHoused db db' old new l l' (kr, kl, h) found stored rooms lines balance = (
  subst (IsKeyed (λ r. r.id)) (sym rooms) (put_row-IsKeyed (λ r. r.id) new db.rooms kr),
  subst (IsKeyed (λ x. x.id)) (sym lines) (put_row-IsKeyed (λ x. x.id) l' db.booking_lines kl),
  λ i.
      let at = occupancy-put_row i old new db.rooms found in
      let count = guests-put_row i l l' db.booking_lines kl stored in
      let kept : guests i (put_row (λ x. x.id) l' db.booking_lines)
          ≡ occupancy i (put_row (λ r. r.id) new db.rooms) =
        elim (Bool-cases (new.id == i)) [
          | inl hit ↦
              let here : get_row (λ r. r.id) i db.rooms ≡ some old = ground (arith, hit, found) in
              let now : occupancy i (put_row (λ r. r.id) new db.rooms) ≡ one_if (is_occupied new) =
                ground (arith, at, hit) in
              let before : occupancy i db.rooms ≡ one_if (is_occupied old) = ground (arith, here) in
              let fair : one_if (is_guest i l') + one_if (is_occupied old)
                  ≡ one_if (is_guest i l) + one_if (is_occupied new) =
                rw hit at (balance i) in
              omega (arith, count, h i, now, before, fair)
          | inr miss ↦
              let now : occupancy i (put_row (λ r. r.id) new db.rooms) ≡ occupancy i db.rooms =
                ground (arith, at, miss) in
              let fair : one_if (is_guest i l') + 0 ≡ one_if (is_guest i l) + 0 =
                rw miss at (balance i) in
              omega (arith, count, h i, now, fair)
        ] in
      ap (guests i) lines ∙ kept ∙ ap (occupancy i) (sym rooms),
)

line-own :
    (i : ℕ) (lines : List BookingLine) (l : BookingLine)
    → get_row (λ x. x.id) i lines ≡ some l
    → l.id ≡ i
line-own i [] l h = ground arith
line-own i (x ∷ lines) l h = ground (arith, line-own i lines l)

stored_line :
    (i : ℕ) (db : Db) (l : BookingLine)
    → get_row (λ x. x.id) i db.booking_lines ≡ some l
    → get_row (λ x. x.id) l.id db.booking_lines ≡ some l
stored_line i db l h =
    let own = line-own i db.booking_lines l h in
    ap (λ k. get_row (λ x. x.id) k db.booking_lines) own ∙ h

pub allocated-IsHoused :
    (tenant_id booking_line_id : ℕ) (db db' : Db) (resp : Response) (line : BookingLine)
    (booking : Booking) (room : Room)
    → IsHoused db
    → IsAllocated tenant_id booking_line_id db db' resp line booking room
    → IsHoused db'
unfolding room_target OperationalState-discrete BookingStatus-discrete
allocated-IsHoused tenant_id booking_line_id db db' resp line booking room h
      (stored, confirmed, _, _, found, (_, _, _, vacant, _), _, (rooms, lines, _, _, _, _, _, _)) =
    exchange-IsHoused db db' room (taken room line) line (arrived line room) h found
      (stored_line booking_line_id db line stored) rooms lines
      (λ i. ground (arith, confirmed, vacant))

pub left-IsHoused :
    (booking_line_id : ℕ) (db db' : Db) (line : BookingLine) (room : Room)
    → IsHoused db
    → IsCheckedOut booking_line_id line room db db'
    → IsHoused db'
unfolding room_target room_source OperationalState-discrete BookingStatus-discrete
left-IsHoused booking_line_id db db' line room h
      (stored, here, (in_room, found, occupied, rooms, lines)) =
    exchange-IsHoused db db' room (moved RoomTransition.checkout room) line
      (record line { status = BookingStatus.checked_out }) h found
      (stored_line booking_line_id db line stored) rooms lines
      (λ i. ground (arith, here, in_room, occupied))

-- The transitions of the cleaning loop neither start nor end at an occupied room.
abbrev pub IsAside : RoomTransition → Type 0
IsAside t =
    (state_eq (room_source t) OperationalState.occupied_clean ≡ false)
    × (state_eq (room_target t) OperationalState.occupied_clean ≡ false)

pub aside-IsHoused :
    (t : RoomTransition) (room : Room) (db db' : Db)
    → IsAside t
    → IsHoused db
    → IsMoved t room db db'
    → IsHoused db'
aside-IsHoused t room db db' aside h (found, source, rooms, lines) =
    moved-IsHoused db db' room (moved t room) h found (ground (arith, source, aside)) rooms lines

pub clean-IsAside : IsAside RoomTransition.clean
unfolding room_target room_source OperationalState-discrete
clean-IsAside = (refl, refl)

pub complete_cleaning-IsAside : IsAside RoomTransition.complete_cleaning
unfolding room_target room_source OperationalState-discrete
complete_cleaning-IsAside = (refl, refl)

pub room_verdict-IsAside : (result : InspectionResult) → IsAside (room_verdict result)
unfolding room_target room_source OperationalState-discrete
room_verdict-IsAside pass = (refl, refl)
room_verdict-IsAside fail = (refl, refl)
