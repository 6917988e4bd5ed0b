-- ===== src/Occupancy.antt =====
-- Who is in which room: the booking lines of `AllocationService` and `HousekeepingService` against
-- the operational states of the rooms.
pub mod Calls
pub mod Sequence
use hotel_booking.Base.{
  ℕ, suc, ◌+◌, ◌≤◌, ◌≡◌, refl, Bool, true, false, ◌&&◌, Option, none, some, List, [], ◌∷◌, arith,
  ◌==◌, if◌then◌else◌, option_eq, inl, inr, Bool-cases, Option-cases,
}
use hotel_booking.Table.{get_row, put_row}
use hotel_booking.Table.Versions.{IsKeyed, get-put_row}
use hotel_booking.Model.{Db, Room, OperationalState, BookingLine, BookingStatus}
use hotel_booking.Rooms.{state_eq}
use hotel_booking.Allocation.{line_status_eq}

-- Is the guest of the line in room `i`?
abbrev pub is_guest : ℕ → BookingLine → Bool
is_guest i l = line_status_eq l.status BookingStatus.checked_in && option_eq l.room_id (some i)

abbrev pub one_if : Bool → ℕ
one_if b = if b then 1 else 0

-- The lines that are checked in to room `i`.
abbrev pub guests : ℕ → List BookingLine → ℕ
guests i [] = 0
guests i (l ∷ lines) = one_if (is_guest i l) + guests i lines

abbrev pub is_occupied : Room → Bool
is_occupied r = state_eq r.operational_state OperationalState.occupied_clean

-- How many guests the state of room `i` stands for.
abbrev pub occupancy : ℕ → List Room → ℕ
occupancy i rooms = elim (get_row (λ r. r.id) i rooms) [
  | none ↦ 0
  | some r ↦ one_if (is_occupied r)
]

abbrev pub IsHoused : Db → Type 0
IsHoused db =
    IsKeyed (λ r. r.id) db.rooms
    × IsKeyed (λ l. l.id) db.booking_lines
    × ((i : ℕ) → guests i db.booking_lines ≡ occupancy i db.rooms)

guests-absent :
    (i : ℕ) (l : BookingLine) (lines : List BookingLine)
    → get_row (λ x. x.id) l.id lines ≡ none
    → guests i (put_row (λ x. x.id) l lines) ≡ guests i lines
unfolding put_row
guests-absent i l [] h = refl
guests-absent i l (x ∷ lines) h = elim (Bool-cases (x.id == l.id)) [
  | inl hit ↦ ground (arith, hit)
  | inr miss ↦ ground (arith, miss, guests-absent i l lines)
]

-- The change of one line changes the count by that line alone.
pub guests-put_row :
    (i : ℕ) (old new : BookingLine) (lines : List BookingLine)
    → IsKeyed (λ x. x.id) lines
    → get_row (λ x. x.id) new.id lines ≡ some old
    → guests i (put_row (λ x. x.id) new lines) + one_if (is_guest i old)
      ≡ guests i lines + one_if (is_guest i new)
unfolding put_row
guests-put_row i old new [] k h = ground arith
guests-put_row i old new (x ∷ lines) k h = elim (Bool-cases (x.id == new.id)) [
  | inl hit ↦
      let same : x ≡ old = ground (arith, hit, h) in
      let gone : get_row (λ x. x.id) new.id lines ≡ none = ground (arith, hit, k.0) in
      ground (arith, hit, same, guests-absent i new lines gone)
  | inr miss ↦
      let rest : get_row (λ x. x.id) new.id lines ≡ some old = ground (arith, miss, h) in
      ground (arith, miss, guests-put_row i old new lines k.1 rest)
]

pub occupancy-put_row :
    (i : ℕ) (old new : Room) (rooms : List Room)
    → get_row (λ x. x.id) new.id rooms ≡ some old
    → occupancy i (put_row (λ x. x.id) new rooms)
      ≡ (if new.id == i then one_if (is_occupied new) else occupancy i rooms)
occupancy-put_row i old new rooms h = elim (Bool-cases (new.id == i)) [
  | inl hit ↦
      let at : get_row (λ x. x.id) i rooms ≡ some old = ground (arith, hit, h) in
      ground (arith, hit, at, get-put_row (λ x. x.id) i new rooms)
  | inr miss ↦ ground (arith, miss, get-put_row (λ x. x.id) i new rooms)
]
