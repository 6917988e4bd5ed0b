-- ===== src/Bookings/FanOut.antt =====
-- The lines of a booking: one for each unit of each reservation line.
use hotel_booking.Base.{
  ℕ, zero, suc, ◌+◌, ◌≡◌, refl, Bool, true, none, List, [], ◌∷◌, ◌++◌, arith, if◌then◌else◌,
  range_from, All,
}
use hotel_booking.Pricing.{PriceBreakdown}
use hotel_booking.Model.{ReservationLine, BookingLine, BookingStatus}
use hotel_booking.Bookings.{unit_lines, fan_out}

-- What a line says: room type, dates and price.
pub record Terms : Type 0 where
  pub room_type_id : ℕ
  pub arrival_date : ℕ
  pub departure_date : ℕ
  pub price_snapshot : PriceBreakdown

abbrev pub reserved_terms : ReservationLine → Terms
reserved_terms l = record {
  room_type_id = l.room_type_id;
  arrival_date = l.arrival_date;
  departure_date = l.departure_date;
  price_snapshot = l.price_snapshot;
}

abbrev pub booked_terms : BookingLine → Terms
booked_terms l = record {
  room_type_id = l.room_type_id;
  arrival_date = l.arrival_date;
  departure_date = l.departure_date;
  price_snapshot = l.price_snapshot;
}

-- The units that the reservation lines with certain terms ask for.
abbrev pub units : (Terms → Bool) → List ReservationLine → ℕ
units p [] = 0
units p (l ∷ ls) = (if p (reserved_terms l) then l.quantity else 0) + units p ls

-- The booking lines with certain terms.
abbrev pub count : (Terms → Bool) → List BookingLine → ℕ
count p [] = 0
count p (l ∷ ls) = (if p (booked_terms l) then 1 else 0) + count p ls

abbrev pub numbers : List BookingLine → List ℕ
numbers [] = []
numbers (l ∷ ls) = l.line_no ∷ numbers ls

count-append :
    (p : Terms → Bool) (xs ys : List BookingLine) → count p (xs ++ ys) ≡ count p xs + count p ys
count-append p [] ys = omega arith
count-append p (x ∷ xs) ys = ground (arith, count-append p xs ys)

numbers-append : (xs ys : List BookingLine) → numbers (xs ++ ys) ≡ numbers xs ++ numbers ys
numbers-append [] ys = refl
numbers-append (x ∷ xs) ys = cc (numbers-append xs ys)

range_from-append :
    (start n next m : ℕ)
    → next ≡ start + n
    → range_from start n ++ range_from next m ≡ range_from start (n + m)
range_from-append start zero next m e =
    let e1 : next ≡ start = omega (arith, e) in let e2 : 0 + m ≡ m = omega arith in cc (e1, e2)
range_from-append start (suc n) next m e =
    let e2 : suc n + m ≡ suc (n + m) = omega arith in
    cc (e2, range_from-append (suc start) n next m (omega (arith, e)))

count-unit_lines :
    (p : Terms → Bool) (b i last : ℕ) (l : ReservationLine) (n : ℕ)
    → count p (unit_lines b i last l n) ≡ (if p (reserved_terms l) then n else 0)
unfolding unit_lines
count-unit_lines p b i last l zero = ground arith
count-unit_lines p b i last l (suc n) = ground (arith, count-unit_lines p b (suc i) (suc last) l n)

numbers-unit_lines :
    (b i last : ℕ) (l : ReservationLine) (n : ℕ)
    → numbers (unit_lines b i last l n) ≡ range_from (suc last) n
unfolding unit_lines
numbers-unit_lines b i last l zero = refl
numbers-unit_lines b i last l (suc n) = ground (arith, numbers-unit_lines b (suc i) (suc last) l n)

count-fan_out :
    (p : Terms → Bool) (b i last : ℕ) (ls : List ReservationLine)
    → count p (fan_out b i last ls) ≡ units p ls
unfolding fan_out
count-fan_out p b i last [] = refl
count-fan_out p b i last (l ∷ ls) = ground (
  arith,
  count-append p (unit_lines b i last l l.quantity)
      (fan_out b (i + l.quantity) (last + l.quantity) ls),
  count-unit_lines p b i last l l.quantity,
  count-fan_out p b (i + l.quantity) (last + l.quantity) ls,
)

numbers-fan_out :
    (b i last : ℕ) (ls : List ReservationLine)
    → numbers (fan_out b i last ls) ≡ range_from (suc last) (units (λ _. true) ls)
unfolding fan_out
numbers-fan_out b i last [] = refl
numbers-fan_out b i last (l ∷ ls) = ground (
  arith,
  numbers-append (unit_lines b i last l l.quantity)
      (fan_out b (i + l.quantity) (last + l.quantity) ls),
  numbers-unit_lines b i last l l.quantity,
  numbers-fan_out b (i + l.quantity) (last + l.quantity) ls,
  range_from-append (suc last) l.quantity (suc (last + l.quantity)) (units (λ _. true) ls),
)

-- A line as the allocation expects it: confirmed, of the booking, and without a room.
abbrev pub IsOpen : ℕ → BookingLine → Type 0
IsOpen b l = (l.booking_id ≡ b) × (l.status ≡ BookingStatus.confirmed) × (l.room_id ≡ none)

All-append :
    (b : ℕ) (xs ys : List BookingLine)
    → All (IsOpen b) xs
    → All (IsOpen b) ys
    → All (IsOpen b) (xs ++ ys)
All-append b [] ys h k = k
All-append b (x ∷ xs) ys h k = (h.0, All-append b xs ys h.1 k)

unit_lines-IsOpen :
    (b i last : ℕ) (l : ReservationLine) (n : ℕ) → All (IsOpen b) (unit_lines b i last l n)
unfolding unit_lines
unit_lines-IsOpen b i last l zero = tt
unit_lines-IsOpen b i last l (suc n) =
    ((refl, refl, refl), unit_lines-IsOpen b (suc i) (suc last) l n)

fan_out-IsOpen : (b i last : ℕ) (ls : List ReservationLine) → All (IsOpen b) (fan_out b i last ls)
unfolding fan_out
fan_out-IsOpen b i last [] = tt
fan_out-IsOpen b i last (l ∷ ls) =
    All-append b _ _ (unit_lines-IsOpen b i last l l.quantity)
      (fan_out-IsOpen b (i + l.quantity) (last + l.quantity) ls)

-- The lines of a booking fan out the units of the reservation: for every choice of room type, dates
-- and price there are as many booking lines as the reservation lines with these ask for units; the
-- lines are numbered 1, 2, … in order without a gap; and each is confirmed, of the booking, and has
-- no room yet.
pub fan_out_lem :
    (booking_id i : ℕ) (lines : List ReservationLine)
    → let made = fan_out booking_id i 0 lines in
      ((p : Terms → Bool) → count p made ≡ units p lines)
      × (numbers made ≡ range_from 1 (units (λ _. true) lines))
      × All (IsOpen booking_id) made
fan_out_lem booking_id i lines = (
  λ p. count-fan_out p booking_id i 0 lines,
  numbers-fan_out booking_id i 0 lines,
  fan_out-IsOpen booking_id i 0 lines,
)
