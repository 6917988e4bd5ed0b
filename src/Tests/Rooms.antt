-- ===== src/Tests/Rooms.antt =====
-- Runs of allocation and housekeeping.
use hotel_booking.Base.{ℕ, ◌≡◌, refl, none, some, List, [], ◌∷◌, arith}
use hotel_booking.Base.Int.{pos}
use hotel_booking.Tx.{Error, ok, err}
use hotel_booking.Money.{Money}
use hotel_booking.Pricing.{PriceBreakdown}
use hotel_booking.Model.{
  Db, empty_db, Room, OperationalState, Booking, BookingLine, BookingStatus, AllocationRecord,
  client, fail, id_response,
}
use hotel_booking.Allocation.{allocate_line}
use hotel_booking.Allocation.Outcome.{IsAllocated, allocate_line_lem}
use hotel_booking.Occupancy.{guests, occupancy, IsHoused}
use hotel_booking.Occupancy.Sequence.{
  Call, allocates, checks_out, starts, completes, inspects, after_calls, after_calls-occupancy,
}
use hotel_booking.Tests.{env}

abbrev room : ℕ → OperationalState → Room
room i state = record {
  id = i;
  tenant_id = 1;
  property_id = 2;
  room_type_id = 3;
  operational_state = state;
  current_booking_line_id = none;
  deleted_at = none;
  version = 0;
}

abbrev fare : Money
fare = record { amount = pos 30000; currency = 1 }

abbrev fare_breakdown : PriceBreakdown
fare_breakdown = record {
  nightly = [];
  subtotal = fare;
  total = fare;
  stay_adjustments = [];
  floor_minor_units = none;
  ceiling_minor_units = none;
}

abbrev booking_7 : Booking
booking_7 = record {
  id = 7;
  tenant_id = 1;
  property_id = 2;
  reservation_id = some 9;
  guest_profile = some 40;
  aggregate_status = BookingStatus.confirmed;
  currency = 1;
  total_minor_units = pos 60000;
  arrival_date = 100;
  departure_date = 102;
  price_snapshot = record { currency = 1; total_minor_units = pos 60000; lines = [] };
  policy_snapshot = 4;
}

abbrev booking_line : ℕ → BookingStatus → BookingLine
booking_line i status = record {
  id = i;
  booking_id = 7;
  line_no = i;
  room_type_id = 3;
  room_id = none;
  arrival_date = 100;
  departure_date = 102;
  status = status;
  price_snapshot = fare_breakdown;
}

-- Guest 40 was in room 103 before, has two lines to come; 102 is not clean.
abbrev hotel_db : Db
hotel_db = record empty_db {
  next_id = 200;
  rooms =
      room 101 OperationalState.vacant_clean
      ∷ room 102 OperationalState.vacant_dirty
      ∷ room 103 OperationalState.vacant_clean
      ∷ [];
  bookings = booking_7 ∷ [];
  booking_lines =
      booking_line 21 BookingStatus.confirmed
      ∷ booking_line 22 BookingStatus.confirmed
      ∷ record (booking_line 20 BookingStatus.checked_out) { room_id = some 103 }
      ∷ [];
}

allocate_line_lem_example :
    let out = allocate_line env 1 21 (client 5) none hotel_db in
    ((e : Error) → out.0 ≡ err e → out.1 ≡ hotel_db)
    × ((made : AllocationRecord)
        → out.0 ≡ ok made
        → (line : BookingLine) × (booking : Booking) × (room : Room) × IsAllocated 1 21 hotel_db
            out.1
            (id_response made.id)
            line
            booking
            room
          × (made.booking_line_id ≡ line.id)
          × (made.room_id ≡ room.id))
allocate_line_lem_example =
    allocate_line_lem env 1 21 (client 5) none hotel_db (refl, (refl, (refl, tt))) refl

abbrev stay_calls : List Call
stay_calls =
    allocates 1 21 (client 5) none
    ∷ allocates 1 22 (client 6) none
    ∷ checks_out 1 21 (client 7) none
    ∷ starts 1 210 (client 8) (some 4)
    ∷ completes 1 210 (client 9) (some 4)
    ∷ inspects 1 210 fail (client 10) none (some 5)
    ∷ []

hotel_db-IsHoused : IsHoused hotel_db
hotel_db-IsHoused = ((refl, (refl, (refl, tt))), (refl, (refl, (refl, tt))), λ i. ground arith)

after_calls-occupancy_example :
    let db' = after_calls env stay_calls hotel_db in
    guests 103 db'.booking_lines ≡ occupancy 103 db'.rooms
after_calls-occupancy_example = after_calls-occupancy env stay_calls hotel_db 103 hotel_db-IsHoused
