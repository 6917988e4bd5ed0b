-- ===== src/Tests.antt =====
-- Examples: the data that the runs of the other test modules share.
mod Accounts
mod Capacity
mod Lifecycle
mod Relay
mod Rooms
mod Policies
mod Stays
mod Values
use hotel_booking.Base.{ℕ, suc, ltb, ◌+◌, Option, none, some, List, [], ◌∷◌}
use hotel_booking.Inventory.{SlotKey, Slot, Channel}
use hotel_booking.Model.{Db, Env, empty_db, Payload, cancel_payload, inventory_payload}

abbrev fingerprint_of : Payload → ℕ
fingerprint_of (cancel_payload i) = suc i
fingerprint_of (inventory_payload _ _ _ _ start end quantity) = start + end + quantity
fingerprint_of _ = 0

abbrev env : Env
env = record {
  fingerprint = fingerprint_of;
  reservation_hold_minutes = 15;
  availability_horizon_days = 3;
  has_partition = λ d. ltb d 1000;
}

abbrev king : SlotKey
king = record { tenant_id = 1; property_id = 2; room_type_id = 3; channel = Channel.direct }

abbrev slot : ℕ → ℕ → ℕ → ℕ → Slot
slot d i sold reserved = record {
  key = king;
  business_date = d;
  id = i;
  total_units = 10;
  sold = sold;
  reserved = reserved;
  blocked = 0;
  out_of_service = 1;
}

-- Two nights of one room type: 6 and 4 units are left.
abbrev two_nights : List Slot
two_nights = slot 100 1 2 1 ∷ slot 101 2 3 2 ∷ []

abbrev slot_db : Db
slot_db = record empty_db { next_id = 3; slots = two_nights }
