-- ===== src/Reservations/Reserve.antt =====
-- `ReservationService.reserve` of apps/reservations/services.py: quote, pin the policy, create the
-- reservation, hold every line.
use hotel_booking.Base.{ℕ, suc, ◌+◌, ◌*◌, Option, none, some, List, [], ◌∷◌, ◌++◌, min, leb}
use hotel_booking.Base.Int.{ℤ, pos, ◌+ℤ◌}
use hotel_booking.Pricing.{PriceBreakdown}
use hotel_booking.DateRange.{StayPeriod, as_date_range}
use hotel_booking.Tx.{
  Result, ok, err, integrity_error, value_error, pure, raise, raise_if, lift, gets, modify, ◌>>=◌,
  ◌>>◌,
}
use hotel_booking.Inventory.{Channel}
use hotel_booking.Model.{
  Env, Action, new_id, Reservation, PriceSnapshot, ReservationStatus, ReservationTransition, Key,
  line_key, Response, id_response, Scope, Payload,
}
use hotel_booking.Availability.{hold}
use hotel_booking.Reservations.{run_on, reservation_of_response}

pub record ReservationLineRequest : Type 0 where
  pub room_type_id : ℕ
  pub stay_period : StayPeriod
  pub adults : ℕ
  pub children : ℕ
  pub infants : ℕ
  pub quantity : ℕ

-- What `reserve` asks of the other services: the guest's profile (`GuestService.resolve`, where an
-- address was given), a price (the lookup of the room type and `PricingService.price`), and the
-- pinned answer of the deposit policy for the earliest arrival (`PolicyService.resolve`; the row it
-- adds to the evaluation log is left out here).
pub record Services : Type 0 where
  pub resolve_guest : Action (Option ℕ)
  pub quote : ReservationLineRequest → Result PriceBreakdown
  pub deposit_policy : ℕ → Result ℕ

-- A line with its price, `(line, room_type, breakdown)`.
pub record QuotedLine : Type 0 where
  pub line : ReservationLineRequest
  pub breakdown : PriceBreakdown

unfoldable pub quote_all : Services → List ReservationLineRequest → Result (List QuotedLine)
quote_all c [] = ok []
quote_all c (line ∷ lines) = elim (c.quote line) [
  | err e ↦ err e
  | ok b ↦ elim (quote_all c lines) [
    | err e ↦ err e
    | ok quoted ↦ ok (record { line = line; breakdown = b } ∷ quoted)
  ]
]

-- `min(line.stay_period.arrival for line in lines)`
unfoldable pub earliest_arrival : ReservationLineRequest → List ReservationLineRequest → ℕ
earliest_arrival line [] = line.stay_period.arrival
earliest_arrival line (next ∷ lines) = min line.stay_period.arrival (earliest_arrival next lines)

-- `sum(b.total.amount for _, _, b in quoted)`
unfoldable pub total_of : List QuotedLine → ℤ
total_of [] = pos 0
total_of (q ∷ quoted) = q.breakdown.total.amount +ℤ total_of quoted

unfoldable pub breakdowns : List QuotedLine → List PriceBreakdown
breakdowns [] = []
breakdowns (q ∷ quoted) = q.breakdown ∷ breakdowns quoted

-- `quoted[0][2].currency.code`
abbrev pub first_currency : List QuotedLine → ℕ
first_currency [] = 0
first_currency (q ∷ _) = q.breakdown.total.currency

abbrev pub price_snapshot_of : List QuotedLine → PriceSnapshot
price_snapshot_of quoted = record {
  currency = first_currency quoted;
  total_minor_units = total_of quoted;
  lines = breakdowns quoted;
}

-- `Reservation.objects.create(…)` under the CHECK on `hold_expiry_at`
unfoldable pub create_reservation : ℕ → ℕ → Option ℕ → ℕ → PriceSnapshot → ℕ → Action Reservation
create_reservation tenant_id property_id guest hold_minutes price_snapshot policy_snapshot = do
  i ← new_id
  now ← gets (λ db. db.now)
  let row : Reservation = record {
    id = i;
    tenant_id = tenant_id;
    property_id = property_id;
    guest_profile = guest;
    status = ReservationStatus.draft;
    hold_expiry_at = some (now + hold_minutes * 60);
    price_snapshot = price_snapshot;
    policy_snapshot = policy_snapshot;
  }
  raise_if (leb hold_minutes 0) integrity_error
  modify λ db. record db { reservations = row ∷ db.reservations }
  pure row

-- `ReservationLine.objects.create(…)` under the CHECK on `quantity`
unfoldable pub create_line : ℕ → ℕ → QuotedLine → Action (Unit {0})
create_line reservation_id line_no q = do
  raise_if (leb q.line.quantity 0) integrity_error
  modify λ db. record db {
    reservation_lines =
        db.reservation_lines
        ++ (record {
          reservation_id = reservation_id;
          line_no = line_no;
          room_type_id = q.line.room_type_id;
          arrival_date = q.line.stay_period.arrival;
          departure_date = q.line.stay_period.departure;
          quantity = q.line.quantity;
          price_snapshot = q.breakdown;
        }
            ∷ []);
  }

-- `for line_no, … in enumerate(quoted, start=line_no)`
unfoldable pub create_lines : ℕ → ℕ → List QuotedLine → Action (Unit {0})
create_lines reservation_id line_no [] = pure tt
create_lines reservation_id line_no (q ∷ quoted) = do
  create_line reservation_id line_no q
  create_lines reservation_id (suc line_no) quoted

unfoldable pub hold_line : Env → ℕ → ℕ → Key → ℕ → QuotedLine → Action (Unit {0})
hold_line env tenant_id property_id idempotency_key line_no q = do
  r ← lift (as_date_range q.line.stay_period)
  _ ←
      hold env
        (record {
          tenant_id = tenant_id;
          property_id = property_id;
          room_type_id = q.line.room_type_id;
          channel = Channel.direct;
        })
        r q.line.quantity (line_key idempotency_key line_no)
  pure tt

unfoldable pub hold_lines : Env → ℕ → ℕ → Key → ℕ → List QuotedLine → Action (Unit {0})
hold_lines env tenant_id property_id idempotency_key line_no [] = pure tt
hold_lines env tenant_id property_id idempotency_key line_no (q ∷ quoted) = do
  hold_line env tenant_id property_id idempotency_key line_no q
  hold_lines env tenant_id property_id idempotency_key (suc line_no) quoted

unfoldable pub get_minutes : Option ℕ → ℕ → ℕ
get_minutes none default = default
get_minutes (some m) default = m

-- The rows of the lines, their holds, and the transition to held.
unfoldable pub hold_reservation :
    Env → ℕ → ℕ → Key → List QuotedLine → Reservation → Action Response
hold_reservation env tenant_id property_id idempotency_key quoted reservation = do
  create_lines reservation.id 1 quoted
  hold_lines env tenant_id property_id idempotency_key 1 quoted
  _ ← run_on ReservationTransition.hold reservation
  pure (id_response reservation.id)

-- What is done with the answers of the other services.
unfoldable pub reserve_quoted :
    Env → ℕ → ℕ → Key → ℕ → Option ℕ → List QuotedLine → ℕ → Action Response
reserve_quoted env tenant_id property_id idempotency_key minutes guest quoted policy_snapshot = do
  reservation ←
      create_reservation tenant_id property_id guest minutes (price_snapshot_of quoted)
        policy_snapshot
  hold_reservation env tenant_id property_id idempotency_key quoted reservation

-- The answers, read or raised without a write to these tables.
unfoldable pub ask :
    Services → ReservationLineRequest → List ReservationLineRequest → Result (List QuotedLine × ℕ)
ask c line lines = elim (quote_all c (line ∷ lines)) [
  | err e ↦ err e
  | ok quoted ↦ elim (c.deposit_policy (earliest_arrival line lines)) [
    | err e ↦ err e
    | ok policy_snapshot ↦ ok (quoted, policy_snapshot)
  ]
]

unfoldable pub execute_reserve :
    Env
    → Services
    → ℕ
    → ℕ
    → ReservationLineRequest
    → List ReservationLineRequest
    → Key
    → Option ℕ
    → Action Response
execute_reserve env c tenant_id property_id line lines idempotency_key hold_minutes = do
  guest ← c.resolve_guest
  answers ← lift (ask c line lines)
  reserve_quoted env tenant_id property_id idempotency_key
      (get_minutes hold_minutes env.reservation_hold_minutes) guest answers.0 answers.1

-- `request_payload` is the caller's: the addresses of the guest and the lines.
unfoldable pub reserve :
    Env
    → Services
    → Payload
    → ℕ
    → ℕ
    → List ReservationLineRequest
    → Key
    → Option ℕ
    → Action Reservation
reserve env c request_payload tenant_id property_id [] idempotency_key hold_minutes =
    raise value_error
reserve env c request_payload tenant_id property_id (line ∷ lines) idempotency_key hold_minutes = do
  response ←
      hotel_booking.Idempotency.run env
        (record { tenant_id = tenant_id; scope = Scope.reservation_reserve; key = idempotency_key })
        request_payload
        (execute_reserve env c tenant_id property_id line lines idempotency_key hold_minutes)
  reservation_of_response response
