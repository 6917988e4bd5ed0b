-- ===== src/Reservations/Capacity.antt =====
-- The capacity of a reservation: what holding its lines takes from the slots, releasing them gives
-- back.
use mathlib.Core.Option
use hotel_booking.Base.{
  ℕ, suc, ◌+◌, ◌≤◌, ◌<◌, ◌≡◌, ◌≢◌, refl, sym, ◌∙◌, ap, true, ◌&&◌, Option, none, some, List, [],
  ◌∷◌, arith, ltb, if◌then◌else◌, elem, All, inl, inr, Bool-cases, Option-cases,
}
use hotel_booking.DateRange.{DateRange, as_date_range, date_range}
use hotel_booking.Tx.{ok}
use hotel_booking.Tx.Keeps.{Result-cases, bind_ok}
use hotel_booking.Inventory.{SlotKey, Slot, Channel, key_eq, reserved_field}
use hotel_booking.Inventory.View.{view, IsValid}
use hotel_booking.Inventory.Writes.{add_field}
use hotel_booking.Model.{Db, Env, Key, line_key, Response, inventory_hold}
use hotel_booking.Idempotency.{find_record}
use hotel_booking.Availability.{hold, nights_of, record_key}
use hotel_booking.Availability.Held.{
  SameTables, hold_ok, hold_rows, hold-SameTables, hold-find_record,
}
use hotel_booking.Reservations.Reserve.{QuotedLine, hold_line, hold_lines}

map-add_0 : (o : Option Slot) → Option.map (add_field reserved_field 0) o ≡ o
map-add_0 none = refl
map-add_0 (some s) = ground arith

module _ (env : Env) (tenant_id property_id : ℕ) (key : Key) where
  abbrev pub quoted_key : QuotedLine → SlotKey
  quoted_key q = record {
    tenant_id = tenant_id;
    property_id = property_id;
    room_type_id = q.line.room_type_id;
    channel = Channel.direct;
  }

  abbrev pub quoted_range : QuotedLine → DateRange
  quoted_range q = record { start = q.line.stay_period.arrival; end = q.line.stay_period.departure }

  -- The units that a line takes from a slot, and those that all lines take.
  abbrev pub line_units : SlotKey → ℕ → QuotedLine → ℕ
  line_units k d q =
      if key_eq (quoted_key q) k && elem d (nights_of (quoted_range q)) then q.line.quantity else 0

  abbrev pub held_units : SlotKey → ℕ → List QuotedLine → ℕ
  held_units k d [] = 0
  held_units k d (q ∷ qs) = line_units k d q + held_units k d qs

  -- No record of the line's key in the database.
  abbrev pub IsNew : ℕ → Db → Type 0
  IsNew n db =
      (k : SlotKey)
      → k.tenant_id ≡ tenant_id
      → find_record (record_key k inventory_hold (line_key key n)) db ≡ none

  -- Each night of the line has a slot.
  abbrev pub HasRows : List Slot → QuotedLine → Type 0
  HasRows t q =
      (d : ℕ) → elem d (nights_of (quoted_range q)) ≡ true → view (quoted_key q) d t ≢ none

  -- What a held line leaves.
  abbrev pub IsHeld : ℕ → QuotedLine → Db → Db → Type 0
  IsHeld n q db db' =
      IsValid db'.slots
      × ((k : SlotKey) (d : ℕ)
          → view k d db'.slots
            ≡ Option.map (add_field reserved_field (line_units k d q)) (view k d db.slots))
      × HasRows db.slots q
      × SameTables db db'
      × (ltb q.line.stay_period.arrival q.line.stay_period.departure ≡ true)
      × ((m : ℕ) → n < m → IsNew m db → IsNew m db')

  hold_line-hold :
      (n : ℕ) (q : QuotedLine) (db : Db)
      → (hold_line env tenant_id property_id key n q db).0 ≡ ok tt
      → let h = hold env (quoted_key q) (quoted_range q) q.line.quantity (line_key key n) db in
        (ltb q.line.stay_period.arrival q.line.stay_period.departure ≡ true)
        × ((x : Response) × (h.0 ≡ ok x))
        × ((hold_line env tenant_id property_id key n q db).1 ≡ h.1)
  unfolding hold_line as_date_range date_range
  hold_line-hold n q db done =
      let h = hold env (quoted_key q) (quoted_range q) q.line.quantity (line_key key n) db in
      elim (Bool-cases (ltb q.line.stay_period.arrival q.line.stay_period.departure)) [
        | inr bad ↦ ground (arith, bad)
        | inl fine ↦ elim (Result-cases h.0) [
          | inr (e, failed) ↦ ground (arith, fine, failed)
          | inl (x, held) ↦ (fine, (x, held), ground (arith, fine, held))
        ]
      ]

  hold_line_ok :
      (n : ℕ) (q : QuotedLine) (db : Db)
      → IsValid db.slots
      → 0 < q.line.quantity
      → IsNew n db
      → (hold_line env tenant_id property_id key n q db).0 ≡ ok tt
      → IsHeld n q db (hold_line env tenant_id property_id key n q db).1
  hold_line_ok n q db v pos' new done =
      let (fine, (x, held), same) = hold_line-hold n q db done in
      let new' = new (quoted_key q) refl in
      let (valid, seen) =
        hold_ok env (quoted_key q) (quoted_range q) q.line.quantity (line_key key n) db x v pos'
          new' held in
      let whole : IsHeld n q db
          (hold env (quoted_key q) (quoted_range q) q.line.quantity (line_key key n) db).1 =
        (
          valid,
          λ k d. ground (arith, seen k d, map-add_0 (view k d db.slots)),
          hold_rows env (quoted_key q) (quoted_range q) q.line.quantity (line_key key n) db x v pos'
              new' held,
          hold-SameTables env (quoted_key q) (quoted_range q) q.line.quantity (line_key key n) db,
          fine,
          λ m lt old k e.
              hold-find_record env (quoted_key q) k (quoted_range q) q.line.quantity key n m db
                (λ same'. omega (arith, lt, same')) (old k e),
        ) in
      rw same whole

  abbrev pub AreQuantities : List QuotedLine → Type 0
  AreQuantities = All (λ q. 0 < q.line.quantity)

  -- The slots after lines were held.
  abbrev pub AreHeld : List QuotedLine → List Slot → List Slot → Type 0
  AreHeld qs t t' =
      IsValid t'
      × ((k : SlotKey) (d : ℕ)
          → view k d t' ≡ Option.map (add_field reserved_field (held_units k d qs)) (view k d t))
      × All (HasRows t) qs
      × All (λ q. ltb q.line.stay_period.arrival q.line.stay_period.departure ≡ true) qs

  HasRows-back :
      (t t' : List Slot) (u : SlotKey → ℕ → ℕ) (qs : List QuotedLine)
      → ((k : SlotKey) (d : ℕ)
          → view k d t' ≡ Option.map (add_field reserved_field (u k d)) (view k d t))
      → All (HasRows t') qs
      → All (HasRows t) qs
  HasRows-back t t' u [] seen h = tt
  HasRows-back t t' u (q ∷ qs) seen h = (
    λ d m gap. h.0 d m (ground (arith, seen (quoted_key q) d, gap)),
    HasRows-back t t' u qs seen h.1,
  )

  pub hold_lines_ok :
      (n : ℕ) (qs : List QuotedLine) (db : Db)
      → IsValid db.slots
      → AreQuantities qs
      → ((m : ℕ) → n ≤ m → IsNew m db)
      → (hold_lines env tenant_id property_id key n qs db).0 ≡ ok tt
      → let db' = (hold_lines env tenant_id property_id key n qs db).1 in
        AreHeld qs db.slots db'.slots × SameTables db db'
  unfolding hold_lines
  hold_lines_ok n [] db v p new done =
      ((v, λ k d. sym (map-add_0 (view k d db.slots)), tt, tt), (refl, refl, refl, refl))
  hold_lines_ok n (q ∷ qs) db v p new done =
      let first = hold_line env tenant_id property_id key n q in
      elim (Result-cases (first db).0) [
        | inr (e, failed) ↦ ground (arith, failed)
        | inl (u, fine) ↦
            let ran =
              bind_ok first (λ _. hold_lines env tenant_id property_id key (suc n) qs) db u fine in
            let (valid, seen, rows, same, dates, kept) =
              hold_line_ok n q db v p.0 (new n (omega arith)) fine in
            let db1 = (first db).1 in
            let rest =
              hold_lines_ok (suc n) qs db1 valid p.1
                (λ m le. kept m (omega (arith, le)) (new m (omega (arith, le))))
                (ap (λ o. o.0) (sym ran) ∙ done) in
            let (after, same2) = rest in
            let (valid2, seen2, rows2, dates2) = after in
            let db2 = (hold_lines env tenant_id property_id key (suc n) qs db1).1 in
            let whole : AreHeld (q ∷ qs) db.slots db2.slots × SameTables db db2 = (
              (
                valid2,
                λ k d. ground (arith, seen2 k d, seen k d, Option-cases (view k d db.slots)),
                (rows, HasRows-back db.slots db1.slots (λ k d. line_units k d q) qs seen rows2),
                (dates, dates2),
              ),
              ground (arith, same, same2),
            ) in
            rw ran whole
      ]
