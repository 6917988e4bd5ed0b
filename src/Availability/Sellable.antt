-- ===== src/Availability/Sellable.antt =====
-- The unlocked preview `is_sellable` against the locked write `hold`.
use mathlib.Core.Option
use hotel_booking.Base.{
  ℕ, suc, zero, ◌-◌, ◌≤◌, ◌<◌, ◌≡◌, refl, true, false, ◌&&◌, none, List, [], ◌∷◌, arith, ltb, leb,
  if◌then◌else◌, all, elem, length, range_from, sym, ◌∙◌,
}
use hotel_booking.DateRange.{DateRange, elem-range_from}
use hotel_booking.Tx.{Tx, ok, err, insufficient_availability}
use hotel_booking.Inventory.{SlotKey, Slot, key_eq, remaining, reserved_field, consume_window}
use hotel_booking.Inventory.View.{view, IsValid}
use hotel_booking.Inventory.Window.{IsDistinct}
use hotel_booking.Inventory.OutOfService.{by_date-select}
use hotel_booking.Inventory.Writes.{all_hold, add_field, consume_window-Writes}
use hotel_booking.Model.{Db, Env, Key, window_response, inventory_hold, InventoryOp, Payload}
use hotel_booking.Idempotency.{find_record, RecordKey, run, create_record}
use hotel_booking.Idempotency.Replay.{run-failure, run-success, started}
use hotel_booking.Availability.{
  remaining_for_range, nights_of, is_sellable, get_or, hold, record_key, payload_of, then_nights,
}

pub range-IsDistinct : (start n : ℕ) → IsDistinct (range_from start n)
range-IsDistinct start zero = tt
range-IsDistinct start (suc n) =
    (ground (arith, elem-range_from start (suc start) n), range-IsDistinct (suc start) n)

remaining_for_range-view :
    (k : SlotKey) (r : DateRange) (t : List Slot) (d : ℕ)
    → remaining_for_range k r t d
      ≡ (if leb r.start d && ltb d r.end then Option.map (λ s. remaining s) (view k d t) else none)
unfolding remaining_for_range
remaining_for_range-view k r t d = ground (arith, by_date-select k r.start r.end d t)

all-holds :
    (k : SlotKey) (r : DateRange) (quantity : ℕ) (t : List Slot) (ds : List ℕ)
    → 0 < quantity
    → ((d : ℕ) → elem d ds ≡ true → (r.start ≤ d) × (d < r.end))
    → all (λ night. leb quantity (get_or (remaining_for_range k r t night) 0)) ds
      ≡ all_hold (λ s. leb quantity (remaining s)) k ds t
unfolding get_or
all-holds k r quantity t [] pos' inside = refl
all-holds k r quantity t (d ∷ ds) pos' inside = ground (
  arith,
  remaining_for_range-view k r t d,
  inside d,
  all-holds k r quantity t ds pos' (λ e m. inside e (ground arith)),
)

pub is_sellable-all_hold :
    (k : SlotKey) (r : DateRange) (quantity : ℕ) (t : List Slot)
    → 0 < quantity
    → is_sellable k r quantity t ≡ all_hold (λ s. leb quantity (remaining s)) k (nights_of r) t
unfolding is_sellable
is_sellable-all_hold k r quantity t pos' =
    all-holds k r quantity t (nights_of r) pos'
      (λ d m. ground (arith, elem-range_from d r.start (r.end - r.start)))

started-slots :
    (env : Env) (k : RecordKey) (payload : Payload) (db : Db)
    → (started env k payload db).slots ≡ db.slots
unfolding create_record
started-slots env k payload db = ground arith

module _ (env : Env) (k : RecordKey) (payload : Payload) (write : Tx (List Slot) (Unit {0}))
    (r : DateRange) (db : Db) (new : find_record k db ≡ none) where
  -- A write under a new key whose table write succeeds.
  pub keyed_ok :
      (t : List Slot)
      → write db.slots ≡ (ok tt, t)
      → let out = run env k payload (then_nights write r) db in
        (out.0 ≡ ok (window_response (length (nights_of r)))) × (out.1.slots ≡ t)
  unfolding create_record
  keyed_ok t done =
      let at : then_nights write r (started env k payload db) ≡ (
        ok (window_response (length (nights_of r))),
        record (started env k payload db) { slots = t },
      ) =
        ground (arith, new, done) in
      rw
        (run-success env k payload (then_nights write r) db
          (record (started env k payload db) { slots = t }) (window_response (length (nights_of r)))
          new at)
        (refl, refl)

  pub keyed_fails :
      write db.slots ≡ (err insufficient_availability, db.slots)
      → run env k payload (then_nights write r) db ≡ (err insufficient_availability, db)
  unfolding create_record
  keyed_fails fails =
      run-failure env k payload (then_nights write r) db insufficient_availability new
        (ground (arith, new, fails)) (λ e. cc)

-- The preview tells the truth: for a positive quantity and a key not used before, a hold succeeds
-- exactly when the range was sellable. It then adds the quantity to `reserved` on each night of
-- the range, changes no other slot and keeps the table's constraints; otherwise it raises
-- `InsufficientAvailability` and the whole database is as it was.
pub hold-is_sellable :
    (env : Env) (k : SlotKey) (r : DateRange) (quantity : ℕ) (key : Key) (db : Db)
    → IsValid db.slots
    → 0 < quantity
    → find_record (record_key k inventory_hold key) db ≡ none
    → let out = hold env k r quantity key db in
      (is_sellable k r quantity db.slots ≡ true
        → (out.0 ≡ ok (window_response (length (nights_of r))))
          × IsValid out.1.slots
          × ((k' : SlotKey) (d : ℕ)
              → view k' d out.1.slots ≡ (
                  if key_eq k k' && elem d (nights_of r)
                  then Option.map (add_field reserved_field quantity) (view k' d db.slots)
                  else view k' d db.slots)))
      × (is_sellable k r quantity db.slots ≡ false → out ≡ (err insufficient_availability, db))
unfolding hold
hold-is_sellable env k r quantity key db v pos' new =
    let same = is_sellable-all_hold k r quantity db.slots pos' in
    let (succeeds, fails) =
      consume_window-Writes k (nights_of r) quantity reserved_field db.slots v
        (range-IsDistinct r.start (r.end - r.start)) in
    let write = consume_window k (nights_of r) quantity reserved_field in
    let rk = record_key k inventory_hold key in
    let payload = payload_of InventoryOp.hold k r quantity in
    (
      λ yes'.
          let (done, valid, seen) = succeeds (sym same ∙ yes') in
          let (a, b) =
            keyed_ok env rk payload write r db new (write db.slots).1 (ground (arith, done)) in
          (a, rw b valid, λ k' d. rw b (seen k' d)),
      λ no'. keyed_fails env rk payload write r db new (fails (sym same ∙ no')),
    )
