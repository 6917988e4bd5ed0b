-- ===== src/Availability/Held.antt =====
-- A hold and its release, as the caller of `InventoryService` sees them: the slots that they
-- change, and the tables and idempotency records that they leave.
use mathlib.Core.Option
use hotel_booking.Base.{
  ℕ, ◌-◌, ◌<◌, ◌≡◌, ◌≢◌, refl, sym, ◌∙◌, true, false, ◌&&◌, none, some, List, [], ◌∷◌, arith, leb,
  if◌then◌else◌, elem, length, find?, inl, inr, Bool-cases, Option-cases,
}
use hotel_booking.DateRange.{DateRange}
use hotel_booking.Tx.{Tx, ok}
use hotel_booking.Tx.Keeps.{Result-cases}
use hotel_booking.Inventory.{SlotKey, Slot, remaining, key_eq, reserved_field, consume_window}
use hotel_booking.Inventory.View.{view, IsValid}
use hotel_booking.Inventory.Writes.{
  all_hold, all_hold-elem, add_field, drop_field, release_window-Writes,
}
use hotel_booking.Model.{
  Db, Env, Payload, Key, client, line_key, convert_line_key, Response, inventory_hold, InventoryOp,
  window_response, IdempotencyRecord, IdempotencyStatus,
}
use hotel_booking.Idempotency.{
  RecordKey, find_record, matches, replay, first_request, create_record, complete_record,
  complete_all, run,
}
use hotel_booking.Availability.{
  hold, release_hold, is_sellable, nights_of, then_nights, record_key, payload_of,
}
use hotel_booking.Availability.Sellable.{is_sellable-all_hold, hold-is_sellable, range-IsDistinct}

-- The slots after a write that maps those of a window.
abbrev pub MapsWindow : (Slot → Slot) → SlotKey → DateRange → List Slot → List Slot → Type 0
MapsWindow g k r t t' =
    (k' : SlotKey) (d : ℕ)
    → view k' d t'
      ≡ (if key_eq k k' && elem d (nights_of r) then Option.map g (view k' d t) else view k' d t)

-- What a hold that returned did.
pub hold_ok :
    (env : Env) (k : SlotKey) (r : DateRange) (quantity : ℕ) (key : Key) (db : Db) (x : Response)
    → IsValid db.slots
    → 0 < quantity
    → find_record (record_key k inventory_hold key) db ≡ none
    → (hold env k r quantity key db).0 ≡ ok x
    → let db' = (hold env k r quantity key db).1 in
      IsValid db'.slots × MapsWindow (add_field reserved_field quantity) k r db.slots db'.slots
hold_ok env k r quantity key db x v pos' new done =
    let (succeeds, fails) = hold-is_sellable env k r quantity key db v pos' new in
    elim (Bool-cases (is_sellable k r quantity db.slots)) [
      | inl yes' ↦ let (_, valid, seen) = succeeds yes' in (valid, seen)
      | inr no' ↦ let e = fails no' in ground (arith, e, done)
    ]

-- Every night of a hold that returned has a slot.
pub hold_rows :
    (env : Env) (k : SlotKey) (r : DateRange) (quantity : ℕ) (key : Key) (db : Db) (x : Response)
    → IsValid db.slots
    → 0 < quantity
    → find_record (record_key k inventory_hold key) db ≡ none
    → (hold env k r quantity key db).0 ≡ ok x
    → (d : ℕ) → elem d (nights_of r) ≡ true
    → view k d db.slots ≢ none
hold_rows env k r quantity key db x v pos' new done d m gap =
    let (_, fails) = hold-is_sellable env k r quantity key db v pos' new in
    elim (Bool-cases (is_sellable k r quantity db.slots)) [
      | inl yes' ↦
          let (row, found, _) =
            all_hold-elem (λ s. leb quantity (remaining s)) k (nights_of r) db.slots d
              (sym (is_sellable-all_hold k r quantity db.slots pos') ∙ yes') m in
          ground (arith, gap, found)
      | inr no' ↦ let e = fails no' in ground (arith, e, done)
    ]

-- A keyed write leaves the other tables.
abbrev pub SameTables : Db → Db → Type 0
SameTables a b =
    (b.reservations ≡ a.reservations)
    × (b.reservation_lines ≡ a.reservation_lines)
    × (b.next_id ≡ a.next_id)
    × (b.now ≡ a.now)

pub keyed-SameTables :
    (env : Env) (k : RecordKey) (payload : Payload) (write : Tx (List Slot) (Unit {0}))
    (r : DateRange) (db : Db)
    → SameTables db (run env k payload (then_nights write r) db).1
unfolding run replay first_request create_record complete_record
keyed-SameTables env k payload write r db = elim (Option-cases (find_record k db)) [
  | inl new ↦ ground (arith, new)
  | inr (old, found) ↦ ground (arith, found)
]

pub hold-SameTables :
    (env : Env) (k : SlotKey) (r : DateRange) (quantity : ℕ) (key : Key) (db : Db)
    → SameTables db (hold env k r quantity key db).1
unfolding hold
hold-SameTables env k r quantity key db = keyed-SameTables env _ _ _ r db

-- No record of one key is a record of the other.
abbrev pub AreApart : RecordKey → RecordKey → Type 0
AreApart a b = (x : IdempotencyRecord) → matches a x ≡ true → matches b x ≡ false

find-complete_all_apart :
    (a b : RecordKey) (response : Response) (rs : List IdempotencyRecord)
    → AreApart a b
    → ((x : IdempotencyRecord) (y : Response)
        → matches b x ≡ false
        → matches b (record x { response = some y; status = IdempotencyStatus.completed }) ≡ false)
    → find? (matches b) rs ≡ none
    → find? (matches b) (complete_all a response rs) ≡ none
find-complete_all_apart a b response [] apart same h = refl
find-complete_all_apart a b response (r ∷ rs) apart same h =
    ground (arith, apart r, same r response, find-complete_all_apart a b response rs apart same)

matches-completed :
    (b : RecordKey) (x : IdempotencyRecord) (y : Response)
    → matches b x ≡ false
    → matches b (record x { response = some y; status = IdempotencyStatus.completed }) ≡ false
unfolding matches
matches-completed b x y h = h

pub keyed-find_record :
    (env : Env) (a b : RecordKey) (payload : Payload) (write : Tx (List Slot) (Unit {0}))
    (r : DateRange) (db : Db)
    → AreApart a b
    → matches b (record {
      tenant_id = a.tenant_id;
      scope = a.scope;
      idempotency_key = a.key;
      request_hash = env.fingerprint payload;
      response = none;
      status = IdempotencyStatus.in_progress;
    })
      ≡ false
    → find_record b db ≡ none
    → find_record b (run env a payload (then_nights write r) db).1 ≡ none
unfolding run replay first_request create_record complete_record
keyed-find_record env a b payload write r db apart fresh h =
    let first : IdempotencyRecord = record {
      tenant_id = a.tenant_id;
      scope = a.scope;
      idempotency_key = a.key;
      request_hash = env.fingerprint payload;
      response = none;
      status = IdempotencyStatus.in_progress;
    } in
    let begun : find? (matches b) (first ∷ db.idempotency) ≡ none = ground (arith, fresh, h) in
    elim (Option-cases (find_record a db)) [
      | inr (old, found) ↦ ground (arith, found, h)
      | inl new ↦ elim (Result-cases (write db.slots).0) [
        | inr (e, failed) ↦ ground (arith, new, failed, h)
        | inl (u, fine) ↦ ground (
          arith,
          new,
          fine,
          find-complete_all_apart a b (window_response (length (nights_of r)))
              (first ∷ db.idempotency) apart (matches-completed b) begun,
        )
      ]
    ]

keys_apart :
    (x key : Key) (n m : ℕ)
    → n ≢ m
    → hotel_booking.Idempotency.key_eq x (line_key key n) ≡ true
    → hotel_booking.Idempotency.key_eq x (line_key key m) ≡ false
unfolding hotel_booking.Idempotency.key_eq
keys_apart (client a) key n m other h = refl
keys_apart (line_key a i) key n m other h = ground arith
keys_apart (convert_line_key a i) key n m other h = refl

pub line_keys-AreApart :
    (k k' : SlotKey) (key : Key) (n m : ℕ)
    → n ≢ m
    → AreApart
        (record_key k inventory_hold (line_key key n))
        (record_key k' inventory_hold (line_key key m))
unfolding matches
line_keys-AreApart k k' key n m other x h =
    ground (arith, keys_apart x.idempotency_key key n m other)

-- A hold under one line's key leaves the other lines' keys unused.
pub hold-find_record :
    (env : Env) (k k' : SlotKey) (r : DateRange) (quantity : ℕ) (key : Key) (n m : ℕ) (db : Db)
    → n ≢ m
    → find_record (record_key k' inventory_hold (line_key key m)) db ≡ none
    → find_record
        (record_key k' inventory_hold (line_key key m))
        (hold env k r quantity (line_key key n) db).1
      ≡ none
unfolding hold matches hotel_booking.Idempotency.key_eq
hold-find_record env k k' r quantity key n m db other h =
    keyed-find_record env (record_key k inventory_hold (line_key key n))
      (record_key k' inventory_hold (line_key key m)) (payload_of InventoryOp.hold k r quantity)
      (consume_window k (nights_of r) quantity reserved_field) r db
      (line_keys-AreApart k k' key n m other) (ground arith) h

all_hold-of_rows :
    (k : SlotKey) (ds : List ℕ) (t : List Slot)
    → ((d : ℕ) → elem d ds ≡ true → view k d t ≢ none)
    → all_hold (λ _. true) k ds t ≡ true
all_hold-of_rows k [] t h = refl
all_hold-of_rows k (d ∷ ds) t h =
    let here = h d (ground arith) in
    ground
      (arith, here, Option-cases (view k d t), all_hold-of_rows k ds t (λ e m. h e (ground arith)))

pub release_hold_ok :
    (k : SlotKey) (r : DateRange) (quantity : ℕ) (db : Db)
    → IsValid db.slots
    → ((d : ℕ) → elem d (nights_of r) ≡ true → view k d db.slots ≢ none)
    → let (x, db') = release_hold k r quantity db in
      (x ≡ ok tt)
      × IsValid db'.slots
      × MapsWindow (drop_field reserved_field quantity) k r db.slots db'.slots
      × (db' ≡ record db { slots = db'.slots })
unfolding release_hold
release_hold_ok k r quantity db v rows =
    let (succeeds, _) =
      release_window-Writes k (nights_of r) quantity reserved_field db.slots v
        (range-IsDistinct r.start (r.end - r.start)) in
    let (done, valid, seen) = succeeds (all_hold-of_rows k (nights_of r) db.slots rows) in
    (done, valid, seen, refl)
