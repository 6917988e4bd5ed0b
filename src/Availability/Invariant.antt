-- ===== src/Availability/Invariant.antt =====
-- The anti-oversell invariant over any sequence of calls of `InventoryService`.
use mathlib.Core.Option
use hotel_booking.Base.{
  ℕ, ◌-◌, ◌≤◌, ◌<◌, ◌≡◌, refl, ◌⊎◌, inl, inr, Bool, ◌&&◌, Option, some, List, [], ◌∷◌, arith, ltb,
  leb, if◌then◌else◌, all, elem, select, Bool-cases, Option-cases,
}
use hotel_booking.Base.Int.{ℤ}
use hotel_booking.DateRange.{DateRange}
use hotel_booking.Tx.{Tx, Result}
use hotel_booking.Inventory.{
  SlotKey, Slot, key_eq, used, CounterField, sold_field, reserved_field, consume_window,
  release_window, convert_reserved_to_sold, adjust_out_of_service_window,
}
use hotel_booking.Inventory.View.{view, IsValid, view-within_total}
use hotel_booking.Inventory.OutOfService.{
  shifts, shifted, in_window, adjust_out_of_service_window_lem,
}
use hotel_booking.Inventory.Writes.{
  all_hold, Writes, add_field, drop_field, convert_field, consume_window-Writes,
  release_window-Writes, convert_reserved_to_sold-Writes,
}
use hotel_booking.Model.{Db, Env, Payload, Key}
use hotel_booking.Idempotency.{
  RecordKey, find_record, run, replay, first_request, create_record, complete_record,
}
use hotel_booking.Availability.{
  initialize_horizon, sell, hold, convert_hold_to_sold, release_hold, release_sold,
  adjust_out_of_service, nights_of, missing_dates, then_nights,
}
use hotel_booking.Availability.Sellable.{range-IsDistinct}
use hotel_booking.Availability.Horizon.{IdsBelow, accepts, wanted_dates, initialize_horizon_lem}

-- A call of the service.
pub data Request : Type 0 where
  initialize : SlotKey → ℕ → Option ℕ → Option ℕ → Request
  sell_request hold_request convert_request : SlotKey → DateRange → ℕ → Key → Request
  release_hold_request release_sold_request : SlotKey → DateRange → ℕ → Request
  adjust_request : SlotKey → ℕ → ℕ → ℤ → Request

-- The database after a call, whether it returned or raised.
unfoldable pub perform : Env → Request → Db → Db
perform env (initialize k total start horizon) db =
    (initialize_horizon env k total start horizon db).1
perform env (sell_request k r q key) db = (sell env k r q key db).1
perform env (hold_request k r q key) db = (hold env k r q key db).1
perform env (convert_request k r q key) db = (convert_hold_to_sold env k r q key db).1
perform env (release_hold_request k r q) db = (release_hold k r q db).1
perform env (release_sold_request k r q) db = (release_sold k r q db).1
perform env (adjust_request k a b delta) db = (adjust_out_of_service k a b delta db).1

unfoldable pub perform_all : Env → List Request → Db → Db
perform_all env [] db = db
perform_all env (q ∷ qs) db = perform_all env qs (perform env q db)

-- The table's constraints hold, and the sequence is ahead of its ids.
abbrev pub IsSound : List Slot → ℕ → Type 0
IsSound t n = IsValid t × IdsBelow n t

IdsBelow-view :
    (n : ℕ) (k : SlotKey) (d : ℕ) (t : List Slot) (r : Slot)
    → IdsBelow n t
    → view k d t ≡ some r
    → r.id < n
unfolding view
IdsBelow-view n k d [] r b h = ground arith
IdsBelow-view n k d (s ∷ t) r b h = ground (arith, IdsBelow-view n k d t r b.1)

view-IdsBelow :
    (n : ℕ) (t : List Slot)
    → IsValid t
    → ((k : SlotKey) (d : ℕ) (r : Slot) → view k d t ≡ some r → r.id < n)
    → IdsBelow n t
unfolding view key_eq
view-IdsBelow n [] v h = tt
view-IdsBelow n (s ∷ t) v h = (
  h s.key s.business_date s (ground (arith, v.1)),
  view-IdsBelow n t v.3 (λ k d r e. h k d r (ground (arith, e))),
)

-- A write that maps rows and keeps their ids keeps the table sound.
mapped-IsSound :
    (g : Slot → Slot) (p : SlotKey → ℕ → Bool) (t t' : List Slot) (n : ℕ)
    → ((s : Slot) → (g s).id ≡ s.id)
    → IsSound t n
    → IsValid t'
    → ((k : SlotKey) (d : ℕ)
        → view k d t' ≡ (if p k d then Option.map g (view k d t) else view k d t))
    → IsSound t' n
mapped-IsSound g p t t' n keeps (v, b) v' seen = (
  v',
  view-IdsBelow n t' v' (λ k d r e. elim (Option-cases (view k d t)) [
    | inl gap ↦ ground (arith, seen k d, gap)
    | inr (x, found) ↦ ground (arith, seen k d, found, keeps x, IdsBelow-view n k d t x b found)
  ]),
)

Writes-IsSound :
    (p : Slot → Bool) (g : Slot → Slot) (k : SlotKey) (dates : List ℕ) (t : List Slot) (n : ℕ)
    (out : Result (Unit {0}) × List Slot)
    → ((s : Slot) → (g s).id ≡ s.id)
    → Writes p g k dates t out
    → IsSound t n
    → IsSound out.1 n
Writes-IsSound p g k dates t n out keeps w s = elim (Bool-cases (all_hold p k dates t)) [
  | inl yes' ↦
      let (done, valid, seen) = w.0 yes' in
      mapped-IsSound g (λ k' d. key_eq k k' && elem d dates) t out.1 n keeps s valid seen
  | inr no' ↦ rw (w.1 no') s
]

add_field-id : (field : CounterField) (q : ℕ) (s : Slot) → (add_field field q s).id ≡ s.id
add_field-id sold_field q s = refl
add_field-id reserved_field q s = refl

drop_field-id : (field : CounterField) (q : ℕ) (s : Slot) → (drop_field field q s).id ≡ s.id
drop_field-id sold_field q s = refl
drop_field-id reserved_field q s = refl

-- A keyed write leaves the slots alone (replay, failure) or does the write, and takes no id.
keyed-slots :
    (env : Env) (k : RecordKey) (payload : Payload) (write : Tx (List Slot) (Unit {0}))
    (r : DateRange) (db : Db)
    → let db' = (run env k payload (then_nights write r) db).1 in
      (db'.next_id ≡ db.next_id) × ((db'.slots ≡ db.slots) ⊎ (db'.slots ≡ (write db.slots).1))
unfolding run replay first_request create_record complete_record
keyed-slots env k payload write r db = elim (Option-cases (find_record k db)) [
  | inl new ↦ ground (arith, new)
  | inr (old, found) ↦ ground (arith, found)
]

keyed-IsSound :
    (env : Env) (k : RecordKey) (payload : Payload) (write : Tx (List Slot) (Unit {0}))
    (r : DateRange) (db : Db)
    → IsSound db.slots db.next_id
    → IsSound (write db.slots).1 db.next_id
    → let db' = (run env k payload (then_nights write r) db).1 in IsSound db'.slots db'.next_id
keyed-IsSound env k payload write r db before after =
    let (ids, cases) = keyed-slots env k payload write r db in
    elim cases [ inl same ↦ rw (same, ids) before | inr written ↦ rw (written, ids) after ]

abbrev Sound : Db → Type 0
Sound db = IsSound db.slots db.next_id

module _ (db : Db) (s : Sound db) (k : SlotKey) (r : DateRange) (quantity : ℕ) where
  consume-IsSound :
      (field : CounterField)
      → IsSound (consume_window k (nights_of r) quantity field db.slots).1 db.next_id
  consume-IsSound field =
      Writes-IsSound _ (add_field field quantity) k (nights_of r) db.slots db.next_id _
        (add_field-id field quantity)
        (consume_window-Writes k (nights_of r) quantity field db.slots s.0
          (range-IsDistinct r.start (r.end - r.start)))
        s

  release-IsSound :
      (field : CounterField)
      → IsSound (release_window k (nights_of r) quantity field db.slots).1 db.next_id
  release-IsSound field =
      Writes-IsSound _ (drop_field field quantity) k (nights_of r) db.slots db.next_id _
        (drop_field-id field quantity)
        (release_window-Writes k (nights_of r) quantity field db.slots s.0
          (range-IsDistinct r.start (r.end - r.start)))
        s

  convert-IsSound :
      IsSound (convert_reserved_to_sold k (nights_of r) quantity db.slots).1 db.next_id
  convert-IsSound =
      Writes-IsSound _ (convert_field quantity) k (nights_of r) db.slots db.next_id _ (λ _. refl)
        (convert_reserved_to_sold-Writes k (nights_of r) quantity db.slots s.0
          (range-IsDistinct r.start (r.end - r.start)))
        s

adjust-IsSound :
    (db : Db) (k : SlotKey) (a b : ℕ) (delta : ℤ)
    → Sound db
    → IsSound (adjust_out_of_service_window k a b delta db.slots).1 db.next_id
adjust-IsSound db k a b delta s =
    let w = adjust_out_of_service_window_lem k a b delta db.slots s.0 in
    elim (Bool-cases (all (shifts delta) (select (in_window k a b) db.slots))) [
      | inl yes' ↦
          let (done, valid, seen) = w.0 yes' in
          mapped-IsSound (shifted delta) (λ k' d. key_eq k k' && (leb a d && ltb d b)) db.slots _
            db.next_id (λ _. refl) s valid seen
      | inr no' ↦ rw (w.1 no') s
    ]

perform-Sound : (env : Env) (q : Request) (db : Db) → Sound db → Sound (perform env q db)
unfolding perform sell hold convert_hold_to_sold release_hold release_sold adjust_out_of_service
perform-Sound env (initialize k total start horizon) db s =
    let (opens, refuses) = initialize_horizon_lem env k total start horizon db s.0 s.1 in
    let missing = missing_dates k (wanted_dates env start horizon db) db.slots in
    elim (Bool-cases (accepts env total missing)) [
      | inl yes' ↦ let (_, valid, below, _, _) = opens yes' in (valid, below)
      | inr no' ↦ rw ((refuses no').1) s
    ]
perform-Sound env (sell_request k r q key) db s =
    keyed-IsSound env _ _ (consume_window k (nights_of r) q sold_field) r db s
      (consume-IsSound db s k r q sold_field)
perform-Sound env (hold_request k r q key) db s =
    keyed-IsSound env _ _ (consume_window k (nights_of r) q reserved_field) r db s
      (consume-IsSound db s k r q reserved_field)
perform-Sound env (convert_request k r q key) db s =
    keyed-IsSound env _ _ (convert_reserved_to_sold k (nights_of r) q) r db s
      (convert-IsSound db s k r q)
perform-Sound env (release_hold_request k r q) db s = release-IsSound db s k r q reserved_field
perform-Sound env (release_sold_request k r q) db s = release-IsSound db s k r q sold_field
perform-Sound env (adjust_request k a b delta) db s = adjust-IsSound db k a b delta s

perform_all-Sound :
    (env : Env) (qs : List Request) (db : Db) → Sound db → Sound (perform_all env qs db)
unfolding perform_all
perform_all-Sound env [] db s = s
perform_all-Sound env (q ∷ qs) db s =
    perform_all-Sound env qs (perform env q db) (perform-Sound env q db s)

-- Never oversold: from a database with no slots, after any sequence of calls of the service, the
-- failing ones included, the table's constraints hold and the sequence is ahead of its ids, and
-- every slot has sold, reserved, blocked and out-of-service units that together are at most its
-- total.
pub perform_all-within_total :
    (env : Env) (qs : List Request) (db : Db)
    → db.slots ≡ []
    → let db' = perform_all env qs db in
      IsValid db'.slots
      × IdsBelow db'.next_id db'.slots
      × ((k : SlotKey) (d : ℕ) (s : Slot) → view k d db'.slots ≡ some s → used s ≤ s.total_units)
perform_all-within_total env qs db empty =
    let (valid, below) = perform_all-Sound env qs db (rw empty (tt, tt)) in
    (valid, below, λ k d s e. view-within_total k d _ s valid e)
