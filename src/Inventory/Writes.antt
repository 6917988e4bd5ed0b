-- ===== src/Inventory/Writes.antt =====
-- The writes of the repository, each against its specification over the table's view:
-- all-or-nothing, exactly when every night of the window allows it.
use mathlib.Core.Option
use hotel_booking.Base.{
  ℕ, ◌+◌, ◌-◌, ◌≡◌, refl, Bool, true, false, ◌&&◌, not, ◌==◌, Option-cases, Option, none, some,
  List, [], ◌∷◌, arith, leb, if◌then◌else◌, all, elem, inl, inr, Bool-cases,
}
use hotel_booking.Tx.{Result, ok, err, insufficient_availability, raise_if, atomic, ◌>>=◌, ◌>>◌}
use hotel_booking.Inventory.{
  SlotKey, Slot, Slots, key_eq, remaining, by_date, all_found, window_rows, update_each,
  lock_window, CounterField, sold_field, reserved_field, get_field, set_field, add_to, convert_row,
  release_row, consume_window, release_window, convert_reserved_to_sold,
}
use hotel_booking.Inventory.View.{view, IsValid}
use hotel_booking.Inventory.Window.{
  by_date-window_rows, all_found-ext, all-window_rows, window_rows-all, IsDistinct, IsReady,
  Updates, rewritten, update_each-rewritten, view-rewritten,
}

abbrev pub holds : (Slot → Bool) → Option Slot → Bool
holds p none = false
holds p (some r) = p r

-- Every night of the window has a row, and that row passes the test.
abbrev pub all_hold : (Slot → Bool) → SlotKey → List ℕ → List Slot → Bool
all_hold p k [] t = true
all_hold p k (d ∷ ds) t = holds p (view k d t) && all_hold p k ds t

-- The specification of a write over a window: if every night passes the test `p`, then every
-- night's row is rewritten by `g`, no other row changes and the constraints still hold; if not,
-- the write raises and the table is as it was.
abbrev pub Writes :
    (Slot → Bool)
    → (Slot → Slot)
    → SlotKey
    → List ℕ
    → List Slot
    → Result (Unit {0}) × List Slot
    → Type 0
Writes p g k dates t out =
    (all_hold p k dates t ≡ true
      → (out.0 ≡ ok tt)
        × IsValid out.1
        × ((k' : SlotKey) (d : ℕ)
            → view k' d out.1
              ≡ (if key_eq k k' && elem d dates then Option.map g (view k' d t) else view k' d t)))
    × (all_hold p k dates t ≡ false → out ≡ (err insufficient_availability, t))

pub all_hold-elem :
    (p : Slot → Bool) (k : SlotKey) (dates : List ℕ) (t : List Slot) (d : ℕ)
    → all_hold p k dates t ≡ true
    → elem d dates ≡ true
    → (r : Slot) × (view k d t ≡ some r) × (p r ≡ true)
all_hold-elem p k [] t d h m = ground arith
all_hold-elem p k (e ∷ ds) t d h m = elim (Bool-cases (d == e)) [
  | inl same ↦ elim (Option-cases (view k e t)) [
    | inl gap ↦ ground (arith, gap)
    | inr (r, found) ↦ (r, ground (arith, found), ground (arith, found))
  ]
  | inr other ↦ all_hold-elem p k ds t d (ground (arith, other)) (ground (arith, other))
]

all_found-of_all_hold :
    (p : Slot → Bool) (k : SlotKey) (dates : List ℕ) (t : List Slot)
    → all_hold p k dates t ≡ true
    → all_found (λ d. view k d t) dates ≡ true
all_found-of_all_hold p k [] t h = refl
all_found-of_all_hold p k (d ∷ ds) t h = ground (arith, all_found-of_all_hold p k ds t)

all_hold-of_found :
    (p : Slot → Bool) (k : SlotKey) (dates : List ℕ) (t : List Slot)
    → all_found (λ d. view k d t) dates ≡ true
    → ((d : ℕ) (r : Slot) → elem d dates ≡ true → view k d t ≡ some r → p r ≡ true)
    → all_hold p k dates t ≡ true
all_hold-of_found p k [] t f h = refl
all_hold-of_found p k (d ∷ ds) t f h = elim (Option-cases (view k d t)) [
  | inl gap ↦ ground (arith, gap)
  | inr (r, found) ↦ ground (
    arith,
    found,
    h d r,
    all_hold-of_found p k ds t (ground (arith, found)) (λ e x m. h e x (ground arith)),
  )
]

-- The dictionary has every date of the window exactly when the table has.
found-window_rows :
    (k : SlotKey) (dates : List ℕ) (t : List Slot)
    → all_found (by_date (window_rows k dates t)) dates ≡ all_found (λ d. view k d t) dates
found-window_rows k dates t =
    all_found-ext _ _ dates (λ d m. ground (arith, by_date-window_rows k dates d t))

-- The shape that the writes share: lock, test the locked rows, rewrite them.
guarded : (Slot → Bool) → (Slot → Slot → Option Slot) → SlotKey → List ℕ → Slots (Unit {0})
guarded p f k dates = atomic do
  locked ← lock_window k dates
  raise_if (not (all p locked)) insufficient_availability
  update_each f (by_date locked) dates

guarded-fails :
    (p : Slot → Bool) (f : Slot → Slot → Option Slot) (k : SlotKey) (dates : List ℕ) (t : List Slot)
    → all_hold p k dates t ≡ false
    → guarded p f k dates t ≡ (err insufficient_availability, t)
unfolding guarded lock_window
guarded-fails p f k dates t h = elim (Bool-cases (all_found (λ d. view k d t) dates)) [
  | inr missing ↦ ground (arith, missing, found-window_rows k dates t)
  | inl found ↦ elim (Bool-cases (all p (window_rows k dates t))) [
    | inl fits ↦
        cc (
          all_hold-of_found p k dates t found (λ d r m e. all-window_rows p k dates d t r fits m e))
    | inr short ↦ ground (arith, found, short, found-window_rows k dates t)
  ]
]

module _ (p : Slot → Bool) (f : Slot → Slot → Option Slot) (g : Slot → Slot)
    (step : Updates p f g) where
  all_hold-IsReady :
      (k : SlotKey) (dates : List ℕ) (t : List Slot)
      → all_hold p k dates t ≡ true
      → IsReady p k (by_date (window_rows k dates t)) dates t
  all_hold-IsReady k dates t h d m =
      let (r, found, good) = all_hold-elem p k dates t d h m in
      (r, found, ground (arith, found, by_date-window_rows k dates d t), good)

  guarded_ok :
      (k : SlotKey) (dates : List ℕ) (t : List Slot)
      → IsValid t
      → IsDistinct dates
      → all_hold p k dates t ≡ true
      → guarded p f k dates t ≡ (ok tt, rewritten g k dates t)
  unfolding guarded lock_window
  guarded_ok k dates t v n h =
      let fits = window_rows-all p k dates t v (λ d r m e.
        let (r', found, good) = all_hold-elem p k dates t d h m in ground (arith, found)) in
      let (loop, valid) =
        update_each-rewritten p f g step k (by_date (window_rows k dates t)) dates t v n
          (all_hold-IsReady k dates t h) in
      ground (arith, fits, loop, found-window_rows k dates t, all_found-of_all_hold p k dates t)

  guarded-Writes :
      (k : SlotKey) (dates : List ℕ) (t : List Slot)
      → IsValid t
      → IsDistinct dates
      → Writes p g k dates t (guarded p f k dates t)
  guarded-Writes k dates t v n = (
    λ h. rw (guarded_ok k dates t v n h) (
      refl,
      (update_each-rewritten p f g step k (by_date (window_rows k dates t)) dates t v n
          (all_hold-IsReady k dates t h)).1,
      (λ k' d.
          view-rewritten p f g step k (by_date (window_rows k dates t)) dates t k' d v n
            (all_hold-IsReady k dates t h)),
    ),
    guarded-fails p f k dates t,
  )

-- What the writes do to one row.
abbrev pub add_field : CounterField → ℕ → Slot → Slot
add_field field quantity s = set_field field (get_field field s + quantity) s

abbrev pub drop_field : CounterField → ℕ → Slot → Slot
drop_field field quantity s = set_field field (get_field field s - quantity) s

abbrev pub convert_field : ℕ → Slot → Slot
convert_field quantity s = record s { reserved = s.reserved - quantity; sold = s.sold + quantity }

add_to-Updates :
    (field : CounterField) (quantity : ℕ)
    → Updates
        (λ r. leb quantity (remaining r))
        (λ _. add_to field quantity)
        (add_field field quantity)
add_to-Updates sold_field quantity r h v = ground arith
add_to-Updates reserved_field quantity r h v = ground arith

release_row-Updates :
    (field : CounterField) (quantity : ℕ)
    → Updates (λ _. true) (release_row field quantity) (drop_field field quantity)
release_row-Updates sold_field quantity r h v = ground arith
release_row-Updates reserved_field quantity r h v = ground arith

convert_row-Updates :
    (quantity : ℕ)
    → Updates (λ r. leb quantity r.reserved) (λ _. convert_row quantity) (convert_field quantity)
convert_row-Updates quantity r h v = ground arith

all-true : (t : List Slot) → all (λ _. true) t ≡ true
all-true [] = refl
all-true (s ∷ t) = all-true t

release_window-guarded :
    (k : SlotKey) (dates : List ℕ) (quantity : ℕ) (field : CounterField) (t : List Slot)
    → release_window k dates quantity field t
      ≡ guarded (λ _. true) (release_row field quantity) k dates t
unfolding release_window guarded
release_window-guarded k dates quantity field t = ground (arith, all-true (window_rows k dates t))

-- Consuming `quantity` on every night of a window of distinct dates succeeds exactly when every
-- night has a row with at least `quantity` remaining; then the counter of each night's row grows
-- by `quantity`, no other row changes, and the table's constraints hold. Otherwise it raises
-- `InsufficientAvailability` and changes nothing.
pub consume_window-Writes :
    (k : SlotKey) (dates : List ℕ) (quantity : ℕ) (field : CounterField) (t : List Slot)
    → IsValid t
    → IsDistinct dates
    → Writes
        (λ r. leb quantity (remaining r))
        (add_field field quantity)
        k
        dates
        t
        (consume_window k dates quantity field t)
unfolding consume_window guarded
consume_window-Writes k dates quantity field t v n =
    guarded-Writes _ _ _ (add_to-Updates field quantity) k dates t v n

-- Releasing never fails for want of held units: it succeeds exactly when every night has a row,
-- and lowers each night's counter by `quantity` or to 0; no other row changes, and the table's
-- constraints hold. Where a night has no row it raises and changes nothing.
pub release_window-Writes :
    (k : SlotKey) (dates : List ℕ) (quantity : ℕ) (field : CounterField) (t : List Slot)
    → IsValid t
    → IsDistinct dates
    → Writes
        (λ _. true)
        (drop_field field quantity)
        k
        dates
        t
        (release_window k dates quantity field t)
release_window-Writes k dates quantity field t v n =
    rw (release_window-guarded k dates quantity field t)
      (guarded-Writes _ _ _ (release_row-Updates field quantity) k dates t v n)

-- Converting a hold succeeds exactly when every night has a row with at least `quantity`
-- reserved; then it moves `quantity` from `reserved` to `sold` on each, changes no other row and
-- keeps the table's constraints. Otherwise it raises and changes nothing.
pub convert_reserved_to_sold-Writes :
    (k : SlotKey) (dates : List ℕ) (quantity : ℕ) (t : List Slot)
    → IsValid t
    → IsDistinct dates
    → Writes
        (λ r. leb quantity r.reserved)
        (convert_field quantity)
        k
        dates
        t
        (convert_reserved_to_sold k dates quantity t)
unfolding convert_reserved_to_sold guarded
convert_reserved_to_sold-Writes k dates quantity t v n =
    guarded-Writes _ _ _ (convert_row-Updates quantity) k dates t v n
