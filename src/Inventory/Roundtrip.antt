-- ===== src/Inventory/Roundtrip.antt =====
-- Writes in sequence: a hold that is released, and a hold that is converted.
use mathlib.Core.Option
use hotel_booking.Base.{
  ℕ, ◌≡◌, refl, Bool, true, ◌&&◌, some, List, [], ◌∷◌, arith, leb, if◌then◌else◌, elem, inl, inr,
  Option-cases,
}
use hotel_booking.Tx.{ok}
use hotel_booking.Inventory.{
  SlotKey, Slot, key_eq, remaining, sold_field, reserved_field, consume_window, release_window,
  convert_reserved_to_sold,
}
use hotel_booking.Inventory.View.{view, IsValid, key_eq_iff}
use hotel_booking.Inventory.Window.{IsDistinct}
use hotel_booking.Inventory.Writes.{
  holds, all_hold, add_field, consume_window-Writes, release_window-Writes,
  convert_reserved_to_sold-Writes,
}

-- A test holds on every night of a table where it holds of what the first test lets through.
all_hold-after :
    (p p' : Slot → Bool) (k : SlotKey) (dates : List ℕ) (t t' : List Slot)
    → all_hold p k dates t ≡ true
    → ((d : ℕ) (r : Slot)
        → elem d dates ≡ true
        → view k d t ≡ some r
        → p r ≡ true
        → holds p' (view k d t') ≡ true)
    → all_hold p' k dates t' ≡ true
all_hold-after p p' k [] t t' h step = refl
all_hold-after p p' k (d ∷ ds) t t' h step = elim (Option-cases (view k d t)) [
  | inl gap ↦ ground (arith, gap)
  | inr (r, found) ↦ ground (
    arith,
    found,
    step d r,
    all_hold-after p p' k ds t t' (ground (arith, found)) (λ e x m. step e x (ground arith)),
  )
]

module _ (k : SlotKey) (dates : List ℕ) (quantity : ℕ) (t : List Slot) (v : IsValid t)
    (n : IsDistinct dates)
    (fits : all_hold (λ r. leb quantity (remaining r)) k dates t ≡ true) where
  abbrev held : List Slot
  held = (consume_window k dates quantity reserved_field t).1

  held-view :
      (k' : SlotKey) (d : ℕ)
      → view k' d held ≡ (
          if key_eq k k' && elem d dates
          then Option.map (add_field reserved_field quantity) (view k' d t)
          else view k' d t)
  held-view = ((consume_window-Writes k dates quantity reserved_field t v n).0 fits).2

  held-IsValid : IsValid held
  held-IsValid = ((consume_window-Writes k dates quantity reserved_field t v n).0 fits).1

  held-all : all_hold (λ r. leb quantity r.reserved) k dates held ≡ true
  held-all =
      all_hold-after _ _ k dates t held fits
        (λ d r m e g. ground (arith, held-view k d, e, key_eq_iff k k))

  held-found : all_hold (λ _. true) k dates held ≡ true
  held-found =
      all_hold-after _ _ k dates t held fits
        (λ d r m e g. ground (arith, held-view k d, e, key_eq_iff k k))

  released-view :
      (k' : SlotKey) (d : ℕ)
      → view k' d (release_window k dates quantity reserved_field held).1 ≡ view k' d t
  released-view k' d = ground (
    arith,
    ((release_window-Writes k dates quantity reserved_field held held-IsValid n).0 held-found).2 k'
        d,
    held-view k' d,
  )

  converted-view :
      (k' : SlotKey) (d : ℕ)
      → view k' d (convert_reserved_to_sold k dates quantity held).1
        ≡ view k' d (consume_window k dates quantity sold_field t).1
  converted-view k' d = ground (
    arith,
    ((convert_reserved_to_sold-Writes k dates quantity held held-IsValid n).0 held-all).2 k' d,
    ((consume_window-Writes k dates quantity sold_field t v n).0 fits).2 k' d,
    held-view k' d,
  )

-- A hold that succeeds can be undone: releasing the same quantity over the same window succeeds,
-- and every slot is as before the hold.
pub release_window-consume_window :
    (k : SlotKey) (dates : List ℕ) (quantity : ℕ) (t : List Slot)
    → IsValid t
    → IsDistinct dates
    → all_hold (λ r. leb quantity (remaining r)) k dates t ≡ true
    → let out =
        release_window k dates quantity reserved_field
          (consume_window k dates quantity reserved_field t).1 in
      (out.0 ≡ ok tt) × ((k' : SlotKey) (d : ℕ) → view k' d out.1 ≡ view k' d t)
release_window-consume_window k dates quantity t v n fits = (
  ((release_window-Writes k dates quantity reserved_field _
        (held-IsValid k dates quantity t v n fits) n).0
      (held-found k dates quantity t v n fits)).0,
  released-view k dates quantity t v n fits,
)

-- Holding and then converting is selling: the conversion of a hold that succeeded succeeds, and
-- leaves every slot as a direct sale of the same quantity would.
pub convert-consume_window :
    (k : SlotKey) (dates : List ℕ) (quantity : ℕ) (t : List Slot)
    → IsValid t
    → IsDistinct dates
    → all_hold (λ r. leb quantity (remaining r)) k dates t ≡ true
    → let out =
        convert_reserved_to_sold k dates quantity
          (consume_window k dates quantity reserved_field t).1 in
      (out.0 ≡ ok tt)
      × ((k' : SlotKey) (d : ℕ)
          → view k' d out.1 ≡ view k' d (consume_window k dates quantity sold_field t).1)
convert-consume_window k dates quantity t v n fits = (
  ((convert_reserved_to_sold-Writes k dates quantity _ (held-IsValid k dates quantity t v n fits)
        n).0
      (held-all k dates quantity t v n fits)).0,
  converted-view k dates quantity t v n fits,
)
