-- ===== src/Inventory/Window.antt =====
-- The rows that `lock_window` finds, and the loop that rewrites them, in terms of the table's view.
use mathlib.Core.Option
use hotel_booking.Base.{
  ℕ, ◌≤◌, ◌≡◌, refl, Bool, true, false, ◌&&◌, Option, none, some, List, [], ◌∷◌, arith,
  if◌then◌else◌, all, elem,
}
use hotel_booking.Tx.{ok}
use hotel_booking.Inventory.{
  SlotKey, Slot, key_eq, used, by_date, all_found, window_rows, update_each,
}
use hotel_booking.Inventory.View.{
  view, IsValid, SameRow, put, key_eq_iff, view_sound, view-put, put-IsValid, update_rows-view,
  view-within_total,
}

pub by_date-window_rows :
    (k : SlotKey) (dates : List ℕ) (d : ℕ) (t : List Slot)
    → by_date (window_rows k dates t) d ≡ (if elem d dates then view k d t else none)
unfolding by_date view
by_date-window_rows k dates d [] = ground arith
by_date-window_rows k dates d (s ∷ t) = ground (arith, by_date-window_rows k dates d t)

pub all_found-ext :
    (f g : ℕ → Option Slot) (ds : List ℕ)
    → ((d : ℕ) → elem d ds ≡ true → f d ≡ g d)
    → all_found f ds ≡ all_found g ds
all_found-ext f g [] h = refl
all_found-ext f g (d ∷ ds) h = ground (arith, h d, all_found-ext f g ds (λ e m. h e (ground arith)))

-- A test that every locked row passes holds of the row of each date.
pub all-window_rows :
    (p : Slot → Bool) (k : SlotKey) (dates : List ℕ) (d : ℕ) (t : List Slot) (r : Slot)
    → all p (window_rows k dates t) ≡ true
    → elem d dates ≡ true
    → view k d t ≡ some r
    → p r ≡ true
unfolding view
all-window_rows p k dates d [] r h m e = ground arith
all-window_rows p k dates d (s ∷ t) r h m e = ground (arith, all-window_rows p k dates d t r)

-- The converse, in a table without doubles.
pub window_rows-all :
    (p : Slot → Bool) (k : SlotKey) (dates : List ℕ) (t : List Slot)
    → IsValid t
    → ((d : ℕ) (r : Slot) → elem d dates ≡ true → view k d t ≡ some r → p r ≡ true)
    → all p (window_rows k dates t) ≡ true
unfolding view
window_rows-all p k dates [] v h = refl
window_rows-all p k dates (s ∷ t) v h = ground (
  arith,
  h s.business_date s,
  key_eq_iff s.key k,
  window_rows-all p k dates t v.3 (λ d r m e. h d r m (rw e)),
)

-- No date stands twice in a window.
abbrev pub IsDistinct : List ℕ → Type 0
IsDistinct [] = Unit
IsDistinct (d ∷ ds) = (elem d ds ≡ false) × IsDistinct ds

-- The table with each row of the window rewritten.
pub rewritten : (Slot → Slot) → SlotKey → List ℕ → List Slot → List Slot
rewritten g k [] t = t
rewritten g k (d ∷ ds) t = rewritten g k ds (elim (view k d t) [ none ↦ t | some r ↦ put (g r) t ])

-- Every date of the window has a row that passes the test, and that the dictionary holds.
abbrev pub IsReady : (Slot → Bool) → SlotKey → (ℕ → Option Slot) → List ℕ → List Slot → Type 0
IsReady p k locked ds t =
    (d : ℕ)
    → elem d ds ≡ true
    → (r : Slot) × (view k d t ≡ some r) × (locked d ≡ some r) × (p r ≡ true)

-- What one row's update must do: succeed on a row that passes the test, keep its identity and
-- satisfy the CHECK.
abbrev pub Updates : (Slot → Bool) → (Slot → Slot → Option Slot) → (Slot → Slot) → Type 0
Updates p f g =
    (r : Slot)
    → p r ≡ true
    → used r ≤ r.total_units
    → (f r r ≡ some (g r)) × SameRow r (g r) × (used (g r) ≤ (g r).total_units)

module _ (p : Slot → Bool) (f : Slot → Slot → Option Slot) (g : Slot → Slot) (step : Updates p f g)
    (k : SlotKey) (locked : ℕ → Option Slot) where
  IsReady-after :
      (d : ℕ) (ds : List ℕ) (t : List Slot) (r : Slot)
      → IsValid t
      → view k d t ≡ some r
      → SameRow r (g r)
      → elem d ds ≡ false
      → IsReady p k locked (d ∷ ds) t
      → IsReady p k locked ds (put (g r) t)
  IsReady-after d ds t r v e q new ready d' m =
      let (r', found, held, ok') = ready d' (ground arith) in
      (r', ground (arith, view-put k d' r (g r) t v, view_sound k d t r e), held, ok')

  -- The loop succeeds on a window that is ready, and rewrites each of its rows.
  pub update_each-rewritten :
      (ds : List ℕ) (t : List Slot)
      → IsValid t
      → IsDistinct ds
      → IsReady p k locked ds t
      → (update_each f locked ds t ≡ (ok tt, rewritten g k ds t)) × IsValid (rewritten g k ds t)
  unfolding update_each rewritten
  update_each-rewritten [] t v n ready = (refl, v)
  update_each-rewritten (d ∷ ds) t v n ready =
      let (r, found, held, good) = ready d (ground arith) in
      let (done, same, fits) = step r good (view-within_total k d t r v found) in
      let at = view_sound k d t r found in
      let there : view r.key r.business_date t ≡ some r = ground arith in
      let one = update_rows-view k d (f r) t r (g r) v found done same in
      let rest =
        update_each-rewritten ds (put (g r) t) (put-IsValid r (g r) t v there same fits) n.1
          (IsReady-after d ds t r v found same n.0 ready) in
      ground (arith, found, held, one, rest)

  -- What the table shows after the loop: the rows of the window rewritten, all others as before.
  pub view-rewritten :
      (ds : List ℕ) (t : List Slot) (k' : SlotKey) (d' : ℕ)
      → IsValid t
      → IsDistinct ds
      → IsReady p k locked ds t
      → view k' d' (rewritten g k ds t)
        ≡ (if key_eq k k' && elem d' ds then Option.map g (view k' d' t) else view k' d' t)
  unfolding rewritten
  view-rewritten [] t k' d' v n ready = ground arith
  view-rewritten (d ∷ ds) t k' d' v n ready =
      let (r, found, held, good) = ready d (ground arith) in
      let (done, same, fits) = step r good (view-within_total k d t r v found) in
      let at = view_sound k d t r found in
      let there : view r.key r.business_date t ≡ some r = ground arith in
      let rest =
        view-rewritten ds (put (g r) t) k' d' (put-IsValid r (g r) t v there same fits) n.1
          (IsReady-after d ds t r v found same n.0 ready) in
      let now = view-put k' d' r (g r) t v there same in
      ground (arith, found, held, rest, now, key_eq_iff k k')
