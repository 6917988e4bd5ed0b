-- ===== src/Inventory/View.antt =====
-- The table seen as a function from a key and a date to a row, and what one update does to it.
use hotel_booking.Base.{
  ℕ, ◌≤◌, ◌≡◌, ◌≢◌, refl, ◌↔◌, Bool, true, ◌&&◌, not, Option, none, some, inl, inr, Option-cases,
  List, [], ◌∷◌, arith, ◌==◌, if◌then◌else◌,
}
use hotel_booking.Inventory.{SlotKey, Slot, key_eq, used, pk_eq, update_rows}

pub key_eq_iff : (a b : SlotKey) → (key_eq a b ≡ true) ↔ (a ≡ b)
unfolding key_eq
key_eq_iff a b = ground arith

-- The row of a key and a date.
unfoldable pub view : SlotKey → ℕ → List Slot → Option Slot
view k d [] = none
view k d (s ∷ t) = elim (view k d t) [
  | some r ↦ some r
  | none ↦ if key_eq s.key k && s.business_date == d then some s else none
]

unfoldable pub pk_free : ℕ → ℕ → List Slot → Bool
pk_free d i [] = true
pk_free d i (s ∷ t) = not (pk_eq d i s) && pk_free d i t

-- The constraints of the table: the CHECK on every row, the primary key (business_date, id), and
-- the UNIQUE of key and date.
abbrev pub IsValid : List Slot → Type 0
IsValid [] = Unit
IsValid (s ∷ t) =
    (used s ≤ s.total_units)
    × (view s.key s.business_date t ≡ none)
    × (pk_free s.business_date s.id t ≡ true)
    × IsValid t

-- The table with the row of `r`'s primary key replaced by `r`.
pub put : Slot → List Slot → List Slot
put r [] = []
put r (s ∷ t) = (if pk_eq r.business_date r.id s then r else s) ∷ put r t

pub view_sound :
    (k : SlotKey) (d : ℕ) (t : List Slot) (r : Slot)
    → view k d t ≡ some r
    → (r.key ≡ k) × (r.business_date ≡ d)
unfolding view
view_sound k d [] r h = ground arith
view_sound k d (s ∷ t) r h = ground (arith, view_sound k d t r, key_eq_iff s.key k)

view-pk_free :
    (k : SlotKey) (d i : ℕ) (t : List Slot) (r : Slot)
    → view k d t ≡ some r
    → pk_free d i t ≡ true
    → r.id ≢ i
unfolding view pk_free
view-pk_free k d i [] r h p = ground arith
view-pk_free k d i (s ∷ t) r h p = ground (arith, view-pk_free k d i t r)

put-pk_free : (r : Slot) (t : List Slot) → pk_free r.business_date r.id t ≡ true → put r t ≡ t
unfolding pk_free put
put-pk_free r [] h = refl
put-pk_free r (s ∷ t) h = ground (arith, put-pk_free r t)

update_rows-pk_free :
    (d i : ℕ) (f : Slot → Option Slot) (t : List Slot)
    → pk_free d i t ≡ true
    → update_rows (pk_eq d i) f t ≡ some t
unfolding pk_free update_rows
update_rows-pk_free d i f [] h = refl
update_rows-pk_free d i f (s ∷ t) h = ground (arith, update_rows-pk_free d i f t)

-- A row with the identity of another.
abbrev pub SameRow : Slot → Slot → Type 0
SameRow r r' = (r'.key ≡ r.key) × (r'.business_date ≡ r.business_date) × (r'.id ≡ r.id)

-- An UPDATE by primary key of a row that was found rewrites that row alone.
pub update_rows-view :
    (k : SlotKey) (d : ℕ) (f : Slot → Option Slot) (t : List Slot) (r r' : Slot)
    → IsValid t
    → view k d t ≡ some r
    → f r ≡ some r'
    → SameRow r r'
    → update_rows (pk_eq r.business_date r.id) f t ≡ some (put r' t)
unfolding view update_rows put
update_rows-view k d f [] r r' v h e q = ground arith
update_rows-view k d f (s ∷ t) r r' v h e q = elim (Option-cases (view k d t)) [
  | inl last ↦ ground (arith, last, update_rows-pk_free s.business_date s.id f t, put-pk_free r' t)
  | inr (x, later) ↦ ground (
    arith,
    later,
    update_rows-view k d f t r r' v.3,
    view_sound k d t r,
    view-pk_free k d s.id t r,
  )
]

-- What the table shows after a row was replaced.
pub view-put :
    (k : SlotKey) (d : ℕ) (r r' : Slot) (t : List Slot)
    → IsValid t
    → view r.key r.business_date t ≡ some r
    → SameRow r r'
    → view k d (put r' t) ≡ (if key_eq r.key k && r.business_date == d then some r' else view k d t)
unfolding view put
view-put k d r r' [] v h q = ground arith
view-put k d r r' (s ∷ t) v h q = elim (Option-cases (view r.key r.business_date t)) [
  | inl last ↦ ground (arith, last, put-pk_free r' t, key_eq_iff r.key k)
  | inr (x, later) ↦ ground (
    arith,
    later,
    view-put k d r r' t v.3,
    view_sound r.key r.business_date t r,
    view-pk_free r.key r.business_date s.id t r,
    view_sound k d t s,
    key_eq_iff s.key k,
    key_eq_iff r.key k,
    key_eq_iff s.key r.key,
  )
]

put-pk_free_keep :
    (d i : ℕ) (r' : Slot) (t : List Slot) → pk_free d i t ≡ true → pk_free d i (put r' t) ≡ true
unfolding pk_free put
put-pk_free_keep d i r' [] h = refl
put-pk_free_keep d i r' (s ∷ t) h = ground (arith, put-pk_free_keep d i r' t)

-- A replacement that satisfies the CHECK keeps the constraints of the table.
pub put-IsValid :
    (r r' : Slot) (t : List Slot)
    → IsValid t
    → view r.key r.business_date t ≡ some r
    → SameRow r r'
    → used r' ≤ r'.total_units
    → IsValid (put r' t)
unfolding view put
put-IsValid r r' [] v h q c = tt
put-IsValid r r' (s ∷ t) v h q c = elim (Option-cases (view r.key r.business_date t)) [
  | inl last ↦ ground (arith, last, put-pk_free r' t)
  | inr (x, later) ↦ ground (
    arith,
    later,
    put-IsValid r r' t v.3,
    view-put s.key s.business_date r r' t v.3,
    view-pk_free r.key r.business_date s.id t r,
    key_eq_iff r.key s.key,
    put-pk_free_keep s.business_date s.id r' t,
  )
]

pub view-within_total :
    (k : SlotKey) (d : ℕ) (t : List Slot) (r : Slot)
    → IsValid t
    → view k d t ≡ some r
    → used r ≤ r.total_units
unfolding view
view-within_total k d [] r v h = ground arith
view-within_total k d (s ∷ t) r v h = ground (arith, view-within_total k d t r v.3)

-- An UPDATE that the row's constraints refuse fails as a whole.
pub update_rows-refused :
    (k : SlotKey) (d : ℕ) (f : Slot → Option Slot) (t : List Slot) (r : Slot)
    → view k d t ≡ some r
    → f r ≡ none
    → update_rows (pk_eq r.business_date r.id) f t ≡ none
unfolding view update_rows
update_rows-refused k d f [] r h e = ground arith
update_rows-refused k d f (s ∷ t) r h e = ground (arith, update_rows-refused k d f t r)
