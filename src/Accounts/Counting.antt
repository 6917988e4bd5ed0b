-- ===== src/Accounts/Counting.antt =====
-- Whether some device of a list counts, under the update of one.
use mathlib.Core.Path.{subst}
use hotel_booking.Base.{
  ℕ, ◌≡◌, sym, ap, ◌∙◌, Bool, true, false, ◌&&◌, not, Option, none, some, List, [], ◌∷◌, ◌==◌,
  arith, inl, inr, Bool-cases,
}
use hotel_booking.Table.{get_row, put_row}
use hotel_booking.Table.Versions.{IsKeyed}
use hotel_booking.Accounts.Directory.{MfaDevice, any}

abbrev pub device_row : ℕ → List MfaDevice → Option MfaDevice
device_row = get_row (λ d. d.id)

-- The update of one row leaves the others.
pub any-put_row :
    (f : MfaDevice → Bool) (row : MfaDevice) (ds : List MfaDevice)
    → any (λ d. f d && not (d.id == row.id)) ds ≡ true
    → any f (put_row (λ d. d.id) row ds) ≡ true
unfolding any put_row
any-put_row f row [] h = h
any-put_row f row (d ∷ ds) h = elim (Bool-cases (d.id == row.id)) [
  | inl hit ↦ ground (arith, hit, any-put_row f row ds (ground (arith, hit, h)), Bool-cases (f row))
  | inr miss ↦ elim (Bool-cases (f d)) [
    | inl fine ↦ ground (arith, miss, fine)
    | inr bad ↦ ground (arith, miss, bad, any-put_row f row ds (ground (arith, miss, bad, h)))
  ]
]

any-absent :
    (f : MfaDevice → Bool) (i : ℕ) (ds : List MfaDevice)
    → device_row i ds ≡ none
    → any f ds ≡ true
    → any (λ d. f d && not (d.id == i)) ds ≡ true
unfolding any
any-absent f i [] h e = e
any-absent f i (d ∷ ds) h e = elim (Bool-cases (d.id == i)) [
  | inl hit ↦ ground (arith, hit, h)
  | inr miss ↦ elim (Bool-cases (f d)) [
    | inl fine ↦ ground (arith, miss, fine)
    | inr bad ↦
        ground
          (arith, miss, bad, any-absent f i ds (ground (arith, miss, h)) (ground (arith, bad, e)))
  ]
]

-- A device that does not count is not the one that does.
pub any-other :
    (f : MfaDevice → Bool) (i : ℕ) (ds : List MfaDevice) (x : MfaDevice)
    → IsKeyed (λ d. d.id) ds
    → device_row i ds ≡ some x
    → f x ≡ false
    → any f ds ≡ true
    → any (λ d. f d && not (d.id == i)) ds ≡ true
unfolding any
any-other f i [] x k at out e = e
any-other f i (d ∷ ds) x k at out e = elim (Bool-cases (d.id == i)) [
  | inl hit ↦
      let same : d ≡ x = ground (arith, hit, at) in
      let gone : f d ≡ false = ap f same ∙ out in
      let one : i ≡ d.id = ground (arith, hit) in
      let away : device_row i ds ≡ none = subst (λ j. device_row j ds ≡ none) (sym one) k.0 in
      ground (arith, hit, gone, any-absent f i ds away (ground (arith, gone, e)))
  | inr miss ↦ elim (Bool-cases (f d)) [
    | inl fine ↦ ground (arith, miss, fine)
    | inr bad ↦ ground (
      arith,
      miss,
      bad,
      any-other f i ds x k.1 (ground (arith, miss, at)) out (ground (arith, bad, e)),
    )
  ]
]
