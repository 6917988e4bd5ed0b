-- ===== src/Tx/Keeps.antt =====
-- Computations that keep a property of the state, whether they return or raise.
use hotel_booking.Base.{Bool, true, false, ◌≡◌, refl, ◌⊎◌, inl, inr, arith}
use hotel_booking.Tx.{Tx, Error, Result, ok, err, atomic, ◌>>=◌, ◌>>◌, raise_if}

abbrev pub Keeps : {S A : Type 0} → (S → Type 0) → Tx S A → Type 0
Keeps {S} P m = (s : S) → P s → P (m s).1

module _ {S A : Type 0} (P : S → Type 0) where
  pub then-Keeps :
      {B : Type 0} (f : B → Tx S A) (r : Result B) (s : S)
      → ((b : B) → Keeps P (f b))
      → P s
      → let out : Result A × S = elim r [ ok b ↦ f b s | err e ↦ (err e, s) ] in P out.1
  then-Keeps f (ok b) s kf p = kf b s p
  then-Keeps f (err e) s kf p = p

  pub bind-Keeps :
      {B : Type 0} (m : Tx S B) (f : B → Tx S A)
      → Keeps P m
      → ((b : B) → Keeps P (f b))
      → Keeps P (m >>= f)
  bind-Keeps m f km kf s p = then-Keeps f (m s).0 (m s).1 kf (km s p)

  choose-Keeps :
      (r : Result A) (s' s : S)
      → P s'
      → P s
      → let out : Result A × S = elim r [ ok a ↦ (ok a, s') | err e ↦ (err e, s) ] in P out.1
  choose-Keeps (ok a) s' s q p = q
  choose-Keeps (err e) s' s q p = p

  pub atomic-Keeps : (m : Tx S A) → Keeps P m → Keeps P (atomic m)
  atomic-Keeps m km s p = choose-Keeps (m s).0 (m s).1 s (km s p) p

pub raise_if-Keeps : {S : Type 0} (P : S → Type 0) (b : Bool) (e : Error) → Keeps P (raise_if b e)
raise_if-Keeps P true e s p = p
raise_if-Keeps P false e s p = p

pub Result-cases :
    {A : Type 0} (r : Result A) → ((a : A) × (r ≡ ok a)) ⊎ ((e : Error) × (r ≡ err e))
Result-cases (ok a) = inl (a, refl)
Result-cases (err e) = inr (e, refl)

pub bind_ok :
    {S A B : Type 0} (m : Tx S B) (f : B → Tx S A) (s : S) (b : B)
    → (m s).0 ≡ ok b
    → (m >>= f) s ≡ f b (m s).1
bind_ok m f s b h = ground (arith, h)

pub bind_err :
    {S A B : Type 0} (m : Tx S B) (f : B → Tx S A) (s : S) (e : Error)
    → (m s).0 ≡ err e
    → (m >>= f) s ≡ (err e, (m s).1)
bind_err m f s e h = ground (arith, h)

pub raise_if_ok :
    {S A : Type 0} (b : Bool) (e : Error) (m : Tx S A) (s : S) (a : A)
    → ((raise_if b e >> m) s).0 ≡ ok a
    → (b ≡ false) × ((raise_if b e >> m) s ≡ m s)
raise_if_ok true e m s a h = ground arith
raise_if_ok false e m s a h = (refl, refl)

pub atomic_ok :
    {S A : Type 0} (m : Tx S A) (s : S) (a : A)
    → (atomic m s).0 ≡ ok a
    → ((m s).0 ≡ ok a) × (atomic m s ≡ m s)
atomic_ok m s a h = elim (Result-cases (m s).0) [
  | inl (b, fine) ↦ ground (arith, fine)
  | inr (x, failed) ↦ ground (arith, failed)
]

pub atomic_err :
    {S A : Type 0} (m : Tx S A) (s : S) (e : Error) → (atomic m s).0 ≡ err e → (atomic m s).1 ≡ s
atomic_err m s e h = elim (Result-cases (m s).0) [
  | inl (a, fine) ↦ ground (arith, fine)
  | inr (x, failed) ↦ ground (arith, failed)
]

-- What a computation that returned went on with.
pub bind_inv :
    {S A B : Type 0} (m : Tx S B) (f : B → Tx S A) (s : S) (a : A)
    → ((m >>= f) s).0 ≡ ok a
    → (b : B) × ((m s).0 ≡ ok b) × ((m >>= f) s ≡ f b (m s).1)
bind_inv m f s a h = elim (Result-cases (m s).0) [
  | inl (b, fine) ↦ (b, fine, bind_ok m f s b fine)
  | inr (e, failed) ↦ ground (arith, failed)
]
