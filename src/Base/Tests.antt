-- ===== src/Base/Tests.antt =====
-- Boolean tests on the native numbers, and the conditional.
use Prim.Native.Nat.{ℕ, compare, Ordering}
use mathlib.Core.Path.{◌≡◌, refl}
use mathlib.Core.Logic.{◌↔◌, ◌⊎◌, inl, inr}
use mathlib.Core.Bool.{Bool, true, false}
use mathlib.Core.Option.{Option, none, some}
use native.Mathlib.Omega.{arith}

abbrev pub ltb : ℕ → ℕ → Bool
ltb a b = elim (compare a b) [ Ordering.lt ↦ true | _ ↦ false ]

abbrev pub leb : ℕ → ℕ → Bool
leb a b = elim (compare a b) [ Ordering.gt ↦ false | _ ↦ true ]

infix 50 ◌==◌
abbrev pub ◌==◌ : ℕ → ℕ → Bool
a == b = elim (compare a b) [ Ordering.eq ↦ true | _ ↦ false ]

infix 1 if◌then◌else◌
abbrev pub if◌then◌else◌ {ℓ} : {A : Type ℓ} → Bool → A → A → A
if true then x else y = x
if false then x else y = y

pub ==_iff : (a b : ℕ) → ((a == b) ≡ true) ↔ (a ≡ b)
==_iff a b = ground arith

-- To split on a computed value and keep the equation.
pub Bool-cases : (b : Bool) → (b ≡ true) ⊎ (b ≡ false)
Bool-cases true = inl refl
Bool-cases false = inr refl

pub Option-cases {ℓ} : {A : Type ℓ} (o : Option A) → (o ≡ none) ⊎ ((a : A) × (o ≡ some a))
Option-cases none = inl refl
Option-cases (some a) = inr (a, refl)

-- Equality of optional numbers (nullable columns).
abbrev pub option_eq : Option ℕ → Option ℕ → Bool
option_eq none none = true
option_eq (some a) (some b) = a == b
option_eq _ _ = false

-- The Boolean of a decision, and what it says of equality.
abbrev pub decide {ℓ} : {P : Type ℓ} → Dec P → Bool
decide (yes _) = true
decide (no _) = false

pub decide_refl {ℓ} : {A : Type ℓ} (eq? : Discrete A) (a : A) → decide (eq? a a) ≡ true
decide_refl eq? a = elim (eq? a a) as (λ d. decide d ≡ true) [
  | yes _ ↦ refl
  | no h ↦ absurd (h refl)
]

pub decide_iff {ℓ} : {A : Type ℓ} (eq? : Discrete A) (a b : A) → (decide (eq? a b) ≡ true) ↔ (a ≡ b)
decide_iff eq? a b = elim (eq? a b) as (λ d. (decide d ≡ true) ↔ (a ≡ b)) [
  | yes h ↦ (λ _. h, λ _. refl)
  | no h ↦ (λ e. cc, λ e. absurd (h e))
]
