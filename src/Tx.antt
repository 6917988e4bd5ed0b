-- ===== src/Tx.antt =====
-- Transactions: a computation on a state `S` that may raise. What was written stays written after
-- a raise, unless the computation stands in `atomic` (django.db.transaction.atomic), which puts
-- the state back.
pub mod Keeps
pub use hotel_booking.Results.{
  Error, Result, ok, err, insufficient_availability, integrity_error, key_error, does_not_exist,
  transition_not_allowed, concurrency_error, append_only_violation, idempotency_in_progress,
  idempotency_key_conflict, value_error, validation_error, invalid_money, currency_mismatch,
  invalid_price_breakdown, invalid_date_range, invalid_stay_period, invalid_guest_count,
  rate_plan_not_active, no_rate_plan_found, overlapping_rate_override, invalid_pricing_policy,
  rate_plan_currency_mismatch, no_policy_found, invalid_state_transition,
  booking_line_not_allocatable, no_eligible_room, task_not_transitionable, data_error,
}
use hotel_booking.Base.{Bool, true, false, Option, none, some}

abbrev pub Tx : Type 0 → Type 0 → Type 0
Tx S A = S → Result A × S

module _ {S A : Type 0} where
  abbrev pub pure : A → Tx S A
  pure a s = (ok a, s)

  abbrev pub raise : Error → Tx S A
  raise e s = (err e, s)

  abbrev pub from_option : Error → Option A → Tx S A
  from_option e none s = (err e, s)
  from_option e (some a) s = (ok a, s)

  abbrev pub lift : Result A → Tx S A
  lift r s = (r, s)

  abbrev pub gets : (S → A) → Tx S A
  gets f s = (ok (f s), s)

  -- `with transaction.atomic():`
  abbrev pub atomic : Tx S A → Tx S A
  atomic m s = let (r, s') = m s in elim r [ ok a ↦ (ok a, s') | err e ↦ (err e, s) ]

abbrev pub modify : {S : Type 0} → (S → S) → Tx S (Unit {0})
modify f s = (ok tt, f s)

abbrev pub raise_if : {S : Type 0} → Bool → Error → Tx S (Unit {0})
raise_if true e s = (err e, s)
raise_if false e s = (ok tt, s)

infixl 5 ◌>>=◌ ◌>>◌
abbrev pub ◌>>=◌ : {S A B : Type 0} → Tx S A → (A → Tx S B) → Tx S B
◌>>=◌ m f s = let (r, s') = m s in elim r [ ok a ↦ f a s' | err e ↦ (err e, s') ]

abbrev pub ◌>>◌ : {S B : Type 0} → Tx S (Unit {0}) → Tx S B → Tx S B
m >> k = m >>= λ _. k
