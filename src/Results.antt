-- ===== src/Results.antt =====
-- The outcome of Python code that may raise: a value, or the exception. The exceptions are those of
-- apps/shared/exceptions.py, of the value objects, of the services' own modules and of Django.
use hotel_booking.Base.{Bool, true, false, ◌≡◌, refl, arith}

pub data Error : Type 0 where
  insufficient_availability integrity_error key_error does_not_exist : Error
  transition_not_allowed concurrency_error append_only_violation : Error
  idempotency_in_progress idempotency_key_conflict : Error
  value_error validation_error : Error
  invalid_money currency_mismatch invalid_price_breakdown : Error
  invalid_date_range invalid_stay_period invalid_guest_count : Error
  rate_plan_not_active no_rate_plan_found overlapping_rate_override invalid_pricing_policy : Error
  rate_plan_currency_mismatch no_policy_found invalid_state_transition : Error
  booking_line_not_allocatable no_eligible_room task_not_transitionable data_error
        arithmetic_error :
      Error
  tenant_context_missing multiple_objects_returned insufficient_permission : Error
  invitation_error invitation_not_found invitation_not_pending invitation_expired : Error
  invitation_email_mismatch membership_not_active last_owner_self_revoke : Error
  mfa_error mfa_duplicate_device mfa_device_not_found mfa_device_removed : Error
  mfa_device_unverified mfa_invalid_code mfa_last_device : Error

pub data Result (A : Type 0) : Type 0 where
  ok : A → Result A
  err : Error → Result A

infixl 5 ◌>>=◌ ◌>>◌
abbrev pub ◌>>=◌ : {A B : Type 0} → Result A → (A → Result B) → Result B
ok a >>= f = f a
err e >>= f = err e

abbrev pub ◌>>◌ : {B : Type 0} → Result (Unit {0}) → Result B → Result B
m >> k = m >>= λ _. k

-- `if …: raise …`
abbrev pub fail_if : Bool → Error → Result (Unit {0})
fail_if true e = err e
fail_if false e = ok tt

pub bind-ok :
    {A B : Type 0} (m : Result A) (f : A → Result B) (b : B)
    → (m >>= f) ≡ ok b
    → (a : A) × (m ≡ ok a) × (f a ≡ ok b)
bind-ok (ok a) f b h = (a, refl, h)
bind-ok (err e) f b h = ground (arith, h)

pub fail_if-ok :
    {B : Type 0} (c : Bool) (e : Error) (m : Result B) (b : B)
    → (fail_if c e >> m) ≡ ok b
    → (c ≡ false) × (m ≡ ok b)
fail_if-ok true e m b h = ground (arith, h)
fail_if-ok false e m b h = (refl, h)
