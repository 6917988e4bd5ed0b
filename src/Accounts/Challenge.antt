-- ===== src/Accounts/Challenge.antt =====
-- The second factors of a user whose role requires one, through any calls of `MfaService`.
use Prim.Native.String.{String}
use hotel_booking.Base.{ℕ, ◌≡◌, true, Option, List, [], ◌∷◌}
use hotel_booking.Tx.Keeps.{atomic-Keeps}
use hotel_booking.Table.Numbered.{IsNumbered}
use hotel_booking.Accounts.Directory.{Directory, MfaDeviceType}
use hotel_booking.Accounts.Mfa.{
  CodeCheck, holds_mfa_required_role, enroll, verify_initial, requires_challenge, remove_device,
  remove,
}
use hotel_booking.Accounts.Devices.{
  Secured, enroll-Keeps, verify_initial-Keeps, remove_device-Keeps,
}

-- A call with its arguments: the request's tenant, the user, the device and the code.
pub data MfaCall : Type 0 where
  enrolls : Option ℕ → ℕ → MfaDeviceType → String → ℕ → MfaCall
  proves : Option ℕ → ℕ → ℕ → ℕ → MfaCall
  removes : Option ℕ → ℕ → ℕ → MfaCall

-- What a call leaves, whether it returns or raises.
unfoldable pub after_mfa_call : CodeCheck → MfaCall → Directory → Directory
after_mfa_call check (enrolls tenant user_id kind name key) s =
    (enroll tenant user_id kind name key s).1
after_mfa_call check (proves tenant user_id i code) s =
    (verify_initial check tenant user_id i code s).1
after_mfa_call check (removes tenant user_id i) s = (remove tenant user_id i s).1

unfoldable pub after_mfa_calls : CodeCheck → List MfaCall → Directory → Directory
after_mfa_calls check [] s = s
after_mfa_calls check (c ∷ calls) s = after_mfa_calls check calls (after_mfa_call check c s)

module _ (u : ℕ) where
  after_mfa_call-Secured :
      (check : CodeCheck) (c : MfaCall) (s : Directory)
      → Secured u s
      → Secured u (after_mfa_call check c s)
  unfolding after_mfa_call remove
  after_mfa_call-Secured check (enrolls tenant user_id kind name key) s h =
      enroll-Keeps u tenant user_id kind name key s h
  after_mfa_call-Secured check (proves tenant user_id i code) s h =
      verify_initial-Keeps u check tenant user_id i code s h
  after_mfa_call-Secured check (removes tenant user_id i) s h =
      atomic-Keeps (Secured u) (remove_device tenant user_id i)
        (remove_device-Keeps u tenant user_id i) s h

  after_mfa_calls-Secured :
      (check : CodeCheck) (calls : List MfaCall) (s : Directory)
      → Secured u s
      → Secured u (after_mfa_calls check calls s)
  unfolding after_mfa_calls
  after_mfa_calls-Secured check [] s h = h
  after_mfa_calls-Secured check (c ∷ calls) s h =
      after_mfa_calls-Secured check calls (after_mfa_call check c s)
        (after_mfa_call-Secured check c s h)

-- A user who is an active tenant owner and of whom sign-in asks a second factor is asked for one
-- after any calls of `MfaService`, by this user or by others, whether they return or raise: the
-- last verified device is never removed. Before the calls the keys of the devices are unique and
-- below the sequence's next one.
pub after_mfa_calls-requires_challenge :
    (u : ℕ) (check : CodeCheck) (calls : List MfaCall) (s : Directory)
    → IsNumbered (λ d. d.id) s.next_id s.mfa_devices
    → holds_mfa_required_role u s ≡ true
    → requires_challenge u s ≡ true
    → requires_challenge u (after_mfa_calls check calls s) ≡ true
unfolding requires_challenge
after_mfa_calls-requires_challenge u check calls s numbered owner asked =
    (after_mfa_calls-Secured u check calls s (numbered, owner, asked)).2
