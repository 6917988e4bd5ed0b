-- ===== src/Accounts/Mfa.antt =====
-- `MfaService` of apps/accounts/services.py: a second factor is enrolled, proved, asked for and
-- removed. A name is given without the blanks around it; the request's tenant is an argument.
use Prim.Native.String.{String}
use text.Mathlib.Text
use hotel_booking.Base.{
  ℕ, suc, Bool, true, false, ◌&&◌, not, Option, none, some, List, ◌∷◌, ◌==◌, decide, find?,
}
use hotel_booking.Results.{
  tenant_context_missing, mfa_error, mfa_duplicate_device, mfa_device_not_found, mfa_device_removed,
  mfa_device_unverified, mfa_invalid_code, mfa_last_device, does_not_exist,
}
use hotel_booking.Tx.{pure, raise_if, gets, modify, from_option, atomic, ◌>>=◌, ◌>>◌}
use hotel_booking.Table.{get_row, put_row}
use hotel_booking.Accounts.Directory.{
  Directory, AccountTx, MfaDevice, MfaDeviceType, MfaDeviceType-discrete, Membership,
  MembershipStatus, MembershipStatus-discrete, MembershipRole, Role, mfa_enrolled, mfa_enabled,
  mfa_removed, log_account, any,
}

abbrev pub text_eq : String → String → Bool
text_eq a b = text.Mathlib.Text.◌==◌ a b

-- `totp.verify_code` on the decrypted secret, at a moment.
abbrev pub CodeCheck : Type 0
CodeCheck = ℕ → ℕ → ℕ → Bool

abbrev pub is_set : Option ℕ → Bool
is_set none = false
is_set (some _) = true

-- A verified device of the user that is not removed.
abbrev pub is_live : ℕ → MfaDevice → Bool
is_live user_id d =
    d.user_account_id == user_id && (is_set d.verified_at && not (is_set d.removed_at))

abbrev pub same_name : ℕ → MfaDeviceType → String → MfaDevice → Bool
same_name user_id device_type name d =
    d.user_account_id == user_id
    && (decide (MfaDeviceType-discrete d.device_type device_type) && text_eq d.name name)

abbrev pub is_tenant_owner : List Role → MembershipRole → Bool
is_tenant_owner roles r = any (λ x. x.id == r.role_id && text_eq x.name "tenant_owner") roles

-- Does the membership hold the role `tenant_owner`?
abbrev pub holds_owner_role : Directory → ℕ → Bool
holds_owner_role s i =
    any (λ r. r.membership_id == i && is_tenant_owner s.roles r) s.membership_roles

abbrev pub is_active_member : Membership → Bool
is_active_member m = decide (MembershipStatus-discrete m.status MembershipStatus.active)

-- `_holds_mfa_required_role`
abbrev pub holds_mfa_required_role : ℕ → Directory → Bool
holds_mfa_required_role user_id s =
    any (λ m. m.user_account_id == user_id && (is_active_member m && holds_owner_role s m.id))
      s.memberships

-- `tenancy.require_current_tenant()`
abbrev pub require_current_tenant : Option ℕ → AccountTx ℕ
require_current_tenant = from_option tenant_context_missing

-- The atomic part of `enroll`, for the ciphertext of a new secret.
unfoldable pub create_device : ℕ → ℕ → MfaDeviceType → String → ℕ → AccountTx MfaDevice
create_device tenant_id user_id device_type name secret_key = do
  taken ← gets λ s. any (same_name user_id device_type name) s.mfa_devices
  raise_if taken mfa_duplicate_device
  i ← gets λ s. s.next_id
  let device : MfaDevice = record {
    id = i;
    user_account_id = user_id;
    device_type = device_type;
    name = name;
    secret_key = secret_key;
    verified_at = none;
    removed_at = none;
  }
  modify λ s. record s { next_id = suc s.next_id; mfa_devices = device ∷ s.mfa_devices }
  log_account tenant_id user_id mfa_enrolled user_id
  pure device

unfoldable pub enroll : Option ℕ → ℕ → MfaDeviceType → String → ℕ → AccountTx MfaDevice
enroll tenant user_id device_type name secret_key = do
  tenant_id ← require_current_tenant tenant
  raise_if (not (decide (MfaDeviceType-discrete device_type MfaDeviceType.totp))) mfa_error
  raise_if (text_eq name "") mfa_error
  atomic (create_device tenant_id user_id device_type name secret_key)

-- `MfaDevice.objects.filter(pk=…, user_account=…).first()`, or MfaDeviceNotFound
abbrev pub get_device : ℕ → ℕ → AccountTx MfaDevice
get_device user_id device_id = do
  found ← gets λ s. find? (λ d. d.id == device_id && d.user_account_id == user_id) s.mfa_devices
  from_option mfa_device_not_found found

-- `save(update_fields=[…])`
abbrev pub save_device : MfaDevice → AccountTx (Unit {0})
save_device d = modify λ s. record s { mfa_devices = put_row (λ x. x.id) d s.mfa_devices }

unfoldable pub mark_verified : ℕ → ℕ → MfaDevice → AccountTx MfaDevice
mark_verified tenant_id user_id device = do
  now ← gets λ s. s.now
  save_device (record device { verified_at = some now })
  log_account tenant_id user_id mfa_enabled user_id
  pure (record device { verified_at = some now })

-- A device that is not removed: proved already, or proved now by the code.
abbrev pub prove : Option ℕ → CodeCheck → ℕ → ℕ → ℕ → MfaDevice → AccountTx MfaDevice
prove (some _) check tenant_id user_id code device = pure device
prove none check tenant_id user_id code device = do
  now ← gets λ s. s.now
  raise_if (not (check device.secret_key code now)) mfa_invalid_code
  atomic (mark_verified tenant_id user_id device)

unfoldable pub verify_initial : CodeCheck → Option ℕ → ℕ → ℕ → ℕ → AccountTx MfaDevice
verify_initial check tenant user_id device_id code = do
  tenant_id ← require_current_tenant tenant
  device ← get_device user_id device_id
  raise_if (is_set device.removed_at) mfa_device_removed
  prove device.verified_at check tenant_id user_id code device

-- `MfaService.verify_code`: the code of any live device of the user.
unfoldable pub verify_code : CodeCheck → ℕ → ℕ → Directory → Bool
verify_code check user_id code s =
    any (λ d. is_live user_id d && check d.secret_key code s.now) s.mfa_devices

unfoldable pub requires_challenge : ℕ → Directory → Bool
requires_challenge user_id s = any (is_live user_id) s.mfa_devices

-- Is there another live device of the user?
abbrev pub has_other : ℕ → ℕ → Directory → Bool
has_other user_id device_id s =
    any (λ d. is_live user_id d && not (d.id == device_id)) s.mfa_devices

-- A device that is not removed yet.
unfoldable pub remove_live : Option ℕ → ℕ → MfaDevice → AccountTx MfaDevice
remove_live tenant user_id device = do
  raise_if (not (is_set device.verified_at)) mfa_device_unverified
  last ← gets λ s. not (has_other user_id device.id s) && holds_mfa_required_role user_id s
  raise_if last mfa_last_device
  now ← gets λ s. s.now
  save_device (record device { removed_at = some now })
  tenant_id ← require_current_tenant tenant
  log_account tenant_id user_id mfa_removed user_id
  pure (record device { removed_at = some now })

abbrev pub remove_unless : Bool → Option ℕ → ℕ → MfaDevice → AccountTx MfaDevice
remove_unless true tenant user_id device = pure device
remove_unless false tenant user_id device = remove_live tenant user_id device

unfoldable pub remove_device : Option ℕ → ℕ → ℕ → AccountTx MfaDevice
remove_device tenant user_id device_id = do
  account ← gets λ s. get_row (λ a. a.id) user_id s.accounts
  _ ← from_option does_not_exist account
  device ← get_device user_id device_id
  remove_unless (is_set device.removed_at) tenant user_id device

unfoldable pub remove : Option ℕ → ℕ → ℕ → AccountTx MfaDevice
remove tenant user_id device_id = atomic (remove_device tenant user_id device_id)
