-- ===== src/Tests/Accounts.antt =====
-- Runs of sign-ins, second factors and memberships.
use hotel_booking.Base.{
  ◌+◌, ℕ, ◌≡◌, refl, Bool, true, ◌&&◌, none, some, List, [], ◌∷◌, arith, ◌==◌, if◌then◌else◌,
}
use hotel_booking.Results.{invitation_not_pending, mfa_last_device, last_owner_self_revoke}
use hotel_booking.Tx.{err}
use hotel_booking.Accounts.Directory.{
  InvitationStatus-discrete, UserAccount, UserStatus, Membership, MembershipStatus,
  MembershipStatus-discrete, Invitation, InvitationStatus, MfaDevice, MfaDeviceType, Directory, any,
}
use hotel_booking.Accounts.Lockout.{Auth, is_active_account, by_email, unlocked_row, authenticate}
use hotel_booking.Accounts.Mfa.{requires_challenge, remove_live, remove_device, remove}
use hotel_booking.Accounts.Members.{
  revoke_active, revoke_membership, assert_redeemable, first_by_id, activate, grant_role, grant,
  redeem, redeem_invitation,
}
use hotel_booking.Accounts.Challenge.{
  MfaCall, enrolls, proves, removes, after_mfa_calls, after_mfa_calls-requires_challenge,
}
use hotel_booking.Accounts.Redemption.{IsRedeemed, redeem_invitation_once}
use hotel_booking.Accounts.SignIn.{authenticate-locked, IsSignedIn}

-- The password of account i is i.
abbrev check : UserAccount → ℕ → Bool
check u password = u.id == password

abbrev auth : Auth
auth = record {
  threshold = 5;
  lockout_seconds = 900;
  check_password = check;
  authenticate = λ accounts email password. elim (by_email email accounts) [
    | none ↦ none
    | some u ↦ if check u password && is_active_account u then some u else none
  ];
}

abbrev owner : UserAccount
owner = record {
  id = 1;
  email = "owner@hotel.example";
  status = UserStatus.locked;
  failed_attempts = 5;
  locked_at = some 1000;
  deactivated_at = none;
}

abbrev clerk : UserAccount
clerk = record owner {
  id = 2;
  email = "clerk@hotel.example";
  status = UserStatus.active;
  failed_attempts = 0;
  locked_at = none;
}

abbrev phone : MfaDevice
phone = record {
  id = 10;
  user_account_id = 1;
  device_type = MfaDeviceType.totp;
  name = "phone";
  secret_key = 77;
  verified_at = some 900;
  removed_at = none;
}

abbrev owner_membership : Membership
owner_membership = record {
  id = 20;
  tenant_id = 3;
  user_account_id = 1;
  status = MembershipStatus.active;
  revoked_at = none;
}

abbrev invitation : Invitation
invitation = record {
  id = 30;
  tenant_id = 3;
  email = "clerk@hotel.example";
  token_hash = 44;
  status = InvitationStatus.pending;
  created_at = 500;
  expires_at = 5000;
  invited_by = some 1;
  role_id = none;
}

abbrev directory : Directory
directory = record {
  now = 1900;
  next_id = 40;
  accounts = owner ∷ clerk ∷ [];
  sessions = [];
  memberships = owner_membership ∷ [];
  roles = record { id = 5; tenant_id = 3; name = "tenant_owner" } ∷ [];
  role_permissions = [];
  membership_roles = record { tenant_id = 3; membership_id = 20; role_id = 5 } ∷ [];
  invitations = invitation ∷ [];
  mfa_devices = phone ∷ [];
  audit = [];
}

-- The code of a device is its secret.
abbrev code_check : ℕ → ℕ → ℕ → Bool
code_check secret_key code now = secret_key == code

-- The last device stays; with a second one that is proved it may go.
remove-last : (remove (some 3) 1 10 directory).0 ≡ err mfa_last_device
unfolding remove remove_device remove_live any MembershipStatus-discrete
remove-last = refl

revoke-last : (revoke_membership owner_membership 20 directory).0 ≡ err last_owner_self_revoke
unfolding revoke_membership revoke_active any MembershipStatus-discrete
revoke-last = refl

abbrev device_calls : List MfaCall
device_calls =
    enrolls (some 3) 1 MfaDeviceType.totp "tablet" 78
    ∷ proves (some 3) 1 40 78
    ∷ removes (some 3) 1 10
    ∷ removes (some 3) 1 40
    ∷ []

after_mfa_calls-requires_challenge_example :
    requires_challenge 1 (after_mfa_calls code_check device_calls directory) ≡ true
unfolding any requires_challenge MembershipStatus-discrete
after_mfa_calls-requires_challenge_example =
    after_mfa_calls-requires_challenge 1 code_check device_calls directory
      ((refl, tt), (omega arith, tt)) refl refl

authenticate-locked_example :
    IsSignedIn (unlocked_row owner) (authenticate auth "owner@hotel.example" 1 directory)
authenticate-locked_example =
    authenticate-locked auth "owner@hotel.example" 1 1000 owner directory
      (λ accounts email password. refl) refl refl refl refl (omega arith)

abbrev clerk_membership : Membership
clerk_membership = record {
  id = 40;
  tenant_id = 3;
  user_account_id = 2;
  status = MembershipStatus.active;
  revoked_at = none;
}

abbrev joined : Directory
joined = (redeem_invitation (λ token. token + 1) 43 clerk directory).1

redeem_invitation_once_example :
    IsRedeemed 44 clerk directory clerk_membership joined
    × (redeem_invitation (λ token. token + 1) 43 owner joined
        ≡ (err invitation_not_pending, joined))
unfolding redeem_invitation redeem grant activate grant_role assert_redeemable first_by_id any
    InvitationStatus-discrete MembershipStatus-discrete
redeem_invitation_once_example =
    redeem_invitation_once (λ token. token + 1) 43 clerk owner directory clerk_membership refl
