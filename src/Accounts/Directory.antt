-- ===== src/Accounts/Directory.antt =====
-- apps/accounts/models.py: the tables of accounts, grants, invitations and second factors, as a
-- state of their own. An e-mail is in its stored form, stripped and in lower case; the version
-- columns and the stamps that no service reads are left out.
use Prim.Native.String.{String}
use hotel_booking.Base.{ℕ, Bool, false, ◌||◌, Option, List, [], ◌∷◌, decide}
use hotel_booking.Tx.{Tx, ok}

pub data UserStatus : Type 0 where
  active locked deactivated : UserStatus

pub data MembershipStatus : Type 0 where
  pending active revoked : MembershipStatus

pub data InvitationStatus : Type 0 where
  pending accepted expired revoked : InvitationStatus

pub data MfaDeviceType : Type 0 where
  totp webauthn : MfaDeviceType

unfoldable pub UserStatus-discrete : Discrete UserStatus
UserStatus-discrete = hlevel

unfoldable pub MembershipStatus-discrete : Discrete MembershipStatus
MembershipStatus-discrete = hlevel

unfoldable pub InvitationStatus-discrete : Discrete InvitationStatus
InvitationStatus-discrete = hlevel

unfoldable pub MfaDeviceType-discrete : Discrete MfaDeviceType
MfaDeviceType-discrete = hlevel

pub record UserAccount : Type 0 where
  pub id : ℕ
  pub email : String
  pub status : UserStatus
  pub failed_attempts : ℕ
  pub locked_at : Option ℕ
  pub deactivated_at : Option ℕ

-- A row of django_session, by the user that its data decodes to.
pub record Session : Type 0 where
  pub session_key : ℕ
  pub auth_user_id : Option ℕ

pub record Membership : Type 0 where
  pub id : ℕ
  pub tenant_id : ℕ
  pub user_account_id : ℕ
  pub status : MembershipStatus
  pub revoked_at : Option ℕ

pub record Role : Type 0 where
  pub id : ℕ
  pub tenant_id : ℕ
  pub name : String

pub record RolePermission : Type 0 where
  pub role_id : ℕ
  pub tenant_id : ℕ
  pub permission_code : String

pub record MembershipRole : Type 0 where
  pub tenant_id : ℕ
  pub membership_id : ℕ
  pub role_id : ℕ

pub record Invitation : Type 0 where
  pub id : ℕ
  pub tenant_id : ℕ
  pub email : String
  pub token_hash : ℕ
  pub status : InvitationStatus
  pub created_at : ℕ
  pub expires_at : ℕ
  pub invited_by : Option ℕ
  pub role_id : Option ℕ

-- `secret_key` is the ciphertext.
pub record MfaDevice : Type 0 where
  pub id : ℕ
  pub user_account_id : ℕ
  pub device_type : MfaDeviceType
  pub name : String
  pub secret_key : ℕ
  pub verified_at : Option ℕ
  pub removed_at : Option ℕ

pub data AccountAction : Type 0 where
  invitation_created invitation_revoked membership_accepted membership_revoked : AccountAction
  mfa_enrolled mfa_enabled mfa_removed : AccountAction

-- An entry of the audit log: the entity is an invitation, a membership or a user by the action.
pub record AccountAudit : Type 0 where
  pub tenant_id : ℕ
  pub entity_id : ℕ
  pub action : AccountAction
  pub actor : ℕ

pub record Directory : Type 0 where
  pub now : ℕ
  pub next_id : ℕ
  pub accounts : List UserAccount
  pub sessions : List Session
  pub memberships : List Membership
  pub roles : List Role
  pub role_permissions : List RolePermission
  pub membership_roles : List MembershipRole
  pub invitations : List Invitation
  pub mfa_devices : List MfaDevice
  pub audit : List AccountAudit

abbrev pub AccountTx : Type 0 → Type 0
AccountTx A = Tx Directory A

abbrev pub user_status_eq : UserStatus → UserStatus → Bool
user_status_eq a b = decide (UserStatus-discrete a b)

-- `AuditService.record(…)`
abbrev pub log_account : ℕ → ℕ → AccountAction → ℕ → AccountTx (Unit {0})
log_account tenant_id entity_id action actor s = (
  ok tt,
  record s {
    audit =
        record { tenant_id = tenant_id; entity_id = entity_id; action = action; actor = actor }
        ∷ s.audit;
  },
)

-- `.exists()`
unfoldable pub any {ℓ} : {A : Type ℓ} → (A → Bool) → List A → Bool
any f [] = false
any f (x ∷ xs) = f x || any f xs
