-- ===== src/Accounts/Invitations.antt =====
-- Permissions, roles and `InvitationService` of apps/accounts/services.py. A token and its hash are
-- numbers; the raw token is an argument, as the source draws it at random.
use Prim.Native.String.{String}
use hotel_booking.Base.{
  ℕ, suc, ◌+◌, Bool, false, ◌&&◌, ◌||◌, not, Option, none, some, List, [], ◌∷◌, ltb, leb, ◌==◌,
  elem, all, ◌++◌, if◌then◌else◌, decide, find?,
}
use hotel_booking.Results.{
  insufficient_permission, invitation_error, invitation_not_pending, integrity_error,
  does_not_exist, value_error,
}
use hotel_booking.Tx.{ok, pure, raise_if, gets, modify, from_option, atomic, ◌>>=◌, ◌>>◌}
use hotel_booking.Table.{put_row}
use hotel_booking.Accounts.Directory.{
  Directory, AccountTx, Membership, Role, RolePermission, Invitation, InvitationStatus,
  InvitationStatus-discrete, invitation_created, invitation_revoked, log_account, any,
}
use hotel_booking.Accounts.Mfa.{text_eq}

-- `PERMISSION_CODES`
abbrev pub permission_codes : List String
permission_codes =
    "tenant.view" ∷ "tenant.manage" ∷ "member.view" ∷ "member.invite" ∷ "member.manage"
    ∷ "role.view" ∷ "role.manage" ∷ "settings.view" ∷ "settings.manage" ∷ "feature_flag.manage" ∷ []

unfoldable pub is_valid : String → Bool
is_valid code = any (text_eq code) permission_codes

abbrev pub carries : Directory → String → ℕ → Bool
carries s code role_id =
    any (λ p. p.role_id == role_id && text_eq p.permission_code code) s.role_permissions

-- `Membership.has_permission`
unfoldable pub has_permission : String → Membership → Directory → Bool
has_permission code m s =
    is_valid code
    && any (λ r. r.membership_id == m.id && carries s code r.role_id) s.membership_roles

abbrev pub require_permission : String → Membership → AccountTx (Unit {0})
require_permission code m = do
  allowed ← gets λ s. has_permission code m s
  raise_if (not allowed) insufficient_permission

abbrev pub is_pending_invitation : Invitation → Bool
is_pending_invitation i = decide (InvitationStatus-discrete i.status InvitationStatus.pending)

-- The UNIQUE of the hash and the CHECK that an invitation expires after it is made.
unfoldable pub create_invitation : Membership → String → Role → ℕ → ℕ → AccountTx Invitation
create_invitation inviter email role token_hash expires_at = do
  i ← gets λ s. s.next_id
  now ← gets λ s. s.now
  taken ← gets λ s. any (λ x. x.token_hash == token_hash) s.invitations
  raise_if (taken || not (ltb now expires_at)) integrity_error
  let invitation : Invitation = record {
    id = i;
    tenant_id = inviter.tenant_id;
    email = email;
    token_hash = token_hash;
    status = InvitationStatus.pending;
    created_at = now;
    expires_at = expires_at;
    invited_by = some inviter.user_account_id;
    role_id = some role.id;
  }
  modify λ s. record s { next_id = suc s.next_id; invitations = invitation ∷ s.invitations }
  log_account inviter.tenant_id i invitation_created inviter.user_account_id
  pure invitation

-- `InvitationService.create`
unfoldable pub invite : (ℕ → ℕ) → Membership → String → Role → ℕ → ℕ → AccountTx (Invitation × ℕ)
invite hash inviter email role token expires_at = do
  require_permission "member.invite" inviter
  raise_if (not (role.tenant_id == inviter.tenant_id)) invitation_error
  invitation ← atomic (create_invitation inviter email role (hash token) expires_at)
  pure (invitation, token)

-- `Invitation.objects.get(pk=…, tenant_id=…)`
abbrev pub get_invitation : ℕ → ℕ → AccountTx Invitation
get_invitation tenant_id i = do
  found ← gets λ s. find? (λ x. x.id == i && x.tenant_id == tenant_id) s.invitations
  from_option does_not_exist found

abbrev pub save_invitation : Invitation → AccountTx (Unit {0})
save_invitation i = modify λ s. record s { invitations = put_row (λ x. x.id) i s.invitations }

-- The constraints hold for the rotated row as for a new one.
abbrev pub is_refused : Invitation → Directory → Bool
is_refused row s =
    any (λ x. x.token_hash == row.token_hash && not (x.id == row.id)) s.invitations
    || not (ltb row.created_at row.expires_at)

unfoldable pub rotate : ℕ → ℕ → ℕ → ℕ → AccountTx Invitation
rotate tenant_id invitation_id token_hash expires_at = do
  invitation ← get_invitation tenant_id invitation_id
  raise_if (not (is_pending_invitation invitation)) invitation_not_pending
  let row : Invitation = record invitation { token_hash = token_hash; expires_at = expires_at }
  refused ← gets (is_refused row)
  raise_if refused integrity_error
  save_invitation row
  pure row

unfoldable pub resend : (ℕ → ℕ) → Membership → ℕ → ℕ → ℕ → AccountTx (Invitation × ℕ)
resend hash inviter invitation_id token expires_at = do
  require_permission "member.invite" inviter
  invitation ← atomic (rotate inviter.tenant_id invitation_id (hash token) expires_at)
  pure (invitation, token)

unfoldable pub revoke_pending : Membership → ℕ → AccountTx Invitation
revoke_pending inviter invitation_id = do
  invitation ← get_invitation inviter.tenant_id invitation_id
  raise_if (not (is_pending_invitation invitation)) invitation_not_pending
  save_invitation (record invitation { status = InvitationStatus.revoked })
  log_account inviter.tenant_id invitation.id invitation_revoked inviter.user_account_id
  pure (record invitation { status = InvitationStatus.revoked })

unfoldable pub revoke_invitation : Membership → ℕ → AccountTx Invitation
revoke_invitation inviter invitation_id = do
  require_permission "member.manage" inviter
  atomic (revoke_pending inviter invitation_id)

abbrev pub is_past_due : ℕ → Invitation → Bool
is_past_due now i = is_pending_invitation i && leb i.expires_at now

-- The distinct tenants with an invitation that is past due.
unfoldable pub due_tenants : ℕ → List Invitation → List ℕ
due_tenants now [] = []
due_tenants now (i ∷ is) =
    let rest = due_tenants now is in
    if is_past_due now i && not (elem i.tenant_id rest) then i.tenant_id ∷ rest else rest

-- One tenant's UPDATE: the count and the table.
unfoldable pub expire_tenant : ℕ → ℕ → List Invitation → ℕ × List Invitation
expire_tenant now tenant_id [] = (0, [])
expire_tenant now tenant_id (i ∷ is) =
    let (n, rest) = expire_tenant now tenant_id is in
    if i.tenant_id == tenant_id && is_past_due now i
    then (suc n, record i { status = InvitationStatus.expired } ∷ rest)
    else (n, i ∷ rest)

unfoldable pub expire_tenants : ℕ → List ℕ → List Invitation → ℕ × List Invitation
expire_tenants now [] is = (0, is)
expire_tenants now (t ∷ ts) is =
    let (n, rest) = expire_tenant now t is in
    let (m, all) = expire_tenants now ts rest in (n + m, all)

unfoldable pub expire_past_due : Option ℕ → AccountTx ℕ
expire_past_due at s =
    let now : ℕ = elim at [ none ↦ s.now | some n ↦ n ] in
    let (n, is) = expire_tenants now (due_tenants now s.invitations) s.invitations in
    (ok n, record s { invitations = is })

abbrev pub has_duplicate : List String → Bool
has_duplicate [] = false
has_duplicate (c ∷ cs) = any (text_eq c) cs || has_duplicate cs

abbrev pub permissions_of : ℕ → ℕ → List String → List RolePermission
permissions_of role_id tenant_id [] = []
permissions_of role_id tenant_id (c ∷ cs) =
    record { role_id = role_id; tenant_id = tenant_id; permission_code = c }
    ∷ permissions_of role_id tenant_id cs

-- The UNIQUE of a tenant's role names, and of a role's codes.
unfoldable pub create_role_rows : ℕ → String → List String → AccountTx Role
create_role_rows tenant_id name codes = do
  i ← gets λ s. s.next_id
  taken ← gets λ s. any (λ r. r.tenant_id == tenant_id && text_eq r.name name) s.roles
  raise_if taken integrity_error
  let role : Role = record { id = i; tenant_id = tenant_id; name = name }
  modify λ s. record s { next_id = suc s.next_id; roles = role ∷ s.roles }
  raise_if (has_duplicate codes) integrity_error
  modify λ s. record s { role_permissions = permissions_of i tenant_id codes ++ s.role_permissions }
  pure role

-- `RoleService.create`
unfoldable pub create_role : ℕ → String → List String → AccountTx Role
create_role tenant_id name codes = do
  raise_if (not (all is_valid codes)) value_error
  atomic (create_role_rows tenant_id name codes)
