-- ===== src/Accounts/Members.antt =====
-- `MembershipService` of apps/accounts/services.py: an invitation is redeemed, a grant is revoked.
use hotel_booking.Base.{
  ℕ, suc, Bool, ◌&&◌, not, Option, none, some, List, [], ◌∷◌, ltb, leb, ◌==◌, if◌then◌else◌, find?,
  select,
}
use hotel_booking.Results.{
  invitation_not_found, invitation_not_pending, invitation_expired, invitation_email_mismatch,
  membership_not_active, last_owner_self_revoke, multiple_objects_returned, does_not_exist,
}
use hotel_booking.Tx.{ok, err, pure, raise_if, gets, modify, from_option, atomic, ◌>>=◌, ◌>>◌}
use hotel_booking.Table.{put_row}
use hotel_booking.Accounts.Directory.{
  Directory, AccountTx, UserAccount, Membership, MembershipStatus, Invitation, InvitationStatus,
  membership_accepted, membership_revoked, log_account, any,
}
use hotel_booking.Accounts.Mfa.{text_eq, holds_owner_role, is_active_member}
use hotel_booking.Accounts.Invitations.{is_pending_invitation, save_invitation}

-- `_assert_redeemable`
unfoldable pub assert_redeemable : Invitation → UserAccount → AccountTx (Unit {0})
assert_redeemable invitation user = do
  raise_if (not (is_pending_invitation invitation)) invitation_not_pending
  now ← gets λ s. s.now
  raise_if (leb invitation.expires_at now) invitation_expired
  raise_if (not (text_eq invitation.email user.email)) invitation_email_mismatch

abbrev pub is_of : ℕ → ℕ → Membership → Bool
is_of tenant_id user_id m = m.tenant_id == tenant_id && m.user_account_id == user_id

-- `.first()`: the row with the lowest key
unfoldable pub first_by_id : List Membership → Option Membership
first_by_id [] = none
first_by_id (m ∷ ms) = elim (first_by_id ms) [
  | none ↦ some m
  | some x ↦ if ltb x.id m.id then some x else some m
]

-- `update_or_create` on the memberships that a look-up found.
unfoldable pub activate : ℕ → ℕ → List Membership → AccountTx Membership
activate tenant_id user_id [] s =
    let m : Membership = record {
      id = s.next_id;
      tenant_id = tenant_id;
      user_account_id = user_id;
      status = MembershipStatus.active;
      revoked_at = none;
    } in
    (ok m, record s { next_id = suc s.next_id; memberships = m ∷ s.memberships })
activate tenant_id user_id (m ∷ []) s =
    let active : Membership = record m { status = MembershipStatus.active } in
    (ok active, record s { memberships = put_row (λ x. x.id) active s.memberships })
activate tenant_id user_id (m ∷ n ∷ ms) s = (err multiple_objects_returned, s)

-- `get_or_create` of the role grant
unfoldable pub grant_role : ℕ → ℕ → Option ℕ → AccountTx (Unit {0})
grant_role tenant_id membership_id none s = (ok tt, s)
grant_role tenant_id membership_id (some role_id) s =
    let granted =
      any (λ r. r.membership_id == membership_id && r.role_id == role_id) s.membership_roles in
    if granted then (ok tt, s) else (
      ok tt,
      record s {
        membership_roles =
            record { tenant_id = tenant_id; membership_id = membership_id; role_id = role_id }
            ∷ s.membership_roles;
      },
    )

abbrev pub accept : Invitation → AccountTx (Unit {0})
accept invitation = save_invitation (record invitation { status = InvitationStatus.accepted })

-- The grant of a user who has none that is active.
unfoldable pub grant : Invitation → UserAccount → AccountTx Membership
grant invitation user = do
  found ← gets λ s. select (is_of invitation.tenant_id user.id) s.memberships
  membership ← activate invitation.tenant_id user.id found
  grant_role invitation.tenant_id membership.id invitation.role_id
  accept invitation
  log_account invitation.tenant_id membership.id membership_accepted user.id
  pure membership

abbrev pub redeem_for : Invitation → UserAccount → Option Membership → AccountTx Membership
redeem_for invitation user none = grant invitation user
redeem_for invitation user (some m) =
    if is_active_member m then accept invitation >> pure m else grant invitation user

unfoldable pub redeem : ℕ → UserAccount → AccountTx Membership
redeem token_hash user = do
  found ← gets λ s. find? (λ i. i.token_hash == token_hash) s.invitations
  invitation ← from_option does_not_exist found
  assert_redeemable invitation user
  existing ← gets λ s. first_by_id (select (is_of invitation.tenant_id user.id) s.memberships)
  redeem_for invitation user existing

-- `lookup_tenant_by_token_hash` finds the tenant of the same row.
unfoldable pub redeem_invitation : (ℕ → ℕ) → ℕ → UserAccount → AccountTx Membership
redeem_invitation hash token user = do
  found ← gets λ s. find? (λ i. i.token_hash == hash token) s.invitations
  _ ← from_option invitation_not_found found
  atomic (redeem (hash token) user)

abbrev pub is_other_owner : Directory → Membership → Membership → Bool
is_other_owner s target m =
    m.tenant_id == target.tenant_id
    && (is_active_member m && (not (m.id == target.id) && holds_owner_role s m.id))

-- `_is_last_active_owner`
abbrev pub is_last_active_owner : Membership → Directory → Bool
is_last_active_owner target s =
    holds_owner_role s target.id && not (any (is_other_owner s target) s.memberships)

abbrev pub revoked_row : ℕ → Membership → Membership
revoked_row now m = record m { status = MembershipStatus.revoked; revoked_at = some now }

unfoldable pub revoke_active : Membership → ℕ → AccountTx Membership
revoke_active actor membership_id = do
  found ←
      gets λ s. find? (λ m. m.id == membership_id && m.tenant_id == actor.tenant_id) s.memberships
  target ← from_option does_not_exist found
  raise_if (not (is_active_member target)) membership_not_active
  last ← gets λ s. target.user_account_id == actor.user_account_id && is_last_active_owner target s
  raise_if last last_owner_self_revoke
  now ← gets λ s. s.now
  modify λ s. record s {
    memberships = put_row (λ m. m.id) (revoked_row now target) s.memberships;
    membership_roles = select (λ r. not (r.membership_id == target.id)) s.membership_roles;
  }
  log_account actor.tenant_id target.id membership_revoked actor.user_account_id
  pure (revoked_row now target)

unfoldable pub revoke_membership : Membership → ℕ → AccountTx Membership
revoke_membership actor membership_id = atomic (revoke_active actor membership_id)
