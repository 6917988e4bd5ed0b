-- ===== src/Accounts/Redemption.antt =====
-- An invitation is redeemed once, by its addressee and in time.
use mathlib.Core.Path.{subst}
use text.Mathlib.TextEquality.{eq_iff}
use hotel_booking.Base.{
  ℕ, ◌<◌, ◌≡◌, refl, sym, ap, ◌∙◌, Option, some, List, [], ◌∷◌, leb, ◌==◌, arith, inl, inr, select,
  find?, Bool-cases, Option-cases, decide_iff,
}
use hotel_booking.Results.{invitation_not_pending}
use hotel_booking.Tx.{ok, err, gets, atomic, ◌>>=◌, ◌>>◌}
use hotel_booking.Tx.Keeps.{bind_inv, atomic_ok}
use hotel_booking.Table.{put_row}
use hotel_booking.Accounts.Directory.{
  Directory, AccountTx, UserAccount, Membership, Invitation, InvitationStatus,
  InvitationStatus-discrete,
}
use hotel_booking.Accounts.Mfa.{text_eq}
use hotel_booking.Accounts.Invitations.{is_pending_invitation}
use hotel_booking.Accounts.Grants.{
  accepted_row, IsGrant, IsStored, select-IsStored, IsOwn, select-All, first_by_id-All,
  redeem_for_ok,
}
use hotel_booking.Accounts.Members.{
  assert_redeemable, is_of, first_by_id, redeem_for, redeem, redeem_invitation,
}

abbrev pub by_hash : ℕ → List Invitation → Option Invitation
by_hash h = find? (λ i. i.token_hash == h)

by_hash-found :
    (h : ℕ) (i : Invitation) (is : List Invitation) → by_hash h is ≡ some i → i.token_hash ≡ h
by_hash-found h i [] at = ground arith
by_hash-found h i (x ∷ is) at = elim (Bool-cases (x.token_hash == h)) [
  | inl hit ↦
      let same : x ≡ i = ground (arith, hit, at) in
      ap (λ r. r.token_hash) (sym same) ∙ ground (arith, hit)
  | inr miss ↦ by_hash-found h i is (ground (arith, miss, at))
]

by_hash-put_row :
    (h : ℕ) (i row : Invitation) (is : List Invitation)
    → row.id ≡ i.id
    → row.token_hash ≡ h
    → by_hash h is ≡ some i
    → by_hash h (put_row (λ x. x.id) row is) ≡ some row
unfolding put_row
by_hash-put_row h i row [] one same at = ground arith
by_hash-put_row h i row (x ∷ is) one same at = elim (Bool-cases (x.id == row.id)) [
  | inl here ↦ ground (arith, here, same)
  | inr away ↦ elim (Bool-cases (x.token_hash == h)) [
    | inl hit ↦
        let it : x ≡ i = ground (arith, hit, at) in ground (arith, away, one, ap (λ r. r.id) it)
    | inr miss ↦
        ground (arith, away, miss, by_hash-put_row h i row is one same (ground (arith, miss, at)))
  ]
]

-- What a redemption that returned says of the invitation and of what it left.
abbrev pub IsRedeemed : ℕ → UserAccount → Directory → Membership → Directory → Type 0
IsRedeemed h user s m after =
    (i : Invitation) × (by_hash h s.invitations ≡ some i)
    × (i.status ≡ InvitationStatus.pending)
    × (s.now < i.expires_at)
    × (i.email ≡ user.email)
    × IsGrant i user m
    × (by_hash h after.invitations ≡ some (accepted_row i))
    × IsStored m after.memberships

assert_redeemable_ok :
    (i : Invitation) (user : UserAccount) (s : Directory)
    → (assert_redeemable i user s).0 ≡ ok tt
    → (i.status ≡ InvitationStatus.pending)
      × (s.now < i.expires_at)
      × (i.email ≡ user.email)
      × ((assert_redeemable i user s).1 ≡ s)
unfolding assert_redeemable
assert_redeemable_ok i user s done = elim (Bool-cases (is_pending_invitation i)) [
  | inr other ↦ ground (arith, other, done)
  | inl waits ↦ elim (Bool-cases (leb i.expires_at s.now)) [
    | inl late ↦ ground (arith, waits, late, done)
    | inr early ↦ elim (Bool-cases (text_eq i.email user.email)) [
      | inr stranger ↦ ground (arith, waits, early, stranger, done)
      | inl named ↦ (
        (decide_iff InvitationStatus-discrete i.status InvitationStatus.pending).0 waits,
        ground (arith, early),
        (eq_iff i.email user.email).0 named,
        ground (arith, waits, early, named),
      )
    ]
  ]
]

module _ (h : ℕ) (user : UserAccount) (s : Directory) where
  -- What `redeem` does once it has the invitation.
  abbrev follow : Invitation → AccountTx Membership
  follow i =
      assert_redeemable i user
      >> (gets (λ s. first_by_id (select (is_of i.tenant_id user.id) s.memberships))
          >>= redeem_for i user)

  follow_ok :
      (i : Invitation) (m : Membership)
      → by_hash h s.invitations ≡ some i
      → (follow i s).0 ≡ ok m
      → IsRedeemed h user s m (follow i s).1
  follow_ok i m at done =
      let next : Unit {0} → AccountTx Membership = λ _.
        gets (λ s. first_by_id (select (is_of i.tenant_id user.id) s.memberships))
        >>= redeem_for i user in
      let (_, fine, ran) = bind_inv (assert_redeemable i user) next s m done in
      let (waits, early, named, same) = assert_redeemable_ok i user s fine in
      let o = first_by_id (select (is_of i.tenant_id user.id) s.memberships) in
      let run : follow i s ≡ redeem_for i user o s = ran ∙ ap (next tt) same in
      let own : (x : Membership) → o ≡ some x → IsOwn i user x × IsStored x s.memberships =
        λ x found. (
          first_by_id-All (IsOwn i user) (select (is_of i.tenant_id user.id) s.memberships) x
              (select-All i user s.memberships) found,
          first_by_id-All (λ y. IsStored y s.memberships)
              (select (is_of i.tenant_id user.id) s.memberships) x
              (select-IsStored (is_of i.tenant_id user.id) s.memberships) found,
        ) in
      let (granted, kept, stored) =
        redeem_for_ok i user o s m own (ap (λ o. o.0) (sym run) ∙ done) in
      (
        i,
        at,
        waits,
        early,
        named,
        granted,
        ap (λ o. by_hash h o.1.invitations) run
            ∙ ap (by_hash h) kept
            ∙ by_hash-put_row h i (accepted_row i) s.invitations refl
                (by_hash-found h i s.invitations at) at,
        subst (IsStored m) (sym (ap (λ o. o.1.memberships) run)) stored,
      )

  redeem_ok :
      (m : Membership) → (redeem h user s).0 ≡ ok m → IsRedeemed h user s m (redeem h user s).1
  unfolding redeem
  redeem_ok m done = elim (Option-cases (by_hash h s.invitations)) [
    | inl nothing ↦ ground (arith, nothing, done)
    | inr (i, at) ↦
        let run : redeem h user s ≡ follow i s = ground (arith, at) in
        subst (λ o. IsRedeemed h user s m o.1) (sym run)
          (follow_ok i m at (ap (λ o. o.0) (sym run) ∙ done))
  ]

redeem_invitation_ok :
    (hash : ℕ → ℕ) (token : ℕ) (user : UserAccount) (s : Directory) (m : Membership)
    → (redeem_invitation hash token user s).0 ≡ ok m
    → IsRedeemed (hash token) user s m (redeem_invitation hash token user s).1
unfolding redeem_invitation
redeem_invitation_ok hash token user s m done =
    elim (Option-cases (by_hash (hash token) s.invitations)) [
      | inl nothing ↦ ground (arith, nothing, done)
      | inr (i, at) ↦
          let run : redeem_invitation hash token user s ≡ atomic (redeem (hash token) user) s =
            ground (arith, at) in
          let (fine, same) =
            atomic_ok (redeem (hash token) user) s m (ap (λ o. o.0) (sym run) ∙ done) in
          subst (λ o. IsRedeemed (hash token) user s m o.1) (sym (run ∙ same))
            (redeem_ok (hash token) user s m fine)
    ]

redeem-accepted :
    (h : ℕ) (v : UserAccount) (s : Directory) (i : Invitation)
    → by_hash h s.invitations ≡ some (accepted_row i)
    → (redeem h v s).0 ≡ err invitation_not_pending
unfolding redeem assert_redeemable
redeem-accepted h v s i at = ground (arith, at)

redeem_invitation-accepted :
    (hash : ℕ → ℕ) (token : ℕ) (v : UserAccount) (s : Directory) (i : Invitation)
    → by_hash (hash token) s.invitations ≡ some (accepted_row i)
    → redeem_invitation hash token v s ≡ (err invitation_not_pending, s)
unfolding redeem_invitation
redeem_invitation-accepted hash token v s i at =
    ground (arith, at, redeem-accepted (hash token) v s i at)

-- A redemption that returned was of a pending invitation that had not expired, by the user of its
-- e-mail; the membership returned is the user's, in the invitation's tenant, and active, it stands
-- so in the table, and the invitation is accepted. From then on no one redeems the token: the call
-- raises InvitationNotPending and changes nothing.
pub redeem_invitation_once :
    (hash : ℕ → ℕ) (token : ℕ) (user v : UserAccount) (s : Directory) (m : Membership)
    → (redeem_invitation hash token user s).0 ≡ ok m
    → let after = (redeem_invitation hash token user s).1 in
      IsRedeemed (hash token) user s m after
      × (redeem_invitation hash token v after ≡ (err invitation_not_pending, after))
redeem_invitation_once hash token user v s m done =
    let (i, at, waits, early, named, granted, left, stored) =
      redeem_invitation_ok hash token user s m done in
    let after : Directory = (redeem_invitation hash token user s).1 in
    (
      (i, at, waits, early, named, granted, left, stored),
      redeem_invitation-accepted hash token v after i left,
    )
