-- ===== src/Accounts/Grants.antt =====
-- The membership that an invitation grants.
use mathlib.Core.Path.{subst}
use hotel_booking.Base.{
  ◌⊎◌, Bool, ℕ, ◌≡◌, refl, sym, ap, ◌∙◌, true, ◌&&◌, Option, none, some, List, [], ◌∷◌, ltb, ◌==◌,
  arith, inl, inr, All, select, Bool-cases, Option-cases, decide_iff,
}
use hotel_booking.Tx.{ok, pure, ◌>>◌}
use hotel_booking.Tx.Keeps.{bind_inv}
use hotel_booking.Table.{put_row}
use hotel_booking.Accounts.Directory.{
  Directory, AccountTx, UserAccount, Membership, MembershipStatus, MembershipStatus-discrete,
  Invitation, InvitationStatus, membership_accepted, log_account, any,
}
use hotel_booking.Accounts.Mfa.{is_active_member}
use hotel_booking.Accounts.Members.{
  is_of, first_by_id, activate, grant_role, accept, grant, redeem_for,
}

abbrev pub accepted_row : Invitation → Invitation
accepted_row i = record i { status = InvitationStatus.accepted }

-- The grant that an invitation stands for.
abbrev pub IsGrant : Invitation → UserAccount → Membership → Type 0
IsGrant i user m =
    (m.tenant_id ≡ i.tenant_id)
    × (m.user_account_id ≡ user.id)
    × (m.status ≡ MembershipStatus.active)

abbrev pub IsOwn : Invitation → UserAccount → Membership → Type 0
IsOwn i user m = is_of i.tenant_id user.id m ≡ true

pub select-All :
    (i : Invitation) (user : UserAccount) (ms : List Membership)
    → All (IsOwn i user) (select (is_of i.tenant_id user.id) ms)
select-All i user [] = tt
select-All i user (m ∷ ms) = elim (Bool-cases (is_of i.tenant_id user.id m)) [
  | inl own ↦ rw own (own, select-All i user ms)
  | inr other ↦ rw other (select-All i user ms)
]

pub first_by_id-All :
    (P : Membership → Type 0) (ms : List Membership) (m : Membership)
    → All P ms
    → first_by_id ms ≡ some m
    → P m
unfolding first_by_id
first_by_id-All P [] m h at = ground arith
first_by_id-All P (x ∷ ms) m h at = elim (Option-cases (first_by_id ms)) [
  | inl nothing ↦ let same : x ≡ m = ground (arith, at, nothing) in subst P same h.0
  | inr (y, found) ↦
      let py : P y = first_by_id-All P ms y h.1 found in
      elim (Bool-cases (ltb y.id x.id)) [
        | inl less ↦ let same : y ≡ m = ground (arith, at, found, less) in subst P same py
        | inr more ↦ let same : x ≡ m = ground (arith, at, found, more) in subst P same h.0
      ]
]

-- The table has the row.
abbrev pub IsStored : Membership → List Membership → Type 0
IsStored m [] = ⊥
IsStored m (x ∷ ms) = (m ≡ x) ⊎ IsStored m ms

IsStored-put_row :
    (x row : Membership) (ms : List Membership)
    → row.id ≡ x.id
    → IsStored x ms
    → IsStored row (put_row (λ m. m.id) row ms)
unfolding put_row
IsStored-put_row x row [] one h = elim h [ ]
IsStored-put_row x row (y ∷ ms) one (inl same) =
    let here : (y.id == row.id) ≡ true = ground (arith, one, ap (λ m. m.id) same) in
    rw here (inl refl)
IsStored-put_row x row (y ∷ ms) one (inr later) = inr (IsStored-put_row x row ms one later)

IsStored-later :
    (y : Membership) (xs ms : List Membership)
    → All (λ x. IsStored x ms) xs
    → All (λ x. IsStored x (y ∷ ms)) xs
IsStored-later y [] ms h = tt
IsStored-later y (x ∷ xs) ms h = (inr h.0, IsStored-later y xs ms h.1)

pub select-IsStored :
    (f : Membership → Bool) (ms : List Membership) → All (λ x. IsStored x ms) (select f ms)
select-IsStored f [] = tt
select-IsStored f (m ∷ ms) =
    let rest = IsStored-later m (select f ms) ms (select-IsStored f ms) in
    elim (Bool-cases (f m)) [ inl kept ↦ rw kept (inl refl, rest) | inr left ↦ rw left rest ]

activate_lem :
    (i : Invitation) (user : UserAccount) (ms : List Membership) (m : Membership) (s : Directory)
    → All (IsOwn i user) ms
    → All (λ x. IsStored x s.memberships) ms
    → (activate i.tenant_id user.id ms s).0 ≡ ok m
    → IsGrant i user m
      × ((activate i.tenant_id user.id ms s).1.invitations ≡ s.invitations)
      × IsStored m (activate i.tenant_id user.id ms s).1.memberships
unfolding activate
activate_lem i user [] m s h k done =
    (ground (arith, done), ground (arith, done), inl (ground (arith, done)))
activate_lem i user (x ∷ []) m s h k done =
    let row : Membership = record x { status = MembershipStatus.active } in
    let same : row ≡ m = ground (arith, done) in
    (
      ground (arith, done, h.0),
      ground (arith, done),
      subst (λ r. IsStored r (put_row (λ z. z.id) row s.memberships)) same
          (IsStored-put_row x row s.memberships refl k.0),
    )
activate_lem i user (x ∷ y ∷ ms) m s h k done = ground (arith, done)

grant_role_lem :
    (tenant_id membership_id : ℕ) (role : Option ℕ) (s : Directory)
    → let out = grant_role tenant_id membership_id role s in
      (out.0 ≡ ok tt) × (out.1.invitations ≡ s.invitations) × (out.1.memberships ≡ s.memberships)
unfolding grant_role
grant_role_lem tenant_id membership_id none s = (refl, refl, refl)
grant_role_lem tenant_id membership_id (some r) s =
    elim (Bool-cases
      (any (λ x. x.membership_id == membership_id && x.role_id == r) s.membership_roles)) [
        | inl had ↦ rw had (refl, refl, refl)
        | inr new ↦ rw new (refl, refl, refl)
      ]

module _ (i : Invitation) (user : UserAccount) where
  -- The acceptance and its log entry, after the grant `m`.
  abbrev finish : Membership → AccountTx Membership
  finish m =
      grant_role i.tenant_id m.id i.role_id
      >> (accept i >> (log_account i.tenant_id m.id membership_accepted user.id >> pure m))

  abbrev pub IsAccepted : Directory → Membership → Directory → Type 0
  IsAccepted s m after =
      IsGrant i user m
      × (after.invitations ≡ put_row (λ x. x.id) (accepted_row i) s.invitations)
      × IsStored m after.memberships

  finish_lem :
      (m : Membership) (s : Directory)
      → ((finish m s).0 ≡ ok m)
        × ((finish m s).1.invitations ≡ put_row (λ x. x.id) (accepted_row i) s.invitations)
        × ((finish m s).1.memberships ≡ s.memberships)
  finish_lem m s =
      let (fine, same, members) = grant_role_lem i.tenant_id m.id i.role_id s in
      (ground (arith, fine), ground (arith, fine, same), ground (arith, fine, members))

  grant_ok :
      (s : Directory) (m : Membership)
      → (grant i user s).0 ≡ ok m
      → IsAccepted s m (grant i user s).1
  unfolding grant
  grant_ok s m done =
      let found = select (is_of i.tenant_id user.id) s.memberships in
      let (x, made, ran) = bind_inv (activate i.tenant_id user.id found) finish s m done in
      let (granted, same, stored) =
        activate_lem i user found x s (select-All i user s.memberships)
          (select-IsStored (is_of i.tenant_id user.id) s.memberships) made in
      let (fine, kept, members) = finish_lem x (activate i.tenant_id user.id found s).1 in
      let one : x ≡ m = ground (arith, sym fine ∙ ap (λ o. o.0) (sym ran) ∙ done) in
      (
        subst (IsGrant i user) one granted,
        ap (λ o. o.1.invitations) ran ∙ kept ∙ ap (put_row (λ x. x.id) (accepted_row i)) same,
        subst (IsStored m) (sym (ap (λ o. o.1.memberships) ran ∙ members)) (
            subst (λ y. IsStored y (activate i.tenant_id user.id found s).1.memberships) one
              stored),
      )

  pub redeem_for_ok :
      (o : Option Membership) (s : Directory) (m : Membership)
      → ((x : Membership) → o ≡ some x → IsOwn i user x × IsStored x s.memberships)
      → (redeem_for i user o s).0 ≡ ok m
      → IsAccepted s m (redeem_for i user o s).1
  redeem_for_ok none s m own done = grant_ok s m done
  redeem_for_ok (some x) s m own done = elim (Bool-cases (is_active_member x)) [
    | inl active' ↦
        let done' : ok x ≡ ok m = rw active' at done in
        let one : x ≡ m = ground (arith, done') in
        let (is_own, stored) = own x refl in
        let here : IsGrant i user x = (
          ground (arith, is_own),
          ground (arith, is_own),
          (decide_iff MembershipStatus-discrete x.status MembershipStatus.active).0 active',
        ) in
        rw active'
          (subst (IsGrant i user) one here, refl, subst (λ y. IsStored y s.memberships) one stored)
    | inr idle ↦
        let done' : (grant i user s).0 ≡ ok m = rw idle at done in rw idle (grant_ok s m done')
  ]
