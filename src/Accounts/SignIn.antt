-- ===== src/Accounts/SignIn.antt =====
-- `AuthService.authenticate` on a locked account.
use mathlib.Core.Path.{subst}
use Prim.Native.String.{String}
use text.Mathlib.Text
use hotel_booking.Base.{
  ℕ, ◌+◌, ◌<◌, ◌≡◌, refl, sym, ap, ◌∙◌, Bool, true, false, ◌&&◌, Option, none, some, List, [], ◌∷◌,
  ltb, ◌==◌, if◌then◌else◌, arith, inl, inr, Bool-cases,
}
use hotel_booking.Tx.{Result, ok}
use hotel_booking.Table.{get_row}
use hotel_booking.Accounts.Directory.{UserAccount, UserStatus, user_status_eq, Directory}
use hotel_booking.Accounts.Lockout.{
  Auth, is_active_account, by_email, IsBackend, update_rows_of, one_more, locked_row, locks,
  lock_if, count_failure, record_login_failure, unlocked_row, reset_row, reset_login_failures,
  clear_lock, refuse, sign_in, authenticate,
}

abbrev pub account_row : ℕ → List UserAccount → Option UserAccount
account_row = get_row (λ a. a.id)

module _ (i : ℕ) (f : UserAccount → UserAccount) where
  account_row-update :
      (u : UserAccount) (us : List UserAccount)
      → ((a : UserAccount) → (f a).id ≡ a.id)
      → account_row i us ≡ some u
      → account_row i (update_rows_of i f us) ≡ some (f u)
  unfolding update_rows_of
  account_row-update u [] same h = ground arith
  account_row-update u (a ∷ us) same h = elim (Bool-cases (a.id == i)) [
    | inl hit ↦ let one : a ≡ u = ground (arith, hit, h) in ground (arith, hit, same a, ap f one)
    | inr miss ↦ ground (arith, miss, account_row-update u us same (ground (arith, miss, h)))
  ]

  by_email-update :
      (email : String) (u : UserAccount) (us : List UserAccount)
      → ((a : UserAccount) → (f a).email ≡ a.email)
      → by_email email us ≡ some u
      → u.id ≡ i
      → by_email email (update_rows_of i f us) ≡ some (f u)
  unfolding update_rows_of
  by_email-update email u [] same h one = ground arith
  by_email-update email u (a ∷ us) same h one =
      elim (Bool-cases (text.Mathlib.Text.◌==◌ a.email email)) [
        | inl hit ↦
            let first : a ≡ u = ground (arith, hit, h) in
            let here : (a.id == i) ≡ true = ground (arith, ap (λ x. x.id) first, one) in
            ground (arith, hit, here, same a, ap f first)
        | inr miss ↦
            let rest = by_email-update email u us same (ground (arith, miss, h)) one in
            elim (Bool-cases (a.id == i)) [
              | inl here ↦ ground (arith, miss, here, same a, rest)
              | inr away ↦ ground (arith, miss, away, rest)
            ]
      ]

-- The account after one more failure, counted on the row `u`.
abbrev pub failed_row : Auth → ℕ → UserAccount → UserAccount
failed_row auth now u = if locks auth (one_more u) then locked_row now (one_more u) else one_more u

module _ (auth : Auth) (u : UserAccount) (s : Directory) where
  abbrev counted : Directory
  counted = record s { accounts = update_rows_of u.id one_more s.accounts }

  count_failure_lem :
      account_row u.id s.accounts ≡ some u
      → u.failed_attempts < 32767
      → ((count_failure auth u s).0 ≡ ok tt)
        × (account_row u.id (count_failure auth u s).1.accounts ≡ some (failed_row auth s.now u))
  unfolding count_failure
  count_failure_lem at less =
      let once : account_row u.id counted.accounts ≡ some (one_more u) =
        account_row-update u.id one_more u s.accounts (λ _. refl) at in
      elim (Bool-cases (locks auth (one_more u))) [
        | inl full ↦
            let run : count_failure auth u s ≡ lock_if true u.id counted =
              ground (arith, once, full) in
            let twice : account_row u.id (lock_if true u.id counted).1.accounts
                ≡ some (failed_row auth s.now u) =
              account_row-update u.id (locked_row s.now) (one_more u) counted.accounts (λ _. refl)
                once
              ∙ ground (arith, full) in
            subst
              (λ o.
                (o.0 ≡ ok tt) × (account_row u.id o.1.accounts ≡ some (failed_row auth s.now u)))
              (sym run) (refl, twice)
        | inr room ↦
            let run : count_failure auth u s ≡ (ok tt, counted) = ground (arith, once, room) in
            subst
              (λ o.
                (o.0 ≡ ok tt) × (account_row u.id o.1.accounts ≡ some (failed_row auth s.now u)))
              (sym run) (refl, once ∙ ground (arith, room))
      ]

-- A sign-in that is refused, with the account counted once more.
abbrev pub IsRefused : Auth → ℕ → UserAccount → Result (Option UserAccount) × Directory → Type 0
IsRefused auth now u out =
    (out.0 ≡ ok none) × (account_row u.id out.1.accounts ≡ some (failed_row auth now u))

abbrev pub IsSignedIn : UserAccount → Result (Option UserAccount) × Directory → Type 0
IsSignedIn u out = (out.0 ≡ ok (some u)) × (account_row u.id out.1.accounts ≡ some u)

module _ (auth : Auth) (email : String) (u : UserAccount) (s : Directory)
    (named : by_email email s.accounts ≡ some u) (at : account_row u.id s.accounts ≡ some u) where
  refuse_lem : u.failed_attempts < 32767 → IsRefused auth s.now u (refuse auth email s)
  unfolding record_login_failure
  refuse_lem less =
      let (fine, row) = count_failure_lem auth u s at less in
      let run : refuse auth email s ≡ (ok none, (count_failure auth u s).1) =
        ground (arith, named, fine) in
      subst (IsRefused auth s.now u) (sym run) (refl, row)

  sign_in-IsRefused :
      (password : ℕ)
      → auth.authenticate s.accounts email password ≡ none
      → u.failed_attempts < 32767
      → IsRefused auth s.now u (sign_in auth email password s)
  unfolding sign_in
  sign_in-IsRefused password none' less =
      let run : sign_in auth email password s ≡ refuse auth email s = ground (arith, none') in
      subst (IsRefused auth s.now u) (sym run) (refuse_lem less)

  sign_in-welcome :
      (password : ℕ)
      → auth.authenticate s.accounts email password ≡ some u
      → u.status ≡ UserStatus.active
      → u.failed_attempts ≡ 0
      → IsSignedIn u (sign_in auth email password s)
  unfolding sign_in reset_login_failures
  sign_in-welcome password found active' zero' =
      let now = s.now in
      let clean : (r : UserAccount) → reset_row auth s.now u r ≡ record r { failed_attempts = 0 } =
        λ r. ground (arith, active') in
      let same : reset_row auth s.now u u ≡ u = ground (arith, clean u, zero') in
      let is_in : is_active_account u ≡ true = ground (arith, active') in
      let run : sign_in auth email password s ≡ (
        ok (some (reset_row auth s.now u u)),
        record s { accounts = update_rows_of u.id (reset_row auth s.now u) s.accounts },
      ) =
        ground (arith, found, is_in) in
      let row : account_row u.id (update_rows_of u.id (reset_row auth s.now u) s.accounts)
          ≡ some (reset_row auth s.now u u) =
        account_row-update u.id (reset_row auth s.now u) u s.accounts
          (λ r. ap (λ x. x.id) (clean r)) at in
      subst (IsSignedIn u) (sym run) (ground (arith, same), row ∙ ap some same)

-- By whether the lock still holds, and whether the password is right.
abbrev pub AttemptedIf :
    Bool → Bool → Auth → ℕ → UserAccount → Result (Option UserAccount) × Directory → Type 0
AttemptedIf true right auth now u out = IsRefused auth now u out
AttemptedIf false true auth now u out = IsSignedIn (unlocked_row u) out
AttemptedIf false false auth now u out = IsRefused auth now (unlocked_row u) out

-- What an attempt at moment `now` does to an account that was locked at `t`.
abbrev pub Attempted :
    Auth → ℕ → ℕ → UserAccount → ℕ → Result (Option UserAccount) × Directory → Type 0
Attempted auth now t u password out =
    AttemptedIf (ltb now (t + auth.lockout_seconds)) (auth.check_password (unlocked_row u) password)
      auth now u out

module _ (auth : Auth) (t : ℕ) (u : UserAccount) (locked : u.status ≡ UserStatus.locked)
    (stamped : u.locked_at ≡ some t) where
  reset_row-locked :
      (now : ℕ) (r : UserAccount)
      → reset_row auth now u r ≡ (if ltb now (t + auth.lockout_seconds) then r else unlocked_row r)
  reset_row-locked now r =
      ground (arith, locked, stamped, Bool-cases (ltb now (t + auth.lockout_seconds)))

  reset_row-id : (now : ℕ) (r : UserAccount) → (reset_row auth now u r).id ≡ r.id
  reset_row-id now r = ground (arith, reset_row-locked now r)

  reset_row-email : (now : ℕ) (r : UserAccount) → (reset_row auth now u r).email ≡ r.email
  reset_row-email now r = ground (arith, reset_row-locked now r)

  abbrev cleared : Directory → Directory
  cleared s = record s { accounts = update_rows_of u.id (reset_row auth s.now u) s.accounts }

  authenticate-cleared :
      (email : String) (password : ℕ) (s : Directory)
      → by_email email s.accounts ≡ some u
      → authenticate auth email password s ≡ sign_in auth email password (cleared s)
  unfolding authenticate clear_lock reset_login_failures
  authenticate-cleared email password s named =
      let is_locked : user_status_eq u.status UserStatus.locked ≡ true = ground (arith, locked) in
      ground (arith, named, is_locked)

  module _ (email : String) (password : ℕ) (s : Directory)
      (named : by_email email s.accounts ≡ some u) (at : account_row u.id s.accounts ≡ some u)
      (v : UserAccount) (left : reset_row auth s.now u u ≡ v) where
    named-cleared : by_email email (cleared s).accounts ≡ some v
    named-cleared =
        by_email-update u.id (reset_row auth s.now u) email u s.accounts (reset_row-email s.now)
          named refl
        ∙ ap some left

    row-cleared : account_row u.id (cleared s).accounts ≡ some v
    row-cleared =
        account_row-update u.id (reset_row auth s.now u) u s.accounts (reset_row-id s.now) at
        ∙ ap some left

    backend-cleared :
        (b : Bool)
        → IsBackend auth
        → (auth.check_password v password && is_active_account v) ≡ b
        → auth.authenticate (cleared s).accounts email password ≡ (if b then some v else none)
    backend-cleared b backend checked =
        backend (cleared s).accounts email password ∙ ground (arith, named-cleared, checked)

-- An attempt to sign in to a locked account, with Django's backend as documented and a counter below
-- the bound of its column: before AUTH_LOCKOUT_SECONDS are over it is refused, whatever the
-- password; once they are over the right password signs in, with the lock and the counter cleared,
-- and a wrong one is refused. A refused attempt is counted, and at the threshold it locks anew.
pub authenticate-locked :
    (auth : Auth) (email : String) (password t : ℕ) (u : UserAccount) (s : Directory)
    → IsBackend auth
    → by_email email s.accounts ≡ some u
    → account_row u.id s.accounts ≡ some u
    → u.status ≡ UserStatus.locked
    → u.locked_at ≡ some t
    → u.failed_attempts < 32767
    → Attempted auth s.now t u password (authenticate auth email password s)
authenticate-locked auth email password t u s backend named at locked stamped less =
    let run = authenticate-cleared auth t u locked stamped email password s named in
    let s1 : Directory = cleared auth t u locked stamped s in
    let done = sign_in auth email password s1 in
    let right : Bool = auth.check_password (unlocked_row u) password in
    subst (Attempted auth s.now t u password) (sym run)
      (elim (Bool-cases (ltb s.now (t + auth.lockout_seconds))) [
        | inl early ↦
            let left : reset_row auth s.now u u ≡ u =
              ground (arith, reset_row-locked auth t u locked stamped s.now u, early) in
            let idle : (auth.check_password u password && is_active_account u) ≡ false =
              ground (arith, locked, Bool-cases (auth.check_password u password)) in
            subst (λ b. AttemptedIf b right auth s.now u done) (sym early)
              (sign_in-IsRefused auth email u s1
                (named-cleared auth t u locked stamped email password s named at u left)
                (row-cleared auth t u locked stamped email password s named at u left) password
                (backend-cleared auth t u locked stamped email password s named at u left false
                  backend idle)
                less)
        | inr late ↦
            let v : UserAccount = unlocked_row u in
            let left : reset_row auth s.now u u ≡ v =
              ground (arith, reset_row-locked auth t u locked stamped s.now u, late) in
            let named' = named-cleared auth t u locked stamped email password s named at v left in
            let row' = row-cleared auth t u locked stamped email password s named at v left in
            elim (Bool-cases (auth.check_password v password)) [
              | inl fits ↦
                  subst (λ b. AttemptedIf b right auth s.now u done) (sym late)
                    (subst (λ b. AttemptedIf false b auth s.now u done) (sym fits)
                      (sign_in-welcome auth email v s1 named' row' password
                        (backend-cleared auth t u locked stamped email password s named at v left
                          true backend (ground (arith, fits)))
                        refl refl))
              | inr wrong ↦
                  subst (λ b. AttemptedIf b right auth s.now u done) (sym late)
                    (subst (λ b. AttemptedIf false b auth s.now u done) (sym wrong)
                      (sign_in-IsRefused auth email v s1 named' row' password
                        (backend-cleared auth t u locked stamped email password s named at v left
                          false backend (ground (arith, wrong)))
                        (ground arith)))
            ]
      ])
