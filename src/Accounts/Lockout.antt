-- ===== src/Accounts/Lockout.antt =====
-- `AccountService` and `AuthService` of apps/accounts/services.py: failed sign-ins, the lock and
-- its expiry, and what ends the sessions of an account.
use Prim.Native.String.{String}
use text.Mathlib.Text
use hotel_booking.Base.{
  ℕ, suc, ◌+◌, ◌≡◌, Bool, true, false, ◌&&◌, not, Option, none, some, List, [], ◌∷◌, ltb, leb, ◌==◌,
  option_eq, if◌then◌else◌, select, find?,
}
use hotel_booking.Tx.{
  ok, pure, raise_if, gets, modify, from_option, data_error, does_not_exist, ◌>>=◌, ◌>>◌,
}
use hotel_booking.Table.{get_row}
use hotel_booking.Accounts.Directory.{UserAccount, UserStatus, user_status_eq, AccountTx}

-- What the deployment fixes: AUTH_LOCKOUT_THRESHOLD, AUTH_LOCKOUT_SECONDS, and Django's
-- `authenticate` with its password check.
pub record Auth : Type 0 where
  pub threshold : ℕ
  pub lockout_seconds : ℕ
  pub check_password : UserAccount → ℕ → Bool
  pub authenticate : List UserAccount → String → ℕ → Option UserAccount

abbrev pub is_active_account : UserAccount → Bool
is_active_account u = user_status_eq u.status UserStatus.active

-- `UserAccount.objects.filter(email=…).first()`; the e-mail is unique.
abbrev pub by_email : String → List UserAccount → Option UserAccount
by_email email = find? (λ u. text.Mathlib.Text.◌==◌ u.email email)

-- What Django documents of `authenticate` with its ModelBackend: the account of the e-mail, if the
-- password is right and the account may sign in.
abbrev pub IsBackend : Auth → Type 0
IsBackend auth =
    (accounts : List UserAccount) (email : String) (password : ℕ)
    → auth.authenticate accounts email password ≡ (elim (by_email email accounts) [
      | none ↦ none
      | some u ↦ if auth.check_password u password && is_active_account u then some u else none
    ])

-- `UserAccount.objects.filter(pk=…).update(…)`: the columns change in the stored row.
unfoldable pub update_rows_of :
    ℕ → (UserAccount → UserAccount) → List UserAccount → List UserAccount
update_rows_of i f [] = []
update_rows_of i f (u ∷ us) = (if u.id == i then f u else u) ∷ update_rows_of i f us

abbrev pub update_account : ℕ → (UserAccount → UserAccount) → AccountTx (Unit {0})
update_account i f = modify λ s. record s { accounts = update_rows_of i f s.accounts }

abbrev pub one_more : UserAccount → UserAccount
one_more u = record u { failed_attempts = suc u.failed_attempts }

abbrev pub locked_row : ℕ → UserAccount → UserAccount
locked_row now u = record u { status = UserStatus.locked; locked_at = some now }

-- Does the count of the account lock it? A deactivated account stays as it is.
abbrev pub locks : Auth → UserAccount → Bool
locks auth u =
    not (user_status_eq u.status UserStatus.deactivated) && leb auth.threshold u.failed_attempts

abbrev pub lock_if : Bool → ℕ → AccountTx (Unit {0})
lock_if true i s = update_account i (locked_row s.now) s
lock_if false i s = (ok tt, s)

-- The counter is a smallint.
unfoldable pub count_failure : Auth → UserAccount → AccountTx (Unit {0})
count_failure auth user = do
  raise_if (leb 32767 user.failed_attempts) data_error
  update_account user.id one_more
  found ← gets λ s. get_row (λ a. a.id) user.id s.accounts
  refreshed ← from_option does_not_exist found
  lock_if (locks auth refreshed) user.id

abbrev pub count_candidate : Auth → Option UserAccount → AccountTx (Unit {0})
count_candidate auth none = pure tt
count_candidate auth (some u) = count_failure auth u

unfoldable pub record_login_failure : Auth → String → AccountTx (Unit {0})
record_login_failure auth email = do
  user ← gets λ s. by_email email s.accounts
  count_candidate auth user

abbrev pub unlocked_row : UserAccount → UserAccount
unlocked_row u = record u { status = UserStatus.active; locked_at = none; failed_attempts = 0 }

-- Is the lock of the account over? Without a stamp it never is.
abbrev pub lock_is_over : Auth → ℕ → UserAccount → Bool
lock_is_over auth now u = elim u.locked_at [
  | none ↦ false
  | some at ↦ not (ltb now (at + auth.lockout_seconds))
]

-- What `reset_login_failures` writes, by the status of the instance in memory.
abbrev pub reset_row : Auth → ℕ → UserAccount → UserAccount → UserAccount
reset_row auth now user row =
    if user_status_eq user.status UserStatus.locked
    then (if lock_is_over auth now user then unlocked_row row else row)
    else record row { failed_attempts = 0 }

unfoldable pub reset_login_failures : Auth → UserAccount → AccountTx UserAccount
reset_login_failures auth user = do
  now ← gets λ s. s.now
  update_account user.id (reset_row auth now user)
  pure (reset_row auth now user user)

-- The pre-check: a lock that is over is cleared before the password is looked at.
abbrev pub clear_if : Bool → Auth → UserAccount → AccountTx (Unit {0})
clear_if true auth u = reset_login_failures auth u >>= λ _. pure tt
clear_if false auth u = pure tt

abbrev pub clear_candidate : Auth → Option UserAccount → AccountTx (Unit {0})
clear_candidate auth none = pure tt
clear_candidate auth (some u) = clear_if (user_status_eq u.status UserStatus.locked) auth u

unfoldable pub clear_lock : Auth → String → AccountTx (Unit {0})
clear_lock auth email = do
  candidate ← gets λ s. by_email email s.accounts
  clear_candidate auth candidate

abbrev pub refuse : Auth → String → AccountTx (Option UserAccount)
refuse auth email = record_login_failure auth email >> pure none

abbrev pub welcome : Bool → Auth → String → UserAccount → AccountTx (Option UserAccount)
welcome true auth email u = reset_login_failures auth u >>= λ v. pure (some v)
welcome false auth email u = refuse auth email

abbrev pub answer_sign_in : Auth → String → Option UserAccount → AccountTx (Option UserAccount)
answer_sign_in auth email none = refuse auth email
answer_sign_in auth email (some u) = welcome (is_active_account u) auth email u

unfoldable pub sign_in : Auth → String → ℕ → AccountTx (Option UserAccount)
sign_in auth email password = do
  user ← gets λ s. auth.authenticate s.accounts email password
  answer_sign_in auth email user

unfoldable pub authenticate : Auth → String → ℕ → AccountTx (Option UserAccount)
authenticate auth email password = do clear_lock auth email; sign_in auth email password

abbrev pub terminate_sessions : ℕ → AccountTx (Unit {0})
terminate_sessions user_id = modify λ s. record s {
  sessions = select (λ x. not (option_eq x.auth_user_id (some user_id))) s.sessions;
}

unfoldable pub lock_account : UserAccount → AccountTx UserAccount
lock_account user = do
  now ← gets λ s. s.now
  update_account user.id (locked_row now)
  terminate_sessions user.id
  pure (locked_row now user)

unfoldable pub deactivate_account : UserAccount → AccountTx UserAccount
deactivate_account user = do
  now ← gets λ s. s.now
  update_account user.id
      λ r. record r { status = UserStatus.deactivated; deactivated_at = some now }
  terminate_sessions user.id
  pure (record user { status = UserStatus.deactivated; deactivated_at = some now })
