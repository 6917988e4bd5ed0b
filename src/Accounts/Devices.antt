-- ===== src/Accounts/Devices.antt =====
-- What each call of `MfaService` keeps of a user whose role requires a second factor.
use mathlib.Core.Path.{subst}
use Prim.Native.String.{String}
use hotel_booking.Base.{
  ℕ, suc, ◌≡◌, refl, sym, Bool, true, false, ◌&&◌, not, Option, none, some, ◌∷◌, ◌==◌, decide,
  find?, arith, inl, inr, Bool-cases, Option-cases,
}
use hotel_booking.Results.{
  tenant_context_missing, mfa_error, mfa_device_removed, mfa_device_unverified, mfa_invalid_code,
  mfa_last_device, does_not_exist,
}
use hotel_booking.Tx.{Error, pure, raise_if, gets, from_option, atomic, ◌>>=◌, ◌>>◌}
use hotel_booking.Tx.Keeps.{Keeps, atomic-Keeps}
use hotel_booking.Table.{get_row, put_row}
use hotel_booking.Table.Numbered.{IsNumbered, insert-IsNumbered, put-IsNumbered, found-row}
use hotel_booking.Accounts.Directory.{
  Directory, AccountTx, MfaDevice, MfaDeviceType, MfaDeviceType-discrete, log_account, any,
  mfa_enrolled, mfa_removed,
}
use hotel_booking.Accounts.Mfa.{
  CodeCheck, is_set, is_live, same_name, text_eq, holds_mfa_required_role, require_current_tenant,
  create_device, enroll, get_device, save_device, mark_verified, prove, verify_initial, has_other,
  remove_live, remove_unless, remove_device,
}
use hotel_booking.Accounts.Counting.{device_row, any-put_row, any-other}

module _ (u : ℕ) where
  -- The user's role requires a second factor, and sign-in asks for one.
  abbrev pub Secured : Directory → Type 0
  Secured s =
      IsNumbered (λ d. d.id) s.next_id s.mfa_devices
      × (holds_mfa_required_role u s ≡ true)
      × (any (is_live u) s.mfa_devices ≡ true)

  guard-Secured :
      {A : Type 0} (b : Bool) (e : Error) (k : AccountTx A) (s : Directory)
      → Secured s
      → (b ≡ false → Secured (k s).1)
      → Secured ((raise_if b e >> k) s).1
  guard-Secured true e k s h g = h
  guard-Secured false e k s h g = g refl

  option-Secured :
      {A B : Type 0} (e : Error) (o : Option B) (k : B → AccountTx A) (s : Directory)
      → Secured s
      → ((b : B) → o ≡ some b → Secured (k b s).1)
      → Secured ((from_option e o >>= k) s).1
  option-Secured e none k s h g = h
  option-Secured e (some b) k s h g = g b refl

  create_device-Keeps :
      (tenant_id user_id : ℕ) (kind : MfaDeviceType) (name : String) (key : ℕ)
      → Keeps Secured (create_device tenant_id user_id kind name key)
  unfolding create_device any
  create_device-Keeps tenant_id user_id kind name key s h =
      let device : MfaDevice = record {
        id = s.next_id;
        user_account_id = user_id;
        device_type = kind;
        name = name;
        secret_key = key;
        verified_at = none;
        removed_at = none;
      } in
      let made : Directory = record s {
        next_id = suc s.next_id;
        mfa_devices = device ∷ s.mfa_devices;
        audit =
            record {
              tenant_id = tenant_id;
              entity_id = user_id;
              action = mfa_enrolled;
              actor = user_id;
            }
            ∷ s.audit;
      } in
      elim (Bool-cases (any (same_name user_id kind name) s.mfa_devices)) [
        | inl twice ↦
            let run : (create_device tenant_id user_id kind name key s).1 ≡ s =
              ground (arith, twice) in
            subst Secured (sym run) h
        | inr once ↦
            let run : (create_device tenant_id user_id kind name key s).1 ≡ made =
              ground (arith, once) in
            let live : any (is_live u) (device ∷ s.mfa_devices) ≡ true = ground (arith, h.2) in
            subst Secured (sym run)
              (insert-IsNumbered (λ d. d.id) s.next_id device s.mfa_devices refl h.0, h.1, live)
      ]

  put-Secured :
      (i : ℕ) (d row : MfaDevice) (s : Directory)
      → row.id ≡ i
      → device_row i s.mfa_devices ≡ some d
      → any (λ x. is_live u x && not (x.id == i)) s.mfa_devices ≡ true
      → Secured s
      → Secured (record s { mfa_devices = put_row (λ x. x.id) row s.mfa_devices })
  put-Secured i d row s one at others h =
      let here : device_row row.id s.mfa_devices ≡ some d =
        subst (λ j. device_row j s.mfa_devices ≡ some d) (sym one) at in
      (
        put-IsNumbered (λ x. x.id) s.next_id d row s.mfa_devices here h.0,
        h.1,
        any-put_row (is_live u) row s.mfa_devices (
            subst (λ j. any (λ x. is_live u x && not (x.id == j)) s.mfa_devices ≡ true) (sym one)
              others),
      )

  pub enroll-Keeps :
      (tenant : Option ℕ) (user_id : ℕ) (kind : MfaDeviceType) (name : String) (key : ℕ)
      → Keeps Secured (enroll tenant user_id kind name key)
  unfolding enroll
  enroll-Keeps tenant user_id kind name key s h =
      option-Secured tenant_context_missing tenant
        (λ t.
          raise_if (not (decide (MfaDeviceType-discrete kind MfaDeviceType.totp))) mfa_error
          >> (raise_if (text_eq name "") mfa_error
              >> atomic (create_device t user_id kind name key)))
        s h
        λ t _.
          guard-Secured (not (decide (MfaDeviceType-discrete kind MfaDeviceType.totp))) mfa_error
            (raise_if (text_eq name "") mfa_error >> atomic (create_device t user_id kind name key))
            s h
            λ _.
              guard-Secured (text_eq name "") mfa_error
                (atomic (create_device t user_id kind name key)) s h
                λ _.
                  atomic-Keeps Secured (create_device t user_id kind name key)
                    (create_device-Keeps t user_id kind name key) s h

  -- What a call goes on with when it has found the user's device.
  device-Secured :
      {A : Type 0} (user_id i : ℕ) (k : MfaDevice → AccountTx A) (s : Directory)
      → Secured s
      → ((d : MfaDevice)
          → device_row i s.mfa_devices ≡ some d
          → (d.user_account_id ≡ user_id) × (d.id ≡ i)
          → Secured (k d s).1)
      → Secured ((get_device user_id i >>= k) s).1
  device-Secured user_id i k s h next =
      let f : MfaDevice → Bool = λ d. d.user_account_id == user_id in
      elim (Option-cases (find? (λ d. d.id == i && f d) s.mfa_devices)) [
        | inl nothing ↦
            let run : ((get_device user_id i >>= k) s).1 ≡ s = ground (arith, nothing) in
            subst Secured (sym run) h
        | inr (d, found) ↦
            let run : (get_device user_id i >>= k) s ≡ k d s = ground (arith, found) in
            let (at, own, one) = found-row (λ x. x.id) f i s.mfa_devices d h.0.0 found in
            subst (λ o. Secured o.1) (sym run) (next d at (ground (arith, own), one))
      ]

  -- A device that is not proved does not count.
  unproved : (d : MfaDevice) → d.verified_at ≡ none → is_live u d ≡ false
  unproved d h = ground (arith, h)

  prove-Secured :
      (tenant : Option ℕ) (check : CodeCheck) (tenant_id user_id i code : ℕ) (d : MfaDevice)
      (s : Directory)
      → device_row i s.mfa_devices ≡ some d
      → d.id ≡ i
      → Secured s
      → Secured (prove d.verified_at check tenant_id user_id code d s).1
  unfolding mark_verified
  prove-Secured tenant check tenant_id user_id i code d s at one h =
      elim (Option-cases d.verified_at) [
        | inr (t, proved) ↦
            subst (λ o. Secured (prove o check tenant_id user_id code d s).1) (sym proved) h
        | inl open' ↦
            let others = any-other (is_live u) i s.mfa_devices d h.0.0 at (unproved d open') h.2 in
            subst (λ o. Secured (prove o check tenant_id user_id code d s).1) (sym open')
              (guard-Secured (not (check d.secret_key code s.now)) mfa_invalid_code
                (atomic (mark_verified tenant_id user_id d)) s h
                λ _. put-Secured i d (record d { verified_at = some s.now }) s one at others h)
      ]

  pub verify_initial-Keeps :
      (check : CodeCheck) (tenant : Option ℕ) (user_id i code : ℕ)
      → Keeps Secured (verify_initial check tenant user_id i code)
  unfolding verify_initial
  verify_initial-Keeps check tenant user_id i code s h =
      option-Secured tenant_context_missing tenant
        (λ t. get_device user_id i >>= λ d.
          raise_if (is_set d.removed_at) mfa_device_removed
          >> prove d.verified_at check t user_id code d)
        s h
        λ t _.
          device-Secured user_id i
            (λ d.
              raise_if (is_set d.removed_at) mfa_device_removed
              >> prove d.verified_at check t user_id code d)
            s h
            λ d at own.
              guard-Secured (is_set d.removed_at) mfa_device_removed
                (prove d.verified_at check t user_id code d) s h
                λ _. prove-Secured tenant check t user_id i code d s at own.1 h

  -- Unless it is the last one, another device counts; and another user's device never does.
  others-live :
      (user_id i : ℕ) (d : MfaDevice) (s : Directory)
      → device_row i s.mfa_devices ≡ some d
      → (d.user_account_id ≡ user_id) × (d.id ≡ i)
      → (not (has_other user_id d.id s) && holds_mfa_required_role user_id s) ≡ false
      → Secured s
      → any (λ x. is_live u x && not (x.id == i)) s.mfa_devices ≡ true
  others-live user_id i d s at (own, one) free h = elim (Bool-cases (user_id == u)) [
    | inl hit ↦
        let same : user_id ≡ u = ground (arith, hit) in
        let free' : (not (has_other u d.id s) && holds_mfa_required_role u s) ≡ false =
          subst (λ v. (not (has_other v d.id s) && holds_mfa_required_role v s) ≡ false) same
            free in
        let other : has_other u d.id s ≡ true = ground (arith, free', h.1) in
        subst (λ j. has_other u j s ≡ true) one other
    | inr miss ↦ any-other (is_live u) i s.mfa_devices d h.0.0 at (ground (arith, own, miss)) h.2
  ]

  remove_live-Secured :
      (tenant : Option ℕ) (user_id i : ℕ) (d : MfaDevice) (s : Directory)
      → device_row i s.mfa_devices ≡ some d
      → (d.user_account_id ≡ user_id) × (d.id ≡ i)
      → Secured s
      → Secured (remove_live tenant user_id d s).1
  unfolding remove_live
  remove_live-Secured tenant user_id i d s at own h =
      let row : MfaDevice = record d { removed_at = some s.now } in
      let leave : AccountTx MfaDevice = gets (λ s. s.now) >>= λ now.
      save_device (record d { removed_at = some now })
      >> (require_current_tenant tenant >>= λ t.
          log_account t user_id mfa_removed user_id >> pure (record d { removed_at = some now })) in
      guard-Secured (not (is_set d.verified_at)) mfa_device_unverified
        (gets (λ s. not (has_other user_id d.id s) && holds_mfa_required_role user_id s) >>= λ last.
          raise_if last mfa_last_device >> leave)
        s h
        λ _.
          guard-Secured (not (has_other user_id d.id s) && holds_mfa_required_role user_id s)
            mfa_last_device leave s h
            λ free.
              let s' : Directory = record s {
                mfa_devices = put_row (λ x. x.id) row s.mfa_devices;
              } in
              let h' : Secured s' =
                put-Secured i d row s own.1 at (others-live user_id i d s at own free h) h in
              option-Secured tenant_context_missing tenant
                (λ t. log_account t user_id mfa_removed user_id >> pure row) s' h' (λ t _. h')

  remove_unless-Secured :
      (b : Bool) (tenant : Option ℕ) (user_id i : ℕ) (d : MfaDevice) (s : Directory)
      → device_row i s.mfa_devices ≡ some d
      → (d.user_account_id ≡ user_id) × (d.id ≡ i)
      → Secured s
      → Secured (remove_unless b tenant user_id d s).1
  remove_unless-Secured true tenant user_id i d s at own h = h
  remove_unless-Secured false tenant user_id i d s at own h =
      remove_live-Secured tenant user_id i d s at own h

  pub remove_device-Keeps :
      (tenant : Option ℕ) (user_id i : ℕ) → Keeps Secured (remove_device tenant user_id i)
  unfolding remove_device
  remove_device-Keeps tenant user_id i s h =
      option-Secured does_not_exist (get_row (λ a. a.id) user_id s.accounts)
        (λ _. get_device user_id i >>= λ d. remove_unless (is_set d.removed_at) tenant user_id d) s
        h
        λ _ _.
          device-Secured user_id i (λ d. remove_unless (is_set d.removed_at) tenant user_id d) s h
            λ d at own. remove_unless-Secured (is_set d.removed_at) tenant user_id i d s at own h
