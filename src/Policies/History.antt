-- ===== src/Policies/History.antt =====
-- Any sequence of calls of `PolicyService` on the table of policies.
use hotel_booking.Base.{All, ℕ, ◌≡◌, ◌≢◌, refl, Option, some, List, [], ◌∷◌, inl}
use hotel_booking.Model.{Db, Policy, PolicyStatus, PolicyType, Rules}
use hotel_booking.Policies.{
  create_draft, PolicyUpdate, update_draft, publish_draft, publish, retire_published, retire,
  resolve,
}
use hotel_booking.Policies.Writes.{SparesKey, IsReleased, IsKeptIn}
use hotel_booking.Policies.Calls.{
  create_draft-Keeps, update_draft-Keeps, publish_draft-Keeps, retire_published-Keeps,
  resolve-Keeps, checked-Keeps,
}
use hotel_booking.Table.Numbered.{IsNumbered}
use hotel_booking.Policies.Frozen.{policy_row, Retained}

-- A call with its arguments.
pub data PolicyCall : Type 0 where
  drafts : ℕ → PolicyType → Rules → ℕ → Option ℕ → Option ℕ → PolicyCall
  updates : ℕ → List PolicyUpdate → PolicyCall
  publishes : ℕ → PolicyCall
  retires : ℕ → PolicyCall
  resolves : ℕ → ℕ → PolicyType → ℕ → Option ℕ → PolicyCall

-- What a call leaves, whether it returns or raises.
unfoldable pub after_policy_call : PolicyCall → Db → Db
after_policy_call (drafts tenant_id kind rules from to scope) db =
    (create_draft tenant_id kind rules from to scope db).1
after_policy_call (updates i fields) db = (update_draft i fields db).1
after_policy_call (publishes i) db = (publish i db).1
after_policy_call (retires i) db = (retire i db).1
after_policy_call (resolves moment tenant_id kind date scope) db =
    (resolve moment tenant_id kind date scope db).1

unfoldable pub after_policy_calls : List PolicyCall → Db → Db
after_policy_calls [] db = db
after_policy_calls (c ∷ calls) db = after_policy_calls calls (after_policy_call c db)

-- No update of the calls sets the primary key of a policy.
abbrev pub SparesKeyIn : PolicyCall → Type 0
SparesKeyIn (updates i fields) = SparesKey fields
SparesKeyIn _ = Unit

module _ (p : Policy) (released : IsReleased p) where
  abbrev Kept : Db → Type 0
  Kept = IsKeptIn p

  after_policy_call-Kept :
      (c : PolicyCall) (db : Db) → SparesKeyIn c → Kept db → Kept (after_policy_call c db)
  unfolding after_policy_call publish retire
  after_policy_call-Kept (drafts tenant_id kind rules from to scope) db spared h =
      create_draft-Keeps p released tenant_id kind rules from to scope db h
  after_policy_call-Kept (updates i fields) db spared h =
      update_draft-Keeps p released i fields spared db h
  after_policy_call-Kept (publishes i) db spared h =
      checked-Keeps p released i PolicyStatus.draft (publish_draft i)
        (publish_draft-Keeps p released i) db h
  after_policy_call-Kept (retires i) db spared h =
      checked-Keeps p released i PolicyStatus.published (retire_published i)
        (retire_published-Keeps p released i) db h
  after_policy_call-Kept (resolves moment tenant_id kind date scope) db spared h =
      resolve-Keeps p released moment tenant_id kind date scope db h

  after_policy_calls-Kept :
      (calls : List PolicyCall) (db : Db)
      → All SparesKeyIn calls
      → Kept db
      → Kept (after_policy_calls calls db)
  unfolding after_policy_calls
  after_policy_calls-Kept [] db spared h = h
  after_policy_calls-Kept (c ∷ calls) db spared h =
      after_policy_calls-Kept calls (after_policy_call c db) spared.1
        (after_policy_call-Kept c db spared.0 h)

-- A policy with a version that is no draft stays in the table through any calls of the service,
-- whether they return or raise: it is the same row, or it was published and is the same but for the
-- status `retired` and an end date where it had none. No call of update_draft among them sets the
-- primary key, and before the calls the keys are unique and below the sequence's next one.
pub after_policy_calls-Retained :
    (p : Policy) (v : ℕ) (calls : List PolicyCall) (db : Db)
    → All SparesKeyIn calls
    → IsNumbered (λ r. r.id) db.next_id db.policies
    → policy_row p.id db.policies ≡ some p
    → p.version ≡ some v
    → p.status ≢ PolicyStatus.draft
    → (q : Policy) × (policy_row p.id (after_policy_calls calls db).policies ≡ some q)
      × Retained p q
after_policy_calls-Retained p v calls db spared numbered at versioned left =
    (after_policy_calls-Kept p ((v, versioned), left) calls db spared
      (numbered, (p, at, inl refl))).1
