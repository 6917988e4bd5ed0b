-- ===== src/Policies/Calls.antt =====
-- What each call of `PolicyService` keeps of a released policy.
use mathlib.Core.Path.{subst}
use hotel_booking.Base.{
  ℕ, suc, ◌<◌, ◌≡◌, refl, sym, ap, ◌∙◌, Bool, true, false, ◌&&◌, not, Option, none, some, List, ◌∷◌,
  select, find?, arith, ◌==◌, inl, inr, decide_iff,
}
use hotel_booking.Tx.{
  validation_error, integrity_error, does_not_exist, no_policy_found, invalid_state_transition,
  pure, raise_if, gets, modify, from_option, atomic, ◌>>=◌, ◌>>◌,
}
use hotel_booking.Tx.Keeps.{Keeps, then-Keeps, bind-Keeps, atomic-Keeps, raise_if-Keeps}
use hotel_booking.Table.Lookup.{get_row-All}
use hotel_booking.Policies.Answers.{answer_of}
use hotel_booking.Policies.Resolution.{evaluation}
use hotel_booking.Model.{
  Db, Action, new_id, today, Policy, PolicyStatus, PolicyStatus-discrete, PolicyType, Rules,
  PolicyEvaluationLog,
}
use hotel_booking.Policies.{
  status_eq, dates_fit, version_positive, version_fits, full_clean, insert_policy, save_policy,
  get_policy, is_unversioned, create_draft, replace_draft, is_restricted, PolicyUpdate, set_fields,
  update_draft, max_version, has_version, published_copy, publish_draft, retired_copy,
  retire_published, log_evaluation, resolve, is_evaluated, is_logged, is_matching, first_by_version,
}
use hotel_booking.Policies.Writes.{
  save_policy-cases, SparesKey, set_fields-id, guard-Keeps, option-Keeps, found-Keeps, IsReleased,
  IsKeptIn, kept-version, draft-other, insert_policy-Keeps,
}
use hotel_booking.Table.Numbered.{found-row}
use hotel_booking.Policies.Frozen.{
  IsRetiredFrom, retired_copy-IsRetiredFrom, policy_row, Retained, select-IsKept, put-IsKept,
}

module _ (p : Policy) (released : IsReleased p) where
  abbrev Kept : Db → Type 0
  Kept = IsKeptIn p

  replace_draft-Keeps :
      (tenant_id : ℕ) (kind : PolicyType) (rules : Rules) (from : ℕ) (to scope : Option ℕ)
      → Keeps Kept (replace_draft tenant_id kind rules from to scope)
  unfolding replace_draft
  replace_draft-Keeps tenant_id kind rules from to scope db h =
      let f : Policy → Bool = λ r. not (is_unversioned tenant_id kind r) in
      let fine : (q : Policy) → policy_row p.id db.policies ≡ some q → Retained p q → f q ≡ true =
        λ q _ kept. ground (arith, kept-version p released q kept) in
      let db1 : Db = record db { policies = select f db.policies } in
      let h1 : Kept db1 = select-IsKept p db.next_id f db.policies fine h in
      let row : Policy = record {
        id = db.next_id;
        tenant_id = tenant_id;
        policy_type = kind;
        version = none;
        status = PolicyStatus.draft;
        effective_from = from;
        effective_to = to;
        rules = some rules;
        property_id = scope;
        published_at = none;
      } in
      guard-Keeps Kept (not (version_fits row && (dates_fit row && version_positive row)))
        validation_error (new_id >>= λ _. insert_policy row >> pure row) db1 h1
        (then-Keeps Kept (λ _. pure row)
          (insert_policy row (record db1 { next_id = suc db.next_id })).0
          (insert_policy row (record db1 { next_id = suc db.next_id })).1 (λ _ s k. k)
          (insert_policy-Keeps p released row db1 refl h1))

  pub create_draft-Keeps :
      (tenant_id : ℕ) (kind : PolicyType) (rules : Rules) (from : ℕ) (to scope : Option ℕ)
      → Keeps Kept (create_draft tenant_id kind rules from to scope)
  unfolding create_draft
  create_draft-Keeps tenant_id kind rules from to scope db h =
      guard-Keeps Kept (is_restricted tenant_id kind db.policy_evaluation_log db.policies)
        integrity_error (replace_draft tenant_id kind rules from to scope) db h
        (replace_draft-Keeps tenant_id kind rules from to scope db h)

  pub update_draft-Keeps :
      (i : ℕ) (fields : List PolicyUpdate) → SparesKey fields → Keeps Kept (update_draft i fields)
  unfolding update_draft
  update_draft-Keeps i fields spared db h =
      found-Keeps Kept PolicyStatus.draft i
        (λ d.
          full_clean (set_fields fields d)
          >> (save_policy (set_fields fields d) >> pure (set_fields fields d)))
        db h
        λ d found.
          let row : Policy = set_fields fields d in
          let (other, at) = draft-other p released i d db h found in
          let one : row.id ≡ d.id = set_fields-id fields d spared in
          let here : policy_row row.id db.policies ≡ some d =
            subst (λ j. policy_row j db.policies ≡ some d) (sym one) at in
          let away : (q : Policy)
              → policy_row p.id db.policies ≡ some q
              → row.id ≡ p.id
              → Retained p q
              → Retained p row =
            λ q _ hit _. ground (arith, sym one ∙ hit, other) in
          let saved : Kept (save_policy row db).1 = elim (save_policy-cases row d db here) [
            | inl same ↦ subst Kept (sym same) h
            | inr put ↦ subst Kept (sym put) (put-IsKept p db.next_id d row db.policies here h away)
          ] in
          guard-Keeps Kept (not (version_fits row && (dates_fit row && version_positive row)))
            validation_error (save_policy row >> pure row) db h
            (then-Keeps Kept (λ _. pure row) (save_policy row db).0 (save_policy row db).1
              (λ _ s k. k) saved)

  -- What `publish_draft` does once it has the draft.
  abbrev discard : Policy → ℕ → Action Policy
  discard d version = gets (λ db. is_evaluated d.id db.policy_evaluation_log) >>= λ restricted.
      raise_if restricted integrity_error
      >> (modify (λ db. record db { policies = select (λ r. not (r.id == d.id)) db.policies })
          >> (gets (λ db. find? (has_version d.tenant_id d.policy_type version) db.policies)
              >>= from_option does_not_exist))

  discard-Keeps :
      (d : Policy) (version : ℕ) → (d.id == p.id) ≡ false → Keeps Kept (discard d version)
  discard-Keeps d version other db h =
      let f : Policy → Bool = λ r. not (r.id == d.id) in
      let fine : (q : Policy) → policy_row p.id db.policies ≡ some q → Retained p q → f q ≡ true =
        λ q at _.
          let (_, one) =
            get_row-All (λ r. r.id) (λ r. r.id < db.next_id) p.id db.policies q h.0.1 at in
          ground (arith, one, other) in
      let db1 : Db = record db { policies = select f db.policies } in
      guard-Keeps Kept (is_evaluated d.id db.policy_evaluation_log) integrity_error
        (modify (λ db. record db { policies = select (λ r. not (r.id == d.id)) db.policies })
          >> (gets (λ db. find? (has_version d.tenant_id d.policy_type version) db.policies)
              >>= from_option does_not_exist))
        db h
        (option-Keeps Kept does_not_exist
          (find? (has_version d.tenant_id d.policy_type version) db1.policies) db1
          (select-IsKept p db.next_id f db.policies fine h))

  pub publish_draft-Keeps : (i : ℕ) → Keeps Kept (publish_draft i)
  unfolding publish_draft
  publish_draft-Keeps i db h =
      found-Keeps Kept PolicyStatus.draft i
        (λ d. gets (λ s. suc (max_version d.tenant_id d.policy_type s.policies)) >>= λ version.
          new_id >>= λ j. gets (λ s. s.now) >>= λ now.
          insert_policy (published_copy j version now d) >> discard d version)
        db h
        λ d found.
          let version : ℕ = suc (max_version d.tenant_id d.policy_type db.policies) in
          let row : Policy = published_copy db.next_id version db.now d in
          let (other, _) = draft-other p released i d db h found in
          then-Keeps Kept (λ _. discard d version)
            (insert_policy row (record db { next_id = suc db.next_id })).0
            (insert_policy row (record db { next_id = suc db.next_id })).1
            (λ _. discard-Keeps d version other) (insert_policy-Keeps p released row db refl h)

  retired-Retained :
      (day : ℕ) (d : Policy)
      → d.status ≡ PolicyStatus.published
      → Retained p d
      → Retained p (retired_copy day d)
  retired-Retained day d is_published (inl same) = inr (
      subst (λ r. IsRetiredFrom r (retired_copy day d)) same
        (retired_copy-IsRetiredFrom day d is_published))
  retired-Retained day d is_published (inr (_, same, _)) =
      ground (arith, sym (ap (λ r. r.status) same) ∙ is_published)

  pub retire_published-Keeps : (i : ℕ) → Keeps Kept (retire_published i)
  unfolding retire_published
  retire_published-Keeps i db h =
      found-Keeps Kept PolicyStatus.published i
        (λ d. gets today >>= λ day. save_policy (retired_copy day d) >> pure (retired_copy day d))
        db h
        λ d found.
          let row : Policy = retired_copy (today db) d in
          let (at, is_published, one) =
            found-row (λ r. r.id) (λ r. status_eq r.status PolicyStatus.published) i db.policies d
              h.0.0 found in
          let here : policy_row d.id db.policies ≡ some d =
            subst (λ j. policy_row j db.policies ≡ some d) (sym one) at in
          let retired : (q : Policy)
              → policy_row p.id db.policies ≡ some q
              → row.id ≡ p.id
              → Retained p q
              → Retained p row =
            λ q q-at hit kept.
              let there : policy_row p.id db.policies ≡ some d =
                subst (λ j. policy_row j db.policies ≡ some d) hit here in
              let same : q ≡ d = ground (arith, sym q-at ∙ there) in
              retired-Retained (today db) d
                ((decide_iff PolicyStatus-discrete d.status PolicyStatus.published).0 is_published)
                (subst (Retained p) same kept) in
          let saved : Kept (save_policy row db).1 = elim (save_policy-cases row d db here) [
            | inl same ↦ subst Kept (sym same) h
            | inr put ↦
                subst Kept (sym put) (put-IsKept p db.next_id d row db.policies here h retired)
          ] in
          then-Keeps Kept (λ _. pure row) (save_policy row db).0 (save_policy row db).1 (λ _ s k. k)
            saved

  log_evaluation-Keeps : (row : PolicyEvaluationLog) → Keeps Kept (log_evaluation row)
  unfolding log_evaluation
  log_evaluation-Keeps row db h =
      guard-Keeps Kept (is_logged row.evaluated_at row.id db.policy_evaluation_log) integrity_error
        (modify λ s. record s { policy_evaluation_log = row ∷ s.policy_evaluation_log }) db h h

  pub resolve-Keeps :
      (moment tenant_id : ℕ) (kind : PolicyType) (date : ℕ) (scope : Option ℕ)
      → Keeps Kept (resolve moment tenant_id kind date scope)
  unfolding resolve
  resolve-Keeps moment tenant_id kind date scope db h =
      bind-Keeps Kept
        (from_option no_policy_found
          (first_by_version (select (is_matching tenant_id kind date scope) db.policies)))
        (λ d.
          log_evaluation (evaluation moment tenant_id date scope d) >> pure (d, answer_of d.rules))
        (option-Keeps Kept no_policy_found
          (first_by_version (select (is_matching tenant_id kind date scope) db.policies)))
        (λ d.
          bind-Keeps Kept (log_evaluation (evaluation moment tenant_id date scope d))
            (λ _. pure (d, answer_of d.rules))
            (log_evaluation-Keeps (evaluation moment tenant_id date scope d)) (λ _ s k. k))
        db h

  get_policy-Keeps : (i : ℕ) → Keeps Kept (get_policy i)
  get_policy-Keeps i db h = option-Keeps Kept does_not_exist (policy_row i db.policies) db h

  -- The frame of `publish` and `retire`.
  pub checked-Keeps :
      (i : ℕ) (status : PolicyStatus) (m : Action Policy)
      → Keeps Kept m
      → Keeps Kept (
          get_policy i >>= λ c.
          raise_if (not (status_eq c.status status)) invalid_state_transition >> atomic m)
  checked-Keeps i status m km =
      bind-Keeps Kept (get_policy i)
        (λ c. raise_if (not (status_eq c.status status)) invalid_state_transition >> atomic m)
        (get_policy-Keeps i)
        λ c.
          bind-Keeps Kept (raise_if (not (status_eq c.status status)) invalid_state_transition)
            (λ _. atomic m)
            (raise_if-Keeps Kept (not (status_eq c.status status)) invalid_state_transition)
            (λ _. atomic-Keeps Kept m km)
