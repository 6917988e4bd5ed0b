-- ===== src/Idempotency/Replay.antt =====
-- What a caller of `IdempotencyService.run` can rely on.
use hotel_booking.Base.{
  ◌≡◌, ◌≢◌, refl, true, none, some, List, [], ◌∷◌, ◌==◌, arith, if◌then◌else◌, find?, decide_refl,
}
use hotel_booking.Tx.{Error, ok, err, integrity_error, does_not_exist, idempotency_key_conflict}
use hotel_booking.Model.{
  Db, Env, Action, Payload, Scope-discrete, Response, IdempotencyRecord, IdempotencyStatus, Key,
  client, line_key, convert_line_key,
}
use hotel_booking.Idempotency.{
  RecordKey, key_eq, matches, find_record, replay, create_record, complete_all, complete_record,
  first_request, run,
}

key_eq_refl : (k : Key) → key_eq k k ≡ true
unfolding key_eq
key_eq_refl (client a) = ground arith
key_eq_refl (line_key k n) = ground (arith, key_eq_refl k)
key_eq_refl (convert_line_key a n) = ground arith

find-complete_all :
    (k : RecordKey) (response : Response) (rs : List IdempotencyRecord)
    → find? (matches k) (complete_all k response rs) ≡ (elim (find? (matches k) rs) [
      | none ↦ none
      | some r ↦ some (record r { response = some response; status = IdempotencyStatus.completed })
    ])
unfolding matches
find-complete_all k response [] = refl
find-complete_all k response (r ∷ rs) = ground (arith, find-complete_all k response rs)

-- The database when the mutation starts: the record stands in it, in progress.
abbrev pub started : Env → RecordKey → Payload → Db → Db
started env k payload db = (create_record k (env.fingerprint payload) db).1

pub started-new :
    (env : Env) (k : RecordKey) (payload : Payload) (db : Db)
    → find_record k db ≡ none
    → (xs : List IdempotencyRecord) × (started env k payload db ≡ record db { idempotency = xs })
unfolding create_record
started-new env k payload db new = (
  record {
    tenant_id = k.tenant_id;
    scope = k.scope;
    idempotency_key = k.key;
    request_hash = env.fingerprint payload;
    response = none;
    status = IdempotencyStatus.in_progress;
  }
      ∷ db.idempotency,
  ground (arith, new),
)

-- A mutation that fails leaves no trace: where the key is new and the mutation raises anything but
-- `IntegrityError`, `run` raises the same and the database is as it was.
pub run-failure :
    (env : Env) (k : RecordKey) (payload : Payload) (execute : Action Response) (db : Db)
    (e : Error)
    → find_record k db ≡ none
    → (execute (started env k payload db)).0 ≡ err e
    → e ≢ integrity_error
    → run env k payload execute db ≡ (err e, db)
unfolding run first_request create_record
run-failure env k payload execute db e new fails other = ground (arith, new)

pub run-success :
    (env : Env) (k : RecordKey) (payload : Payload) (execute : Action Response) (db db' : Db)
    (response : Response)
    → find_record k db ≡ none
    → execute (started env k payload db) ≡ (ok response, db')
    → run env k payload execute db
      ≡ (ok response, record db' { idempotency = complete_all k response db'.idempotency })
unfolding run first_request create_record complete_record
run-success env k payload execute db db' response new done = ground (arith, new, done)

-- An `IntegrityError` that the mutation itself raises under a new key is not passed on: the
-- handler takes it for a lost race, finds no record and raises `DoesNotExist`; the database is as
-- it was.
pub run-integrity_error :
    (env : Env) (k : RecordKey) (payload : Payload) (execute : Action Response) (db : Db)
    → find_record k db ≡ none
    → (execute (started env k payload db)).0 ≡ err integrity_error
    → run env k payload execute db ≡ (err does_not_exist, db)
unfolding run first_request create_record
run-integrity_error env k payload execute db new fails = ground (arith, new)

-- Exactly once: where the key is new, and the mutation succeeds and leaves the key's own record
-- alone, `run` returns the mutation's response; afterwards every request under the key, with
-- whatever mutation, changes nothing: it returns that response if its payload has the same
-- fingerprint, and raises `IdempotencyKeyConflict` if not.
pub run_once :
    (env : Env) (k : RecordKey) (payload : Payload) (execute : Action Response) (db db' : Db)
    (response : Response)
    → find_record k db ≡ none
    → execute (started env k payload db) ≡ (ok response, db')
    → find_record k db' ≡ find_record k (started env k payload db)
    → let out = run env k payload execute db in
      (out.0 ≡ ok response)
      × ((payload' : Payload) (execute' : Action Response)
          → run env k payload' execute' out.1 ≡ (
              if env.fingerprint payload == env.fingerprint payload'
              then (ok response, out.1)
              else (err idempotency_key_conflict, out.1)))
unfolding run first_request create_record complete_record replay matches
run_once env k payload execute db db' response new done kept = (
  ground (arith, new, done),
  λ payload' execute'. ground (
    arith,
    new,
    done,
    kept,
    key_eq_refl k.key,
    decide_refl Scope-discrete k.scope,
    find-complete_all k response db'.idempotency,
  ),
)
