-- ===== src/Idempotency.antt =====
-- apps/shared/services/idempotency.py: a mutation runs once for each (tenant, scope, key), and its
-- stored response answers every repetition.
pub mod Outcome
pub mod Replay
use hotel_booking.Base.{
  ℕ, Bool, true, false, ◌&&◌, not, Option, none, some, List, [], ◌∷◌, ◌==◌, if◌then◌else◌, find?,
  decide,
}
use hotel_booking.Tx.{
  Error, Result, ok, err, integrity_error, does_not_exist, key_error, idempotency_in_progress,
  idempotency_key_conflict, pure, raise, raise_if, gets, modify, from_option, atomic, ◌>>=◌, ◌>>◌,
}
use hotel_booking.Model.{
  Db, Env, Action, Payload, Scope, Scope-discrete, Key, client, line_key, convert_line_key,
  Response, IdempotencyRecord, IdempotencyStatus,
}

unfoldable pub key_eq : Key → Key → Bool
key_eq (client a) (client b) = a == b
key_eq (line_key a n) (line_key b m) = key_eq a b && n == m
key_eq (convert_line_key a n) (convert_line_key b m) = a == b && n == m
key_eq _ _ = false

abbrev pub scope_eq : Scope → Scope → Bool
scope_eq a b = decide (Scope-discrete a b)

-- The unique key of a record.
pub record RecordKey : Type 0 where
  pub tenant_id : ℕ
  pub scope : Scope
  pub key : Key

unfoldable pub matches : RecordKey → IdempotencyRecord → Bool
matches k r =
    r.tenant_id == k.tenant_id && (scope_eq r.scope k.scope && key_eq r.idempotency_key k.key)

abbrev pub find_record : RecordKey → Db → Option IdempotencyRecord
find_record k db = find? (matches k) db.idempotency

abbrev pub is_in_progress : IdempotencyStatus → Bool
is_in_progress IdempotencyStatus.in_progress = true
is_in_progress IdempotencyStatus.completed = false

-- `_replay`; a completed record has a response (it is stored with the status).
unfoldable pub replay : IdempotencyRecord → ℕ → Action Response
replay record' request_hash = do
  raise_if (is_in_progress record'.status) idempotency_in_progress
  raise_if (not (record'.request_hash == request_hash)) idempotency_key_conflict
  from_option key_error record'.response

-- `IdempotencyRecord.objects.create(…, status=IN_PROGRESS)` under the unique constraint
unfoldable pub create_record : RecordKey → ℕ → Action (Unit {0})
create_record k request_hash db = elim (find_record k db) [
  | some _ ↦ (err integrity_error, db)
  | none ↦ (
    ok tt,
    record db {
      idempotency =
          record {
            tenant_id = k.tenant_id;
            scope = k.scope;
            idempotency_key = k.key;
            request_hash = request_hash;
            response = none;
            status = IdempotencyStatus.in_progress;
          }
          ∷ db.idempotency;
    },
  )
]

abbrev pub complete_all : RecordKey → Response → List IdempotencyRecord → List IdempotencyRecord
complete_all k response [] = []
complete_all k response (r ∷ rs) =
    (if matches k r
      then record r { response = some response; status = IdempotencyStatus.completed }
      else r)
    ∷ complete_all k response rs

-- `record.save(update_fields=["response", "status", …])`
unfoldable pub complete_record : RecordKey → Response → Action (Unit {0})
complete_record k response db =
    (ok tt, record db { idempotency = complete_all k response db.idempotency })

abbrev pub is_integrity_error : Error → Bool
is_integrity_error integrity_error = true
is_integrity_error _ = false

unfoldable pub first_request : RecordKey → ℕ → Action Response → Action Response
first_request k request_hash execute =
    atomic
      do create_record k request_hash; response ← execute; complete_record k response; pure response

-- The handler `except IntegrityError`: the record is read again and replayed.
abbrev pub after_integrity_error : RecordKey → ℕ → Action Response
after_integrity_error k request_hash = do
  found ← gets (find_record k)
  existing ← from_option does_not_exist found
  replay existing request_hash

unfoldable pub run : Env → RecordKey → Payload → Action Response → Action Response
run env k request_payload execute db =
    let request_hash = env.fingerprint request_payload in
    elim (find_record k db) [
      | some existing ↦ replay existing request_hash db
      | none ↦
          let (r, db') = first_request k request_hash execute db in
          elim r [
            | ok response ↦ (ok response, db')
            | err e ↦
                if is_integrity_error e
                then after_integrity_error k request_hash db'
                else (err e, db')
          ]
    ]
