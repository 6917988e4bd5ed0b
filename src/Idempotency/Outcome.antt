-- ===== src/Idempotency/Outcome.antt =====
-- What a keyed mutation leaves, by what it returns.
use mathlib.Core.Path.{subst}
use hotel_booking.Base.{◌≡◌, sym, ◌∙◌, ap, none, List, arith, inl, inr, Option-cases}
use hotel_booking.Tx.{Error, ok, err}
use hotel_booking.Tx.Keeps.{Keeps, Result-cases}
use hotel_booking.Model.{Db, Env, Action, Payload, Response, IdempotencyRecord}
use hotel_booking.Idempotency.{
  RecordKey, find_record, replay, run, first_request, create_record, complete_record, complete_all,
}
use hotel_booking.Idempotency.Replay.{started, started-new, run-success}

-- Under a new key, a mutation that returned has run once, between two writes of its own record.
pub run_ok_inv :
    (env : Env) (k : RecordKey) (payload : Payload) (execute : Action Response) (db : Db)
    (response : Response)
    → find_record k db ≡ none
    → (run env k payload execute db).0 ≡ ok response
    → (xs : List IdempotencyRecord) × (ys : List IdempotencyRecord) × ((execute
          (record db { idempotency = xs })).0
        ≡ ok response)
      × (run env k payload execute db
          ≡ (ok response, record (execute (record db { idempotency = xs })).1 { idempotency = ys }))
unfolding run first_request create_record complete_record
run_ok_inv env k payload execute db response new done =
    elim (Result-cases (execute (started env k payload db)).0) [
      | inl (r, fine) ↦
          let same : r ≡ response = ground (arith, new, fine, done) in
          let (xs, begun) = started-new env k payload db new in
          let fine' : (execute (record db { idempotency = xs })).0 ≡ ok response =
            ap (λ d. (execute d).0) (sym begun) ∙ fine ∙ ap ok same in
          let dbx = (execute (record db { idempotency = xs })).1 in
          let whole : execute (started env k payload db) ≡ (ok response, dbx) =
            ap execute begun ∙ ground (arith, fine') in
          (
            xs,
            complete_all k response dbx.idempotency,
            fine',
            run-success env k payload execute db dbx response new whole,
          )
      | inr (e, failed) ↦ ground (arith, new, failed)
    ]

-- Under a new key, a mutation that raised leaves the database as it was.
pub run_err_inv :
    (env : Env) (k : RecordKey) (payload : Payload) (execute : Action Response) (db : Db)
    (e : Error)
    → find_record k db ≡ none
    → (run env k payload execute db).0 ≡ err e
    → (run env k payload execute db).1 ≡ db
unfolding run first_request create_record complete_record replay
run_err_inv env k payload execute db e new failed =
    elim (Result-cases (execute (started env k payload db)).0) [
      | inl (r, fine) ↦ ground (arith, new, fine)
      | inr (x, bad) ↦ ground (arith, new, bad)
    ]

-- A keyed mutation keeps a property of the other tables, under any key, if the mutation keeps it
-- whenever it returns.
pub run-Keeps :
    (P : Db → Type 0) (env : Env) (k : RecordKey) (payload : Payload) (execute : Action Response)
    → ((db : Db) (xs : List IdempotencyRecord) → P db → P (record db { idempotency = xs }))
    → ((db : Db) (response : Response) → P db → (execute db).0 ≡ ok response → P (execute db).1)
    → Keeps P (run env k payload execute)
unfolding run replay first_request
run-Keeps P env k payload execute free keeps db p = elim (Option-cases (find_record k db)) [
  | inr (old, found) ↦
      let same : (run env k payload execute db).1 ≡ db = ground (arith, found) in
      subst P (sym same) p
  | inl new ↦ elim (Result-cases (run env k payload execute db).0) [
    | inl (response, done) ↦
        let (xs, ys, fine, ran) = run_ok_inv env k payload execute db response new done in
        let st = record db { idempotency = xs } in
        let kept = free (execute st).1 ys (keeps st response (free db xs p) fine) in
        subst (λ o. P o.1) (sym ran) kept
    | inr (e, failed) ↦ subst P (sym (run_err_inv env k payload execute db e new failed)) p
  ]
]
