-- ===== src/Allocation/Locks.antt =====
-- What the locked reads of the candidates find.
use mathlib.Core.Path.{subst}
use hotel_booking.Base.{
  ℕ, ◌≡◌, sym, ◌∙◌, ap, true, some, List, [], ◌∷◌, ◌==◌, arith, All, inl, inr, Bool-cases,
  Option-cases, decide_refl, decide_iff,
}
use hotel_booking.Tx.{ok, pure, ◌>>=◌}
use hotel_booking.Tx.Keeps.{bind_inv}
use hotel_booking.Table.{get_row}
use hotel_booking.Model.{Db, Room, OperationalState, OperationalState-discrete}
use hotel_booking.Rooms.{state_eq}
use hotel_booking.Allocation.{get_room, keep_vacant, lock_candidates}

-- A room as it stands in the table, vacant.
abbrev pub IsLocked : Db → Room → Type 0
IsLocked db r =
    (get_row (λ x. x.id) r.id db.rooms ≡ some r)
    × (r.operational_state ≡ OperationalState.vacant_clean)

-- A vacant room of the table is among those locked.
abbrev pub IsFound : Db → List Room → ℕ → Type 0
IsFound db vacant i =
    (r : Room)
    → get_row (λ x. x.id) i db.rooms ≡ some r
    → r.operational_state ≡ OperationalState.vacant_clean
    → get_row (λ x. x.id) i vacant ≡ some r

get_room_ok :
    (i : ℕ) (db : Db) (r : Room)
    → (get_room i db).0 ≡ ok r
    → (get_room i db ≡ (ok r, db)) × (get_row (λ x. x.id) i db.rooms ≡ some r)
get_room_ok i db r h = ground (arith, Option-cases (get_row (λ x. x.id) i db.rooms))

pub get_row-own :
    (i : ℕ) (rows : List Room) (r : Room) → get_row (λ x. x.id) i rows ≡ some r → r.id ≡ i
get_row-own i [] r h = ground arith
get_row-own i (x ∷ rows) r h = ground (arith, get_row-own i rows r)

keep_vacant-IsLocked :
    (db : Db) (i : ℕ) (locked : Room) (vacant : List Room)
    → get_row (λ x. x.id) i db.rooms ≡ some locked
    → All (IsLocked db) vacant
    → All (IsLocked db) (keep_vacant locked vacant)
keep_vacant-IsLocked db i locked vacant found h =
    let own = get_row-own i db.rooms locked found in
    let at : get_row (λ x. x.id) locked.id db.rooms ≡ some locked =
      ap (λ k. get_row (λ x. x.id) k db.rooms) own ∙ found in
    elim (Bool-cases (state_eq locked.operational_state OperationalState.vacant_clean)) [
      | inl free ↦
          let state =
            (decide_iff OperationalState-discrete locked.operational_state
                OperationalState.vacant_clean).0
              free in
          rw free ((at, state), h)
      | inr taken ↦ rw taken h
    ]

keep_vacant-IsFound :
    (db : Db) (i j : ℕ) (locked : Room) (vacant : List Room)
    → get_row (λ x. x.id) i db.rooms ≡ some locked
    → IsFound db vacant j
    → IsFound db (keep_vacant locked vacant) j
keep_vacant-IsFound db i j locked vacant found h r at state =
    let own = get_row-own i db.rooms locked found in
    let rest = h r at state in
    elim (Bool-cases (state_eq locked.operational_state OperationalState.vacant_clean)) [
      | inl free ↦ elim (Bool-cases (locked.id == j)) [
        | inl hit ↦
            let index : i ≡ j = ground (arith, own, hit) in
            let same : some locked ≡ some r =
              sym found ∙ ap (λ k. get_row (λ x. x.id) k db.rooms) index ∙ at in
            rw (free, hit) same
        | inr miss ↦ rw (free, miss) rest
      ]
      | inr taken ↦ rw taken rest
    ]

keep_vacant_self :
    (db : Db) (i : ℕ) (locked : Room) (vacant : List Room)
    → get_row (λ x. x.id) i db.rooms ≡ some locked
    → IsFound db (keep_vacant locked vacant) i
keep_vacant_self db i locked vacant found r at state =
    let own = get_row-own i db.rooms locked found in
    let same : locked ≡ r = ground (arith, found, at) in
    let hit : (locked.id == i) ≡ true = ground (arith, own) in
    let free : state_eq locked.operational_state OperationalState.vacant_clean ≡ true =
      ground
        (arith, same, state, decide_refl OperationalState-discrete OperationalState.vacant_clean) in
    rw (free, hit) (ap some same)

All-IsFound :
    (db : Db) (i : ℕ) (locked : Room) (vacant : List Room) (is : List ℕ)
    → get_row (λ x. x.id) i db.rooms ≡ some locked
    → All (IsFound db vacant) is
    → All (IsFound db (keep_vacant locked vacant)) is
All-IsFound db i locked vacant [] found h = tt
All-IsFound db i locked vacant (j ∷ is) found h = (
  keep_vacant-IsFound db i j locked vacant found h.0,
  All-IsFound db i locked vacant is found h.1,
)

-- The locks write nothing, and keep exactly the candidates that are vacant now.
pub lock_candidates_ok :
    (is : List ℕ) (db : Db) (vacant : List Room)
    → (lock_candidates is db).0 ≡ ok vacant
    → (lock_candidates is db ≡ (ok vacant, db))
      × All (IsLocked db) vacant
      × All (IsFound db vacant) is
unfolding lock_candidates
lock_candidates_ok [] db vacant done =
    let same : [] ≡ vacant = ground (arith, done) in
    (ap (λ v. (ok v, db)) same, subst (All (IsLocked db)) same tt, tt)
lock_candidates_ok (i ∷ is) db vacant done =
    let (locked, read, ran) =
      bind_inv (get_room i) (λ r. lock_candidates is >>= λ v. pure (keep_vacant r v)) db vacant
        done in
    let (at, found) = get_room_ok i db locked read in
    let ran1 = ran ∙ ap (λ o. (lock_candidates is >>= λ v. pure (keep_vacant locked v)) o.1) at in
    let (rest, locks, ran2) =
      bind_inv (lock_candidates is) (λ v. pure (keep_vacant locked v)) db vacant
        (ap (λ o. o.0) (sym ran1) ∙ done) in
    let (same, kept, all) = lock_candidates_ok is db rest locks in
    let ran3 : lock_candidates (i ∷ is) db ≡ (ok (keep_vacant locked rest), db) =
      ran1 ∙ ran2 ∙ ap (λ o. (ok (keep_vacant locked rest), o.1)) same in
    let end : keep_vacant locked rest ≡ vacant = ground (arith, ap (λ o. o.0) (sym ran3) ∙ done) in
    (
      ran3 ∙ ap (λ v. (ok v, db)) end,
      subst (All (IsLocked db)) end (keep_vacant-IsLocked db i locked rest found kept),
      subst (λ v. All (IsFound db v) (i ∷ is)) end
          (keep_vacant_self db i locked rest found, All-IsFound db i locked rest is found all),
    )
