-- ===== src/Allocation/Chosen.antt =====
-- Which room `AllocationService.allocate_line` takes.
use mathlib.Core.Path.{subst}
use hotel_booking.Base.{
  ℕ, ◌≡◌, refl, sym, ◌∙◌, ap, Bool, true, false, ◌&&◌, Option, none, some, List, [], ◌∷◌, arith,
  ◌==◌, if◌then◌else◌, All, inl, inr, Bool-cases, Option-cases, decide_iff,
}
use hotel_booking.Tx.{ok, from_option, no_eligible_room, ◌>>=◌}
use hotel_booking.Tx.Keeps.{bind_inv}
use hotel_booking.Table.{get_row}
use hotel_booking.Table.Versions.{IsKeyed}
use hotel_booking.Table.Lookup.{get_row-All}
use hotel_booking.Model.{
  Db, Room, OperationalState, OperationalState-discrete, Booking, BookingLine, RoomScore,
  AllocationCriteria, Response,
}
use hotel_booking.Rooms.{state_eq, vacant_clean_candidates}
use hotel_booking.Allocation.{
  AllocationDecision, candidate_ids, continuity, score_all, sort_ids, lock_candidates, first_vacant,
  ordered_room_ids, check_in, assign_room,
}
use hotel_booking.Allocation.Choice.{
  NoBetter, IsBest, first_vacant-IsBest, sort_ids-All_inv, ComesFirst, ComesFirst_lem,
}
use hotel_booking.Allocation.Locks.{IsLocked, IsFound, lock_candidates_ok}
use hotel_booking.Allocation.CheckIn.{IsCheckedIn, check_in_ok}

-- What `assign_room` did, whatever the decision was made from.
abbrev pub IsAssigned :
    (RoomScore → Type 0) → BookingLine → AllocationDecision → Db → Db → Response → Room → Type 0
IsAssigned P line decision db db' resp room =
    IsLocked db room
    × (vacant : List Room) × All (IsFound db vacant) decision.criteria.candidate_room_ids
    × IsBest P vacant decision.scores room
    × IsCheckedIn line room db db' resp

pub assign_room_ok :
    (P : RoomScore → Type 0) (tenant_id : ℕ) (line : BookingLine) (booking : Booking)
    (decision : AllocationDecision) (actor : Option ℕ) (db : Db) (resp : Response)
    → IsKeyed (λ r. r.id) db.rooms
    → All P decision.scores
    → (assign_room tenant_id line booking decision actor db).0 ≡ ok resp
    → (room : Room) × IsAssigned P line decision db
        (assign_room tenant_id line booking decision actor db).1
        resp
        room
unfolding assign_room ordered_room_ids
assign_room_ok P tenant_id line booking decision actor db resp k p done =
    let ids = decision.criteria.candidate_room_ids in
    let next = λ (vacant : List Room).
      from_option no_eligible_room (first_vacant (ordered_room_ids decision) vacant)
      >>= check_in tenant_id line booking decision actor in
    let (vacant, locks, ran) = bind_inv (lock_candidates (sort_ids ids)) next db resp done in
    let (at, kept, all) = lock_candidates_ok (sort_ids ids) db vacant locks in
    let ran1 = ran ∙ ap (λ o. next vacant o.1) at in
    let (room, chosen, ran2) =
      bind_inv (from_option no_eligible_room (first_vacant (ordered_room_ids decision) vacant))
        (check_in tenant_id line booking decision actor) db resp
        (ap (λ o. o.0) (sym ran1) ∙ done) in
    let first : first_vacant (ordered_room_ids decision) vacant ≡ some room =
      ground (arith, chosen, Option-cases (first_vacant (ordered_room_ids decision) vacant)) in
    let ran3 : assign_room tenant_id line booking decision actor db
        ≡ check_in tenant_id line booking decision actor room db =
      ran1 ∙ ran2 ∙ ground (arith, first) in
    let (x, px, free, best) = first_vacant-IsBest P decision.scores vacant room p first in
    let locked = (get_row-All (λ r. r.id) (IsLocked db) x.room_id vacant room kept free).0 in
    let moved =
      check_in_ok tenant_id line booking decision actor room db resp k locked.0 locked.1
        (ap (λ o. o.0) (sym ran3) ∙ done) in
    (
      room,
      (
        locked,
        vacant,
        sort_ids-All_inv (IsFound db vacant) ids all,
        (x, px, free, best),
        subst (λ o. IsCheckedIn line room db o.1 resp) (sym ran3) moved,
      ),
    )

module _ (tenant_id : ℕ) (line : BookingLine) (booking : Booking) where
  abbrev pub IsEligible : Room → Type 0
  IsEligible r =
      (r.tenant_id ≡ tenant_id)
      × (r.room_type_id ≡ line.room_type_id)
      × (r.property_id ≡ booking.property_id)
      × (r.operational_state ≡ OperationalState.vacant_clean)
      × (r.deleted_at ≡ none)

  -- What the scorer knows of a room.
  abbrev pub score_of : Db → Room → RoomScore
  score_of db r = record {
    room_id = r.id;
    stay_continuity =
        continuity
          (record {
            booking_line_id = line.id;
            room_type_id = line.room_type_id;
            guest_profile_id = booking.guest_profile;
            candidate_room_ids = [];
          })
          r.id db;
  }

  abbrev pub criteria : List ℕ → AllocationCriteria
  criteria is = record {
    booking_line_id = line.id;
    room_type_id = line.room_type_id;
    guest_profile_id = booking.guest_profile;
    candidate_room_ids = is;
  }

  abbrev is_eligible : Room → Bool
  is_eligible r =
      (r.room_type_id == line.room_type_id
        && (r.property_id == booking.property_id
            && (state_eq r.operational_state OperationalState.vacant_clean
                && elim r.deleted_at [ none ↦ true | some _ ↦ false ])))
      && r.tenant_id == tenant_id

  is_eligible_lem : (r : Room) → is_eligible r ≡ true → IsEligible r
  is_eligible_lem r h = ground (
    arith,
    h,
    decide_iff OperationalState-discrete r.operational_state OperationalState.vacant_clean,
    Option-cases r.deleted_at,
  )

  IsEligible_lem : (r : Room) → IsEligible r → is_eligible r ≡ true
  IsEligible_lem r h = ground (
    arith,
    h,
    decide_iff OperationalState-discrete r.operational_state OperationalState.vacant_clean,
  )

  candidates-cons :
      (r : Room) (rs : List Room)
      → let rest = candidate_ids tenant_id line.room_type_id booking.property_id rs in
        candidate_ids tenant_id line.room_type_id booking.property_id (r ∷ rs)
        ≡ (if is_eligible r then r.id ∷ rest else rest)
  unfolding candidate_ids vacant_clean_candidates
  candidates-cons r rs = ground arith

  -- A score of an eligible room of the table.
  abbrev pub IsScore : Db → RoomScore → Type 0
  IsScore db x =
      (r : Room) × (get_row (λ r. r.id) r.id db.rooms ≡ some r) × IsEligible r × (x ≡ score_of db r)

  pub scores-All :
      (db : Db) (is : List ℕ) (rs : List Room)
      → All (λ r. get_row (λ x. x.id) r.id db.rooms ≡ some r) rs
      → All (IsScore db) (
          score_all
            (criteria is)
            db
            (candidate_ids tenant_id line.room_type_id booking.property_id rs))
  unfolding candidate_ids vacant_clean_candidates
  scores-All db is [] h = tt
  scores-All db is (r ∷ rs) h = elim (Bool-cases (is_eligible r)) [
    | inl yes' ↦
        rw (candidates-cons r rs, yes')
          ((r, h.0, is_eligible_lem r yes', refl), scores-All db is rs h.1)
    | inr no' ↦ rw (candidates-cons r rs, no') (scores-All db is rs h.1)
  ]

  -- No eligible room comes before the chosen one.
  abbrev pub IsFirst : Db → Room → Room → Type 0
  IsFirst db room r = IsEligible r → ComesFirst (score_of db room) (score_of db r)

  pub best-All :
      (db : Db) (is : List ℕ) (vacant : List Room) (room : Room) (rs : List Room)
      → All (λ r. get_row (λ x. x.id) r.id db.rooms ≡ some r) rs
      → All (IsFound db vacant) (candidate_ids tenant_id line.room_type_id booking.property_id rs)
      → All (NoBetter vacant (score_of db room)) (
          score_all
            (criteria is)
            db
            (candidate_ids tenant_id line.room_type_id booking.property_id rs))
      → All (IsFirst db room) rs
  unfolding candidate_ids vacant_clean_candidates
  best-All db is vacant room [] h found best = tt
  best-All db is vacant room (r ∷ rs) h found best = elim (Bool-cases (is_eligible r)) [
    | inl yes' ↦
        let ids = candidate_ids tenant_id line.room_type_id booking.property_id rs in
        let found' : IsFound db vacant r.id × All (IsFound db vacant) ids =
          rw (candidates-cons r rs, yes') at found in
        let best' : NoBetter vacant (score_of db room) (score_of db r)
            × All (NoBetter vacant (score_of db room)) (score_all (criteria is) db ids) =
          rw (candidates-cons r rs, yes') at best in
        let there = found'.0 r h.0 (is_eligible_lem r yes').3 in
        (
          λ _.
              ComesFirst_lem (score_of db room) (score_of db r)
                (best'.0 (λ gone. ground (arith, there, gone))),
          best-All db is vacant room rs h.1 found'.1 best'.1,
        )
    | inr no' ↦
        let ids = candidate_ids tenant_id line.room_type_id booking.property_id rs in
        let found' : All (IsFound db vacant) ids = rw (candidates-cons r rs, no') at found in
        let best' : All (NoBetter vacant (score_of db room)) (score_all (criteria is) db ids) =
          rw (candidates-cons r rs, no') at best in
        (
          λ fits. ground (arith, IsEligible_lem r fits, no'),
          best-All db is vacant room rs h.1 found' best',
        )
  ]
