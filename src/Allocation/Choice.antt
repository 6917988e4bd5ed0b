-- ===== src/Allocation/Choice.antt =====
-- The order of the scores, and the first vacant room in it.
use hotel_booking.Base.{
  ◌⊎◌, ◌≤◌, ℕ, ◌≡◌, ◌≢◌, true, false, none, some, List, [], ◌∷◌, arith, leb, All, inl, inr,
  Bool-cases, Option-cases,
}
use hotel_booking.Table.{get_row}
use hotel_booking.Model.{Room, RoomScore}
use hotel_booking.Allocation.{
  sorts_before, insert_score, sort_scores, score_ids, insert_id, sort_ids, first_vacant,
}

sorts_before_total : (a b : RoomScore) → sorts_before a b ≡ false → sorts_before b a ≡ true
sorts_before_total a b h = ground arith

sorts_before_trans :
    (a b c : RoomScore)
    → sorts_before a b ≡ true
    → sorts_before b c ≡ true
    → sorts_before a c ≡ true
sorts_before_trans a b c h k = ground arith

sorts_before_refl : (a : RoomScore) → sorts_before a a ≡ true
sorts_before_refl a = ground arith

module _ (P : RoomScore → Type 0) where
  insert_score-All :
      (x : RoomScore) (xs : List RoomScore) → P x → All P xs → All P (insert_score x xs)
  unfolding insert_score
  insert_score-All x [] p h = (p, tt)
  insert_score-All x (y ∷ ys) p h = elim (Bool-cases (sorts_before x y)) [
    | inl first ↦ rw first (p, h)
    | inr later ↦ rw later (h.0, insert_score-All x ys p h.1)
  ]

  sort_scores-All : (xs : List RoomScore) → All P xs → All P (sort_scores xs)
  unfolding sort_scores
  sort_scores-All [] h = tt
  sort_scores-All (x ∷ xs) h = insert_score-All x (sort_scores xs) h.0 (sort_scores-All xs h.1)

  insert_score-All_inv :
      (x : RoomScore) (xs : List RoomScore) → All P (insert_score x xs) → P x × All P xs
  unfolding insert_score
  insert_score-All_inv x [] h = (h.0, tt)
  insert_score-All_inv x (y ∷ ys) h = elim (Bool-cases (sorts_before x y)) [
    | inl first ↦ ground (arith, first)
    | inr later ↦
        let (h0, h1) : P y × All P (insert_score x ys) = rw later at h in
        let (p, rest) = insert_score-All_inv x ys h1 in (p, (h0, rest))
  ]

  sort_scores-All_inv : (xs : List RoomScore) → All P (sort_scores xs) → All P xs
  unfolding sort_scores
  sort_scores-All_inv [] h = tt
  sort_scores-All_inv (x ∷ xs) h =
      let (p, rest) = insert_score-All_inv x (sort_scores xs) h in (p, sort_scores-All_inv xs rest)

abbrev IsSorted : List RoomScore → Type 0
IsSorted [] = Unit
IsSorted (x ∷ xs) = All (λ y. sorts_before x y ≡ true) xs × IsSorted xs

All-later :
    (x y : RoomScore) (xs : List RoomScore)
    → sorts_before x y ≡ true
    → All (λ z. sorts_before y z ≡ true) xs
    → All (λ z. sorts_before x z ≡ true) xs
All-later x y [] h k = tt
All-later x y (z ∷ zs) h k = (sorts_before_trans x y z h k.0, All-later x y zs h k.1)

insert_score-IsSorted :
    (x : RoomScore) (xs : List RoomScore) → IsSorted xs → IsSorted (insert_score x xs)
unfolding insert_score
insert_score-IsSorted x [] h = (tt, tt)
insert_score-IsSorted x (y ∷ ys) h = elim (Bool-cases (sorts_before x y)) [
  | inl first ↦ rw first ((first, All-later x y ys first h.0), h)
  | inr later ↦ rw later (
    insert_score-All (λ z. sorts_before y z ≡ true) x ys (sorts_before_total x y later) h.0,
    insert_score-IsSorted x ys h.1,
  )
]

sort_scores-IsSorted : (xs : List RoomScore) → IsSorted (sort_scores xs)
unfolding sort_scores
sort_scores-IsSorted [] = tt
sort_scores-IsSorted (x ∷ xs) = insert_score-IsSorted x (sort_scores xs) (sort_scores-IsSorted xs)

-- Continuity first, then the lower id.
abbrev pub ComesFirst : RoomScore → RoomScore → Type 0
ComesFirst a b =
    ((a.stay_continuity ≡ true) × (b.stay_continuity ≡ false))
    ⊎ ((a.stay_continuity ≡ b.stay_continuity) × (a.room_id ≤ b.room_id))

pub ComesFirst_lem : (a b : RoomScore) → sorts_before a b ≡ true → ComesFirst a b
ComesFirst_lem a b h = ground (arith, Bool-cases a.stay_continuity, Bool-cases b.stay_continuity)

-- A score whose room is vacant comes no earlier than `x`.
abbrev pub NoBetter : List Room → RoomScore → RoomScore → Type 0
NoBetter vacant x y = get_row (λ r. r.id) y.room_id vacant ≢ none → sorts_before x y ≡ true

abbrev pub IsBest : (RoomScore → Type 0) → List Room → List RoomScore → Room → Type 0
IsBest P vacant scores room =
    (x : RoomScore) × P x
    × (get_row (λ r. r.id) x.room_id vacant ≡ some room)
    × All (NoBetter vacant x) scores

weaken :
    (vacant : List Room) (x : RoomScore) (xs : List RoomScore)
    → All (λ y. sorts_before x y ≡ true) xs
    → All (NoBetter vacant x) xs
weaken vacant x [] h = tt
weaken vacant x (y ∷ ys) h = (λ _. h.0, weaken vacant x ys h.1)

first_vacant-sorted :
    (P : RoomScore → Type 0) (xs : List RoomScore) (vacant : List Room) (room : Room)
    → All P xs
    → IsSorted xs
    → first_vacant (score_ids xs) vacant ≡ some room
    → IsBest P vacant xs room
unfolding first_vacant
first_vacant-sorted P [] vacant room p s h = ground arith
first_vacant-sorted P (x ∷ xs) vacant room p s h =
    elim (Option-cases (get_row (λ r. r.id) x.room_id vacant)) [
      | inl taken ↦
          let (y, py, at, best) =
            first_vacant-sorted P xs vacant room p.1 s.1 (ground (arith, taken)) in
          (y, py, at, (λ free. absurd (free taken), best))
      | inr (r, free) ↦
          (x, p.0, ground (arith, free), (λ _. sorts_before_refl x, weaken vacant x xs s.0))
    ]

-- The first vacant room in the order of the scores has a score that no vacant room beats.
pub first_vacant-IsBest :
    (P : RoomScore → Type 0) (scores : List RoomScore) (vacant : List Room) (room : Room)
    → All P scores
    → first_vacant (score_ids (sort_scores scores)) vacant ≡ some room
    → IsBest P vacant scores room
first_vacant-IsBest P scores vacant room p h =
    let (x, px, at, best) =
      first_vacant-sorted P (sort_scores scores) vacant room (sort_scores-All P scores p)
        (sort_scores-IsSorted scores) h in
    (x, px, at, sort_scores-All_inv (NoBetter vacant x) scores best)

first_vacant-none_sorted :
    (xs : List RoomScore) (vacant : List Room)
    → first_vacant (score_ids xs) vacant ≡ none
    → All (λ x. get_row (λ r. r.id) x.room_id vacant ≡ none) xs
unfolding first_vacant
first_vacant-none_sorted [] vacant h = tt
first_vacant-none_sorted (x ∷ xs) vacant h =
    elim (Option-cases (get_row (λ r. r.id) x.room_id vacant)) [
      | inl taken ↦ (taken, first_vacant-none_sorted xs vacant (ground (arith, taken)))
      | inr (r, free) ↦ ground (arith, free)
    ]

pub first_vacant-none :
    (scores : List RoomScore) (vacant : List Room)
    → first_vacant (score_ids (sort_scores scores)) vacant ≡ none
    → All (λ x. get_row (λ r. r.id) x.room_id vacant ≡ none) scores
first_vacant-none scores vacant h =
    sort_scores-All_inv (λ x. get_row (λ r. r.id) x.room_id vacant ≡ none) scores
      (first_vacant-none_sorted (sort_scores scores) vacant h)

module _ (P : ℕ → Type 0) where
  insert_id-All : (x : ℕ) (xs : List ℕ) → P x → All P xs → All P (insert_id x xs)
  unfolding insert_id
  insert_id-All x [] p h = (p, tt)
  insert_id-All x (y ∷ ys) p h = elim (Bool-cases (leb x y)) [
    | inl first ↦ rw first (p, h)
    | inr later ↦ rw later (h.0, insert_id-All x ys p h.1)
  ]

  pub sort_ids-All : (xs : List ℕ) → All P xs → All P (sort_ids xs)
  unfolding sort_ids
  sort_ids-All [] h = tt
  sort_ids-All (x ∷ xs) h = insert_id-All x (sort_ids xs) h.0 (sort_ids-All xs h.1)

  insert_id-All_inv : (x : ℕ) (xs : List ℕ) → All P (insert_id x xs) → P x × All P xs
  unfolding insert_id
  insert_id-All_inv x [] h = (h.0, tt)
  insert_id-All_inv x (y ∷ ys) h = elim (Bool-cases (leb x y)) [
    | inl first ↦ ground (arith, first)
    | inr later ↦
        let (h0, h1) : P y × All P (insert_id x ys) = rw later at h in
        let (p, rest) = insert_id-All_inv x ys h1 in (p, (h0, rest))
  ]

  pub sort_ids-All_inv : (xs : List ℕ) → All P (sort_ids xs) → All P xs
  unfolding sort_ids
  sort_ids-All_inv [] h = tt
  sort_ids-All_inv (x ∷ xs) h =
      let (p, rest) = insert_id-All_inv x (sort_ids xs) h in (p, sort_ids-All_inv xs rest)
