-- ===== src/Outbox/Rows.antt =====
-- The rows of a batch and the UPDATEs of the relay.
use hotel_booking.Base.{
  ℕ, suc, ◌≡◌, refl, ◌∙◌, ap, Bool, true, false, List, [], ◌∷◌, arith, ◌==◌, All, inl, inr,
  Bool-cases, select,
}
use hotel_booking.Model.{OutboxEvent, OutboxStatus}
use hotel_booking.Outbox.{
  is_pending, conditional_update, is_before, insert_row, order_rows, take, pending_rows,
}

-- Primary keys are distinct.
abbrev pub IsUnique : List OutboxEvent → Type 0
IsUnique [] = Unit
IsUnique (r ∷ rows) = All (λ s. (r.id == s.id) ≡ false) rows × IsUnique rows

-- What the table has under the key of `row` is `row`.
abbrev pub IsRead : List OutboxEvent → OutboxEvent → Type 0
IsRead rows row = All (λ r. (r.id == row.id) ≡ true → r ≡ row) rows

module _ (P : OutboxEvent → Type 0) where
  pub conditional_update-All :
      (conditions : OutboxEvent → Bool) (values : OutboxEvent → OutboxEvent)
      (rows : List OutboxEvent)
      → ((r : OutboxEvent) → conditions r ≡ true → P r → P (values r))
      → All P rows
      → All P (conditional_update conditions values rows)
  unfolding conditional_update
  conditional_update-All conditions values [] keep h = tt
  conditional_update-All conditions values (r ∷ rows) keep h = (
    elim (Bool-cases (conditions r)) [
      | inl met ↦ rw met (keep r met h.0)
      | inr unmet ↦ rw unmet h.0
    ],
    conditional_update-All conditions values rows keep h.1,
  )

  select-All :
      (p : OutboxEvent → Bool) (rows : List OutboxEvent) → All P rows → All P (select p rows)
  select-All p [] h = tt
  select-All p (r ∷ rows) h = elim (Bool-cases (p r)) [
    | inl chosen ↦ rw chosen (h.0, select-All p rows h.1)
    | inr left ↦ rw left (select-All p rows h.1)
  ]

  insert_row-All :
      (x : OutboxEvent) (rows : List OutboxEvent) → P x → All P rows → All P (insert_row x rows)
  unfolding insert_row
  insert_row-All x [] px h = (px, tt)
  insert_row-All x (y ∷ ys) px h = elim (Bool-cases (is_before x y)) [
    | inl first ↦ rw first (px, (h.0, h.1))
    | inr later ↦ rw later (h.0, insert_row-All x ys px h.1)
  ]

  order_rows-All : (rows : List OutboxEvent) → All P rows → All P (order_rows rows)
  unfolding order_rows
  order_rows-All [] h = tt
  order_rows-All (x ∷ xs) h = insert_row-All x (order_rows xs) h.0 (order_rows-All xs h.1)

  take-All : (n : ℕ) (rows : List OutboxEvent) → All P rows → All P (take n rows)
  unfolding take
  take-All Prim.Native.Nat.zero rows h = tt
  take-All (suc n) [] h = tt
  take-All (suc n) (r ∷ rows) h = (h.0, take-All n rows h.1)

  pub pending_rows-All :
      (n : ℕ) (rows : List OutboxEvent) → All P rows → All P (pending_rows n rows)
  pending_rows-All n rows h = take-All n (order_rows (select (λ r. is_pending r.status) rows)) (
      order_rows-All (select (λ r. is_pending r.status) rows)
        (select-All (λ r. is_pending r.status) rows h))

select-IsUnique :
    (p : OutboxEvent → Bool) (rows : List OutboxEvent) → IsUnique rows → IsUnique (select p rows)
select-IsUnique p [] h = tt
select-IsUnique p (r ∷ rows) h = elim (Bool-cases (p r)) [
  | inl chosen ↦
      rw chosen (select-All (λ s. (r.id == s.id) ≡ false) p rows h.0, select-IsUnique p rows h.1)
  | inr left ↦ rw left (select-IsUnique p rows h.1)
]

insert_row-IsUnique :
    (x : OutboxEvent) (rows : List OutboxEvent)
    → All (λ s. (x.id == s.id) ≡ false) rows
    → IsUnique rows
    → IsUnique (insert_row x rows)
unfolding insert_row
insert_row-IsUnique x [] new h = (tt, tt)
insert_row-IsUnique x (y ∷ ys) new h = elim (Bool-cases (is_before x y)) [
  | inl first ↦ rw first (new, h)
  | inr later ↦ rw later (
    insert_row-All (λ s. (y.id == s.id) ≡ false) x ys (ground (arith, new.0)) h.0,
    insert_row-IsUnique x ys new.1 h.1,
  )
]

order_rows-IsUnique : (rows : List OutboxEvent) → IsUnique rows → IsUnique (order_rows rows)
unfolding order_rows
order_rows-IsUnique [] h = tt
order_rows-IsUnique (x ∷ xs) h =
    insert_row-IsUnique x (order_rows xs) (order_rows-All (λ s. (x.id == s.id) ≡ false) xs h.0)
      (order_rows-IsUnique xs h.1)

take-IsUnique : (n : ℕ) (rows : List OutboxEvent) → IsUnique rows → IsUnique (take n rows)
unfolding take
take-IsUnique Prim.Native.Nat.zero rows h = tt
take-IsUnique (suc n) [] h = tt
take-IsUnique (suc n) (r ∷ rows) h =
    (take-All (λ s. (r.id == s.id) ≡ false) n rows h.0, take-IsUnique n rows h.1)

pub pending_rows-IsUnique :
    (n : ℕ) (rows : List OutboxEvent) → IsUnique rows → IsUnique (pending_rows n rows)
pending_rows-IsUnique n rows h =
    take-IsUnique n (order_rows (select (λ r. is_pending r.status) rows)) (
      order_rows-IsUnique (select (λ r. is_pending r.status) rows)
        (select-IsUnique (λ r. is_pending r.status) rows h))

pub conditional_update-IsUnique :
    (conditions : OutboxEvent → Bool) (values : OutboxEvent → OutboxEvent) (rows : List OutboxEvent)
    → ((r : OutboxEvent) → (values r).id ≡ r.id)
    → IsUnique rows
    → IsUnique (conditional_update conditions values rows)
unfolding conditional_update
conditional_update-IsUnique conditions values [] same h = tt
conditional_update-IsUnique conditions values (r ∷ rows) same h =
    let away : All (λ s. (r.id == s.id) ≡ false) (conditional_update conditions values rows) =
      conditional_update-All (λ s. (r.id == s.id) ≡ false) conditions values rows
        (λ s met apart. ap (λ i. r.id == i) (same s) ∙ apart) h.0 in
    (
      elim (Bool-cases (conditions r)) [
        | inl met ↦ rw (met, same r) away
        | inr unmet ↦ rw unmet away
      ],
      conditional_update-IsUnique conditions values rows same h.1,
    )

-- An UPDATE of one key leaves the rows of the other keys as they were read.
pub conditional_update-IsRead :
    (conditions : OutboxEvent → Bool) (values : OutboxEvent → OutboxEvent) (rows : List OutboxEvent)
    (x y : OutboxEvent)
    → ((r : OutboxEvent) → (values r).id ≡ r.id)
    → ((r : OutboxEvent) → conditions r ≡ true → (r.id == x.id) ≡ true)
    → (x.id == y.id) ≡ false
    → IsRead rows y
    → IsRead (conditional_update conditions values rows) y
conditional_update-IsRead conditions values rows x y same one apart h =
    conditional_update-All (λ r. (r.id == y.id) ≡ true → r ≡ y) conditions values rows
      (λ r met old hit. ground (arith, same r, one r met, apart, hit)) h

pub All-zip :
    {P Q R : OutboxEvent → Type 0} (rows : List OutboxEvent)
    → ((r : OutboxEvent) → P r → Q r → R r)
    → All P rows
    → All Q rows
    → All R rows
All-zip [] both p q = tt
All-zip (r ∷ rows) both p q = (both r p.0 q.0, All-zip rows both p.1 q.1)

pub unique-IsRead : (rows : List OutboxEvent) → IsUnique rows → All (IsRead rows) rows
unique-IsRead [] h = tt
unique-IsRead (x ∷ xs) (new, h) = (
  (
    λ hit. refl,
    All-zip {P = λ s. (x.id == s.id) ≡ false} {Q = λ s. (x.id == s.id) ≡ false}
        {R = λ s. (s.id == x.id) ≡ true → s ≡ x} xs (λ s apart _ hit. ground (arith, apart, hit))
        new new,
  ),
  All-zip {P = λ s. (x.id == s.id) ≡ false} {Q = IsRead xs} {R = IsRead (x ∷ xs)} xs
      (λ s apart read. (λ hit. ground (arith, apart, hit), read)) new (unique-IsRead xs h),
)

pub is_pending_lem : (s : OutboxStatus) → is_pending s ≡ true → s ≡ OutboxStatus.pending
unfolding is_pending
is_pending_lem OutboxStatus.pending h = refl
is_pending_lem OutboxStatus.published h = ground arith
is_pending_lem OutboxStatus.dead_lettered h = ground arith

select-waits :
    (rows : List OutboxEvent)
    → All (λ r. r.status ≡ OutboxStatus.pending) (select (λ r. is_pending r.status) rows)
select-waits [] = tt
select-waits (r ∷ rows) = elim (Bool-cases (is_pending r.status)) [
  | inl waits ↦ rw waits (is_pending_lem r.status waits, select-waits rows)
  | inr other ↦ rw other (select-waits rows)
]

pub pending_rows-waits :
    (n : ℕ) (rows : List OutboxEvent)
    → All (λ r. r.status ≡ OutboxStatus.pending) (pending_rows n rows)
pending_rows-waits n rows =
    take-All (λ r. r.status ≡ OutboxStatus.pending) n
      (order_rows (select (λ r. is_pending r.status) rows))
      (order_rows-All (λ r. r.status ≡ OutboxStatus.pending)
        (select (λ r. is_pending r.status) rows) (select-waits rows))
