-- ===== src/Schedule/Store/DueChoice.antt =====
-- `prepare_due`'s choice of rows (src/booksaver/infrastructure/persistence/scheduled_check_slots.py):
-- every due row is kept or superseded, and one row of a user is kept.
use mathlib.Core.List.{Memᴰ}
use booksaver_agent.Base.{
  ℕ, ◌≡◌, ◌⊎◌, inl, inr, Bool, false, Bool-cases, List, [], ◌∷◌, arith, All, ◌==◌, any,
}
use booksaver_agent.Base.Pairs.{All-weaken, All-×, Pairwise}
use booksaver_agent.Schedule.Slot.{ScheduledCheckSlot}
use booksaver_agent.Schedule.Store.Rows.{sort_by, insert_by}
use booksaver_agent.Schedule.Store.RowLaws.{IsDistinct, All-insert_by, All-sort_by}
use booksaver_agent.Schedule.Store.Due.{split_newest}

module _ (before : ScheduledCheckSlot → ScheduledCheckSlot → Bool) where
  Pairwise-insert_by :
      (R : ScheduledCheckSlot → ScheduledCheckSlot → Type 0)
      → ((r s : ScheduledCheckSlot) → R r s → R s r)
      → (r : ScheduledCheckSlot) (rows : List ScheduledCheckSlot) → All (R r) rows
      → Pairwise R rows
      → Pairwise R (insert_by before r rows)
  unfolding insert_by
  Pairwise-insert_by R symm r [] h k = (tt, tt)
  Pairwise-insert_by R symm r (s ∷ rows) h k = elim (Bool-cases (before s r)) [
    | inl e ↦ rw e (insert_all s rows (symm r s h.0) k.0, Pairwise-insert_by R symm r rows h.1 k.1)
    | inr e ↦ rw e (h, k)
  ]
    where
      insert_all :
          (s : ScheduledCheckSlot) (us : List ScheduledCheckSlot)
          → R s r
          → All (R s) us
          → All (R s) (insert_by before r us)
      insert_all s us h k = All-insert_by before (R s) r us h k

  pub Pairwise-sort_by :
      (R : ScheduledCheckSlot → ScheduledCheckSlot → Type 0)
      → ((r s : ScheduledCheckSlot) → R r s → R s r)
      → (rows : List ScheduledCheckSlot) → Pairwise R rows
      → Pairwise R (sort_by before rows)
  unfolding sort_by
  Pairwise-sort_by R symm [] h = tt
  Pairwise-sort_by R symm (r ∷ rows) h =
      Pairwise-insert_by R symm r (sort_by before rows) (All-sort_by before (R r) rows h.0)
        (Pairwise-sort_by R symm rows h.1)

pub IsDistinct-symm : (r s : ScheduledCheckSlot) → IsDistinct r s → IsDistinct s r
IsDistinct-symm r s h = ground arith

-- The kept and the superseded rows come from the list.
pub All-split_newest :
    (P : ScheduledCheckSlot → Type 0) (seen : List ℕ) (due : List ScheduledCheckSlot)
    → All P due
    → All P (split_newest seen due).0 × All P (split_newest seen due).1
unfolding split_newest
All-split_newest P seen [] h = (tt, tt)
All-split_newest P seen (r ∷ due) h = elim (Bool-cases (any (λ u. u == r.user_id) seen)) [
  | inl e ↦ let (a, b) = All-split_newest P seen due h.1 in rw e (a, (h.0, b))
  | inr e ↦ let (a, b) = All-split_newest P (r.user_id ∷ seen) due h.1 in rw e ((h.0, a), b)
]

pub Memᴰ-split_newest :
    (seen : List ℕ) (due : List ScheduledCheckSlot) {s : ScheduledCheckSlot}
    → Memᴰ s due
    → Memᴰ s (split_newest seen due).0 ⊎ Memᴰ s (split_newest seen due).1
unfolding split_newest
Memᴰ-split_newest seen [] m = elim m [ ]
Memᴰ-split_newest seen (r ∷ due) (Memᴰ.head q) =
    elim (Bool-cases (any (λ u. u == r.user_id) seen)) [
      | inl e ↦ rw e (inr (Memᴰ.head q))
      | inr e ↦ rw e (inl (Memᴰ.head q))
    ]
Memᴰ-split_newest seen (r ∷ due) (Memᴰ.tail m) =
    elim (Bool-cases (any (λ u. u == r.user_id) seen)) [
      | inl e ↦ elim (Memᴰ-split_newest seen due m) [
        | inl k ↦ rw e (inl k)
        | inr k ↦ rw e (inr (Memᴰ.tail k))
      ]
      | inr e ↦ elim (Memᴰ-split_newest (r.user_id ∷ seen) due m) [
        | inl k ↦ rw e (inl (Memᴰ.tail k))
        | inr k ↦ rw e (inr k)
      ]
    ]

abbrev pub OtherUser : ScheduledCheckSlot → ScheduledCheckSlot → Type 0
OtherUser r s = (r.user_id == s.user_id) ≡ false

abbrev Unseen : List ℕ → ScheduledCheckSlot → Type 0
Unseen seen r = any (λ u. u == r.user_id) seen ≡ false

split_newest-Unseen :
    (seen : List ℕ) (due : List ScheduledCheckSlot) → All (Unseen seen) (split_newest seen due).0
unfolding split_newest
split_newest-Unseen seen [] = tt
split_newest-Unseen seen (r ∷ due) = elim (Bool-cases (any (λ u. u == r.user_id) seen)) [
  | inl e ↦ rw e (split_newest-Unseen seen due)
  | inr e ↦ rw e (
    e,
    All-weaken (Unseen (r.user_id ∷ seen)) (Unseen seen) (split_newest (r.user_id ∷ seen) due).0
        (λ s h. ground arith) (split_newest-Unseen (r.user_id ∷ seen) due),
  )
]

-- One row of a user is kept.
pub split_newest-OtherUser :
    (seen : List ℕ) (due : List ScheduledCheckSlot) → Pairwise OtherUser (split_newest seen due).0
unfolding split_newest
split_newest-OtherUser seen [] = tt
split_newest-OtherUser seen (r ∷ due) = elim (Bool-cases (any (λ u. u == r.user_id) seen)) [
  | inl e ↦ rw e (split_newest-OtherUser seen due)
  | inr e ↦ rw e (
    All-weaken (Unseen (r.user_id ∷ seen)) (OtherUser r) (split_newest (r.user_id ∷ seen) due).0
        (λ s h. ground arith) (split_newest-Unseen (r.user_id ∷ seen) due),
    split_newest-OtherUser (r.user_id ∷ seen) due,
  )
]

pub Pairwise-split_newest :
    (R : ScheduledCheckSlot → ScheduledCheckSlot → Type 0) (seen : List ℕ)
    (due : List ScheduledCheckSlot)
    → Pairwise R due
    → Pairwise R (split_newest seen due).0
unfolding split_newest
Pairwise-split_newest R seen [] h = tt
Pairwise-split_newest R seen (r ∷ due) h = elim (Bool-cases (any (λ u. u == r.user_id) seen)) [
  | inl e ↦ rw e (Pairwise-split_newest R seen due h.1)
  | inr e ↦ rw e (
    (All-split_newest (R r) (r.user_id ∷ seen) due h.0).0,
    Pairwise-split_newest R (r.user_id ∷ seen) due h.1,
  )
]

-- A kept and a superseded row are two rows of the list.
pub split_newest-cross :
    (R : ScheduledCheckSlot → ScheduledCheckSlot → Type 0)
    → ((r s : ScheduledCheckSlot) → R r s → R s r)
    → (seen : List ℕ) (due : List ScheduledCheckSlot) → Pairwise R due
    → All (λ s. All (λ r. R r s) (split_newest seen due).1) (split_newest seen due).0
unfolding split_newest
split_newest-cross R symm seen [] h = tt
split_newest-cross R symm seen (r ∷ due) h = elim (Bool-cases (any (λ u. u == r.user_id) seen)) [
  | inl e ↦ rw e (
      All-weaken (λ s. R r s × All (λ x. R x s) (split_newest seen due).1) _
        (split_newest seen due).0 (λ s k. k)
        (All-× (R r) (λ s. All (λ x. R x s) (split_newest seen due).1) (split_newest seen due).0
          (All-split_newest (R r) seen due h.0).0 (split_newest-cross R symm seen due h.1)))
  | inr e ↦ rw e (
    All-weaken (R r) (λ x. R x r) (split_newest (r.user_id ∷ seen) due).1 (λ x k. symm r x k)
        (All-split_newest (R r) (r.user_id ∷ seen) due h.0).1,
    split_newest-cross R symm (r.user_id ∷ seen) due h.1,
  )
]
