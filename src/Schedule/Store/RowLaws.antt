-- ===== src/Schedule/Store/RowLaws.antt =====
-- What the SQL helpers keep: updates row by row, membership through sorting, keys.
use mathlib.Core.List.{Memᴰ}
use booksaver_agent.Base.{
  ◌≡◌, refl, inl, inr, Bool, true, false, Bool-cases, List, [], ◌∷◌, arith, All, ok,
}
use booksaver_agent.Base.Pairs.{Zip}
use booksaver_agent.Schedule.Slot.{ScheduledCheckSlot, check_slot, new_slot}
use booksaver_agent.Schedule.Store.Rows.{has_identity, update, insert_by, sort_by, load}

abbrev pub IsValidRow : ScheduledCheckSlot → Type 0
IsValidRow r = check_slot r ≡ ok tt

-- Loading a valid row gives it back.
pub new_slot-IsValidRow : (r : ScheduledCheckSlot) → IsValidRow r → new_slot r ≡ ok r
unfolding new_slot
new_slot-IsValidRow r h = rw h

pub IsValidRow-new_slot : (r s : ScheduledCheckSlot) → new_slot r ≡ ok s → (s ≡ r) × IsValidRow r
unfolding new_slot
IsValidRow-new_slot r s h = ground arith

pub load-valid : (rows : List ScheduledCheckSlot) → All IsValidRow rows → load rows ≡ ok rows
unfolding load
load-valid [] h = refl
load-valid (r ∷ rows) h = rw (new_slot-IsValidRow r h.0) (rw (load-valid rows h.1))

-- Rows of different keys.
abbrev pub IsDistinct : ScheduledCheckSlot → ScheduledCheckSlot → Type 0
IsDistinct r s = has_identity r.identity s ≡ false

pub update-Zip :
    (R : ScheduledCheckSlot → ScheduledCheckSlot → Type 0) (p : ScheduledCheckSlot → Bool)
    (f : ScheduledCheckSlot → ScheduledCheckSlot) (rows : List ScheduledCheckSlot)
    → All (λ r. (p r ≡ false → R r r) × (p r ≡ true → R r (f r))) rows
    → Zip R rows (update p f rows)
unfolding update
update-Zip R p f [] h = tt
update-Zip R p f (r ∷ rows) h = elim (Bool-cases (p r)) [
  | inl e ↦ rw e (h.0.1 e, update-Zip R p f rows h.1)
  | inr e ↦ rw e (h.0.0 e, update-Zip R p f rows h.1)
]

module _ (before : ScheduledCheckSlot → ScheduledCheckSlot → Bool) where
  pub All-insert_by :
      (P : ScheduledCheckSlot → Type 0) (r : ScheduledCheckSlot) (rows : List ScheduledCheckSlot)
      → P r
      → All P rows
      → All P (insert_by before r rows)
  unfolding insert_by
  All-insert_by P r [] h k = (h, tt)
  All-insert_by P r (s ∷ rows) h k = elim (Bool-cases (before s r)) [
    | inl e ↦ rw e (k.0, All-insert_by P r rows h k.1)
    | inr e ↦ rw e (h, k)
  ]

  pub All-sort_by :
      (P : ScheduledCheckSlot → Type 0) (rows : List ScheduledCheckSlot)
      → All P rows
      → All P (sort_by before rows)
  unfolding sort_by
  All-sort_by P [] h = tt
  All-sort_by P (r ∷ rows) h = All-insert_by P r (sort_by before rows) h.0 (All-sort_by P rows h.1)

  Memᴰ-insert_by_self :
      (r : ScheduledCheckSlot) (rows : List ScheduledCheckSlot) → Memᴰ r (insert_by before r rows)
  unfolding insert_by
  Memᴰ-insert_by_self r [] = Memᴰ.head refl
  Memᴰ-insert_by_self r (s ∷ rows) = elim (Bool-cases (before s r)) [
    | inl e ↦ rw e (Memᴰ.tail (Memᴰ-insert_by_self r rows))
    | inr e ↦ rw e (Memᴰ.head refl)
  ]

  Memᴰ-insert_by :
      (r : ScheduledCheckSlot) (rows : List ScheduledCheckSlot) {a : ScheduledCheckSlot}
      → Memᴰ a rows
      → Memᴰ a (insert_by before r rows)
  unfolding insert_by
  Memᴰ-insert_by r [] m = elim m [ ]
  Memᴰ-insert_by r (s ∷ rows) (Memᴰ.head q) = elim (Bool-cases (before s r)) [
    | inl e ↦ rw e (Memᴰ.head q)
    | inr e ↦ rw e (Memᴰ.tail (Memᴰ.head q))
  ]
  Memᴰ-insert_by r (s ∷ rows) (Memᴰ.tail m) = elim (Bool-cases (before s r)) [
    | inl e ↦ rw e (Memᴰ.tail (Memᴰ-insert_by r rows m))
    | inr e ↦ rw e (Memᴰ.tail (Memᴰ.tail m))
  ]

  pub Memᴰ-sort_by :
      (rows : List ScheduledCheckSlot) {a : ScheduledCheckSlot}
      → Memᴰ a rows
      → Memᴰ a (sort_by before rows)
  unfolding sort_by
  Memᴰ-sort_by [] m = elim m [ ]
  Memᴰ-sort_by (r ∷ rows) {a} (Memᴰ.head e) = rw e (Memᴰ-insert_by_self r (sort_by before rows))
  Memᴰ-sort_by (r ∷ rows) (Memᴰ.tail m) =
      Memᴰ-insert_by r (sort_by before rows) (Memᴰ-sort_by rows m)
