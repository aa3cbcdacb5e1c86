-- ===== src/Schedule/Store/Sound.antt =====
-- The invariant of the table's rows, and how it passes through row-by-row updates.
use mathlib.Core.List.{Memᴰ}
use booksaver_agent.Base.{ℕ, ◌≤◌, ◌≡◌, sym, true, false, List, [], ◌∷◌, arith, All}
use booksaver_agent.Base.Pairs.{Zip, All-Zip, All-weaken, Pairwise, Pairwise-Zip, All-mem}
use booksaver_agent.Schedule.Slot.{ScheduledCheckSlot}
use booksaver_agent.Schedule.Store.Rows.{has_identity}
use booksaver_agent.Schedule.Store.RowLaws.{IsValidRow, IsDistinct}
use booksaver_agent.Schedule.Store.Lifecycle.{Follows, Evolves}

-- Every row would load, and no key stands twice.
pub record IsSound (rows : List ScheduledCheckSlot) : Type 0 where
  pub valid : All IsValidRow rows
  pub distinct : Pairwise IsDistinct rows

pub Zip-Follows :
    (rows rows' : List ScheduledCheckSlot)
    → All IsValidRow rows
    → Zip Evolves rows rows'
    → Zip Follows rows rows'
Zip-Follows [] [] v z = tt
Zip-Follows (r ∷ rows) (r' ∷ rows') v z = ((z.0 v.0).0, Zip-Follows rows rows' v.1 z.1)
Zip-Follows [] (r' ∷ rows') v z = absurd z
Zip-Follows (r ∷ rows) [] v z = absurd z

same_keys-IsDistinct :
    (r r' s s' : ScheduledCheckSlot)
    → Follows r r'
    → Follows s s'
    → IsDistinct r s
    → IsDistinct r' s'
same_keys-IsDistinct r r' s s' f g d = rw (f.same_key) (rw (g.same_key) d)

pub Evolves-IsSound :
    (rows rows' : List ScheduledCheckSlot) → IsSound rows → Zip Evolves rows rows' → IsSound rows'
Evolves-IsSound rows rows' h z = record {
  valid = All-Zip Evolves IsValidRow IsValidRow rows rows' (λ r r' e v. (e v).1) z h.valid;
  distinct =
      Pairwise-Zip Follows IsDistinct IsDistinct rows rows' same_keys-IsDistinct
        (Zip-Follows rows rows' h.valid z) h.distinct;
}

-- Of rows with different keys, only the row itself has its key.
pub key_of :
    (rows : List ScheduledCheckSlot) (row : ScheduledCheckSlot)
    → Pairwise IsDistinct rows
    → Memᴰ row rows
    → All (λ r. has_identity row.identity r ≡ true → r ≡ row) rows
key_of [] row d m = elim m [ ]
key_of (x ∷ rows) row d (Memᴰ.head e) = (
  λ h. sym e,
  All-weaken (IsDistinct x) (λ r. has_identity row.identity r ≡ true → r ≡ row) rows
      (λ r k h. let h' : has_identity x.identity r ≡ true = rw (← e) h in cc (h', k)) d.0,
)
key_of (x ∷ rows) row d (Memᴰ.tail m) = (
  λ h. absurd (has_identity_symm row x h (All-mem (IsDistinct x) rows d.0 m)),
  key_of rows row d.1 m,
)
  where
    has_identity_symm :
        (r s : ScheduledCheckSlot)
        → has_identity r.identity s ≡ true
        → has_identity s.identity r ≡ false
        → ⊥
    has_identity_symm r s h k = ground arith

-- Whatever row has the key of `row` is due by `now`.
abbrev pub IsDueKey : ℕ → List ScheduledCheckSlot → ScheduledCheckSlot → Type 0
IsDueKey now rows row = All (λ r. has_identity row.identity r ≡ true → r.planned_at ≤ now) rows

pub IsDueKey-mem :
    (now : ℕ) (rows : List ScheduledCheckSlot) (row : ScheduledCheckSlot)
    → Pairwise IsDistinct rows
    → Memᴰ row rows
    → row.planned_at ≤ now
    → IsDueKey now rows row
IsDueKey-mem now rows row d m h =
    All-weaken (λ r. has_identity row.identity r ≡ true → r ≡ row)
      (λ r. has_identity row.identity r ≡ true → r.planned_at ≤ now) rows (λ r k e. rw (k e) h)
      (key_of rows row d m)

pub IsDueKey-Follows :
    (now : ℕ) (rows rows' : List ScheduledCheckSlot) (row : ScheduledCheckSlot)
    → Zip Follows rows rows'
    → IsDueKey now rows row
    → IsDueKey now rows' row
IsDueKey-Follows now rows rows' row z h =
    All-Zip Follows (λ r. has_identity row.identity r ≡ true → r.planned_at ≤ now)
      (λ r. has_identity row.identity r ≡ true → r.planned_at ≤ now) rows rows'
      (λ r r' f k e.
        let e' : has_identity row.identity r ≡ true = rw (← f.same_key) e in
        rw (f.same_plan) (k e'))
      z h
