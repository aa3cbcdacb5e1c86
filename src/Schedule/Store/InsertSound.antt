-- ===== src/Schedule/Store/InsertSound.antt =====
-- The rows of a newly planned day (src/booksaver/infrastructure/persistence/scheduled_check_slots.py)
-- keep the table sound.
use mathlib.Core.List.{Memᴰ}
use booksaver_agent.Base.{
  ℕ, ◌+◌, ◌≤◌, ◌≡◌, inl, inr, Bool, true, false, not, Bool-cases, List, [], ◌∷◌, arith, All,
  All-append, ok, any, filter, is_nil,
}
use booksaver_agent.Base.Pairs.{
  All-weaken, All-of_mem, Pairwise, Pairwise-append, All-of_each, Memᴰ-filter,
}
use booksaver_agent.Schedule.Slot.{ScheduledCheckSlot}
use booksaver_agent.Schedule.Store.Rows.{Table}
use booksaver_agent.Schedule.Store.RowLaws.{IsValidRow, IsDistinct, Memᴰ-sort_by}
use booksaver_agent.Schedule.Store.Sound.{IsSound}
use booksaver_agent.Schedule.Store.ClaimEffect.{IsApart}
use booksaver_agent.Schedule.Store.Insert.{
  of_day, day_rows, counts_from, is_pristine, insert_daily_schedule,
}
use booksaver_agent.Schedule.Store.InsertLaws.{insert-IsProposed, insert_checked-IsInserted}

counts_from-le :
    (n : ℕ) (slots : List ScheduledCheckSlot)
    → counts_from n slots ≡ true
    → All (λ s. n ≤ s.ordinal) slots
unfolding counts_from
counts_from-le n [] h = tt
counts_from-le n (s ∷ slots) h = (
  ground (arith, h),
  All-weaken (λ r. n + 1 ≤ r.ordinal) (λ r. n ≤ r.ordinal) slots (λ r k. omega arith)
      (counts_from-le (n + 1) slots (ground (arith, h))),
)

counts_from-IsDistinct :
    (n : ℕ) (slots : List ScheduledCheckSlot)
    → counts_from n slots ≡ true
    → Pairwise IsDistinct slots
unfolding counts_from
counts_from-IsDistinct n [] h = tt
counts_from-IsDistinct n (s ∷ slots) h = (
  All-weaken (λ r. n + 1 ≤ r.ordinal) (IsDistinct s) slots
      (λ r k. let e : s.ordinal ≡ n = ground (arith, h) in ground arith)
      (counts_from-le (n + 1) slots (ground (arith, h))),
  counts_from-IsDistinct (n + 1) slots (ground (arith, h)),
)

pub any-false :
    (p : ScheduledCheckSlot → Bool) (slots : List ScheduledCheckSlot)
    → any (λ s. not (p s)) slots ≡ false
    → All (λ s. p s ≡ true) slots
any-false p [] h = tt
any-false p (s ∷ slots) h = (ground (arith, h), any-false p slots (ground (arith, h)))

is_nil-member :
    (rows : List ScheduledCheckSlot) (r : ScheduledCheckSlot) → is_nil rows ≡ true → Memᴰ r rows → ⊥
is_nil-member [] r h m = elim m [ ]
is_nil-member (x ∷ rows) r h m = cc

-- No row of the table is of the day that has none.
fresh_day :
    (user_id date : ℕ) (t : Table)
    → is_nil (day_rows user_id date t) ≡ true
    → All (λ r. of_day user_id date r ≡ false) t.rows
unfolding day_rows
fresh_day user_id date t h =
    All-of_mem (λ r. of_day user_id date r ≡ false) t.rows
      λ r m. elim (Bool-cases (of_day user_id date r)) [
        | inl e ↦ absurd (
            is_nil-member (day_rows user_id date t) r h (
              Memᴰ-sort_by _ (filter (of_day user_id date) t.rows)
                (Memᴰ-filter (of_day user_id date) t.rows m e)))
        | inr e ↦ e
      ]

day_IsDistinct :
    (user_id date : ℕ) (r s : ScheduledCheckSlot)
    → of_day user_id date r ≡ false
    → of_day user_id date s ≡ true
    → IsDistinct r s
day_IsDistinct user_id date r s h k = ground arith

pristine_IsApart :
    (spacing : ℕ) (r s : ScheduledCheckSlot) → is_pristine s ≡ true → IsApart spacing r s
pristine_IsApart spacing r s h same a b ea eb = ground arith

-- A sound table with spaced starts stays so when slots, each of which passed its constructor, are
-- inserted.
pub insert-IsSound :
    (spacing : ℕ) (first : ScheduledCheckSlot) (slots : List ScheduledCheckSlot) (t t' : Table)
    (listed : List ScheduledCheckSlot)
    → All IsValidRow (first ∷ slots)
    → IsSound t.rows
    → Pairwise (IsApart spacing) t.rows
    → insert_daily_schedule (first ∷ slots) t ≡ ok (t', listed)
    → IsSound t'.rows × Pairwise (IsApart spacing) t'.rows
insert-IsSound spacing first slots t t' listed valid sound apart h =
    let (proposed, body) = insert-IsProposed first slots t h in
    elim (insert_checked-IsInserted first slots t t' listed body).change [
      | inl (same, _) ↦ rw same (sound, apart)
      | inr (empty, _, same) ↦
          let fresh = fresh_day first.user_id first.schedule_date t empty in
          let of_the_day =
            any-false (of_day first.user_id first.schedule_date) (first ∷ slots) proposed.one_day in
          let pristine = any-false is_pristine (first ∷ slots) proposed.pristine in
          rw same (
            record {
              valid = All-append IsValidRow t.rows (first ∷ slots) sound.valid valid;
              distinct =
                  Pairwise-append IsDistinct t.rows (first ∷ slots) sound.distinct
                    (counts_from-IsDistinct 0 (first ∷ slots) proposed.counted)
                    (All-weaken (λ r. of_day first.user_id first.schedule_date r ≡ false)
                      (λ r. All (IsDistinct r) (first ∷ slots)) t.rows
                      (λ r k.
                        All-weaken (λ s. of_day first.user_id first.schedule_date s ≡ true)
                          (IsDistinct r) (first ∷ slots)
                          (λ s e. day_IsDistinct first.user_id first.schedule_date r s k e)
                          of_the_day)
                      fresh);
            },
            Pairwise-append (IsApart spacing) t.rows (first ∷ slots) apart
                (all_pairs (first ∷ slots) pristine)
                (All-of_each _ t.rows λ r.
                  All-weaken (λ s. is_pristine s ≡ true) (IsApart spacing r) (first ∷ slots)
                    (λ s k. pristine_IsApart spacing r s k) pristine),
          )
    ]
  where
    all_pairs :
        (xs : List ScheduledCheckSlot)
        → All (λ s. is_pristine s ≡ true) xs
        → Pairwise (IsApart spacing) xs
    all_pairs [] k = tt
    all_pairs (x ∷ xs) k = (
      All-weaken (λ s. is_pristine s ≡ true) (IsApart spacing x) xs
          (λ s e. pristine_IsApart spacing x s e) k.1,
      all_pairs xs k.1,
    )
