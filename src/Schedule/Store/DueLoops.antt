-- ===== src/Schedule/Store/DueLoops.antt =====
-- The two loops of `prepare_due` (src/booksaver/infrastructure/persistence/scheduled_check_slots.py):
-- `miss_all` over the superseded rows and `offer` over the kept ones.
use mathlib.Core.List.{Memᴰ}
use mathlib.Core.Path.{subst, subst₂}
use booksaver_agent.Schedule.Store.DueChoice.{IsDistinct-symm}
use booksaver_agent.Base.{ℕ, ◌≡◌, refl, sym, ap, ◌∙◌, List, [], ◌∷◌, All, ok, Result, >>=-eq-ok}
use booksaver_agent.Base.Pairs.{Zip, Zip-trans, Zip-refl, All-weaken, All-×, Pairwise}
use booksaver_agent.Schedule.Slot.{MissReason, ScheduledCheckSlot, new_slot}
use booksaver_agent.Schedule.Store.Rows.{latest_started}
use booksaver_agent.Schedule.Store.RowLaws.{IsValidRow, IsDistinct, IsValidRow-new_slot}
use booksaver_agent.Schedule.Store.Lifecycle.{
  SameStart, SameStart-trans, SameStart-refl, Evolves, Evolves-refl, Evolves-trans,
}
use booksaver_agent.Schedule.Store.Sound.{
  IsSound, IsDueKey, IsDueKey-Follows, Zip-Follows, Evolves-IsSound,
}
use booksaver_agent.Schedule.Store.Due.{
  Spacing, claimable, conflict, wait, judge, miss_planned_row, miss_all, offer, rows_after,
  offered_after,
}
use booksaver_agent.Schedule.Store.DueRows.{
  miss_planned_row-Zip, IsClosedKey, IsClosedKey-Follows, miss_planned_row-IsClosedKey,
  Memᴰ-miss_planned_row, latest_started-SameStart, miss_planned_row-SameStart,
}

-- What a list of misses leaves: sound rows that follow, the starts, and closed keys.
pub record IsMissed (rows rows' : List ScheduledCheckSlot) : Type 0 where
  pub evolved : Zip Evolves rows rows'
  pub same_starts : Zip SameStart rows rows'

pub IsMissed-refl : (rows : List ScheduledCheckSlot) → IsMissed rows rows
IsMissed-refl rows = record {
  evolved = Zip-refl Evolves rows Evolves-refl;
  same_starts = Zip-refl SameStart rows SameStart-refl;
}

pub IsMissed-trans : (a b c : List ScheduledCheckSlot) → IsMissed a b → IsMissed b c → IsMissed a c
IsMissed-trans a b c p q = record {
  evolved = Zip-trans Evolves a b c Evolves-trans p.evolved q.evolved;
  same_starts = Zip-trans SameStart a b c SameStart-trans p.same_starts q.same_starts;
}

miss_one :
    (now : ℕ) (reason : MissReason) (row : ScheduledCheckSlot) (rows : List ScheduledCheckSlot)
    → IsDueKey now rows row
    → IsMissed rows (miss_planned_row now reason row rows)
miss_one now reason row rows due = record {
  evolved = miss_planned_row-Zip now reason row rows due;
  same_starts = miss_planned_row-SameStart now reason row rows;
}

pub due_keys_follow :
    (now : ℕ) (rows rows' todo : List ScheduledCheckSlot)
    → All IsValidRow rows
    → Zip Evolves rows rows'
    → All (IsDueKey now rows) todo
    → All (IsDueKey now rows') todo
due_keys_follow now rows rows' todo v z h =
    All-weaken (IsDueKey now rows) (IsDueKey now rows') todo
      (λ row k. IsDueKey-Follows now rows rows' row (Zip-Follows rows rows' v z) k) h

pub miss_all-IsMissed :
    (now : ℕ) (reason : MissReason) (todo rows : List ScheduledCheckSlot)
    → IsSound rows
    → All (IsDueKey now rows) todo
    → IsMissed rows (miss_all now reason todo rows)
      × All (IsClosedKey (miss_all now reason todo rows)) todo
unfolding miss_all
miss_all-IsMissed now reason [] rows sound due = (IsMissed-refl rows, tt)
miss_all-IsMissed now reason (row ∷ todo) rows sound due =
    let first = miss_planned_row now reason row rows in
    let one = miss_one now reason row rows due.0 in
    let sound' = Evolves-IsSound rows first sound one.evolved in
    let (more, closed) =
      miss_all-IsMissed now reason todo first sound'
        (due_keys_follow now rows first todo sound.valid one.evolved due.1) in
    let last = miss_all now reason todo first in
    (
      IsMissed-trans rows first last one more,
      (
        IsClosedKey-Follows first last row (Zip-Follows first last sound'.valid more.evolved)
            (miss_planned_row-IsClosedKey now reason row rows),
        closed,
      ),
    )

pub Memᴰ-miss_all :
    (now : ℕ) (reason : MissReason) (todo rows : List ScheduledCheckSlot) {s : ScheduledCheckSlot}
    → All (λ row. IsDistinct row s) todo
    → Memᴰ s rows
    → Memᴰ s (miss_all now reason todo rows)
unfolding miss_all
Memᴰ-miss_all now reason [] rows d m = m
Memᴰ-miss_all now reason (row ∷ todo) rows d m =
    Memᴰ-miss_all now reason todo (miss_planned_row now reason row rows) d.1
      (Memᴰ-miss_planned_row now reason row rows d.0 m)

pub ok-pair :
    {A B : Type 0} {a c : A} {b d : B}
    → ◌≡◌ {A = Result (A × B)} (ok (a, b)) (ok (c, d))
    → (a ≡ c) × (b ≡ d)
ok-pair h = (cc, cc)

-- One round of the offering loop.
offer-cons :
    (now grace spacing : ℕ) (row : ScheduledCheckSlot)
    (newest rows rows' offered : List ScheduledCheckSlot)
    → offer now grace spacing (row ∷ newest) rows ≡ ok (rows', offered)
    → let verdict = judge now grace spacing row (latest_started row.user_id rows) in
      (rest : List ScheduledCheckSlot) × (offer now grace spacing newest
          (rows_after verdict now row rows)
        ≡ ok (rows', rest))
      × (offered ≡ offered_after verdict row rest)
unfolding offer
offer-cons now grace spacing row newest rows rows' offered h =
    let (slot, loaded, more) = >>=-eq-ok (new_slot row) _ h in
    let (same, _) = IsValidRow-new_slot row slot loaded in
    let more' = rw same at more in
    let ((rest_rows, rest), others, joined) =
      >>=-eq-ok
        (offer now grace spacing newest
          (rows_after (judge now grace spacing row (latest_started row.user_id rows)) now row rows))
        _ more' in
    let (same_rows, same_offers) = ok-pair joined in
    (rest, others ∙ ap (λ x. ok (x, rest)) same_rows, sym same_offers)

-- What the offering loop leaves, and what it offers.
pub record IsOffer (now grace spacing : ℕ) (newest rows rows' offered : List ScheduledCheckSlot)
    : Type 0 where
  pub missed : IsMissed rows rows'
  pub offers :
      All
        (λ s.
          Memᴰ s newest
          × Memᴰ s rows'
          × (judge now grace spacing s (latest_started s.user_id rows') ≡ claimable))
        offered

rows_after-IsMissed :
    (verdict : Spacing) (now : ℕ) (row : ScheduledCheckSlot) (rows : List ScheduledCheckSlot)
    → IsDueKey now rows row
    → IsMissed rows (rows_after verdict now row rows)
rows_after-IsMissed conflict now row rows due =
    miss_one now MissReason.spacing_conflict row rows due
rows_after-IsMissed claimable now row rows due = IsMissed-refl rows
rows_after-IsMissed wait now row rows due = IsMissed-refl rows

Memᴰ-rows_after :
    (verdict : Spacing) (now : ℕ) (row : ScheduledCheckSlot) (rows : List ScheduledCheckSlot)
    {s : ScheduledCheckSlot}
    → IsDistinct row s
    → Memᴰ s rows
    → Memᴰ s (rows_after verdict now row rows)
Memᴰ-rows_after conflict now row rows d m =
    Memᴰ-miss_planned_row now MissReason.spacing_conflict row rows d m
Memᴰ-rows_after claimable now row rows d m = m
Memᴰ-rows_after wait now row rows d m = m

Memᴰ-offer :
    (now grace spacing : ℕ) (newest rows rows' offered : List ScheduledCheckSlot)
    {s : ScheduledCheckSlot}
    → All (λ row. IsDistinct row s) newest
    → Memᴰ s rows
    → offer now grace spacing newest rows ≡ ok (rows', offered)
    → Memᴰ s rows'
unfolding offer
Memᴰ-offer now grace spacing [] rows rows' offered {s} d m h = subst (Memᴰ s) (ok-pair h).0 m
Memᴰ-offer now grace spacing (row ∷ newest) rows rows' offered {s} d m h =
    let (rest, more, _) = offer-cons now grace spacing row newest rows rows' offered h in
    let verdict = judge now grace spacing row (latest_started row.user_id rows) in
    Memᴰ-offer now grace spacing newest (rows_after verdict now row rows) rows' rest {s = s} d.1
      (Memᴰ-rows_after verdict now row rows d.0 m) more

abbrev Offerable :
    ℕ → ℕ → ℕ → List ScheduledCheckSlot → List ScheduledCheckSlot → ScheduledCheckSlot → Type 0
Offerable now grace spacing newest rows' s =
    Memᴰ s newest
    × Memᴰ s rows'
    × (judge now grace spacing s (latest_started s.user_id rows') ≡ claimable)

offered_after-Offerable :
    (now grace spacing : ℕ) (row : ScheduledCheckSlot) (newest rows' rest : List ScheduledCheckSlot)
    (verdict : Spacing)
    → (verdict ≡ claimable → Offerable now grace spacing (row ∷ newest) rows' row)
    → All (Offerable now grace spacing newest rows') rest
    → All (Offerable now grace spacing (row ∷ newest) rows') (offered_after verdict row rest)
offered_after-Offerable now grace spacing row newest rows' rest verdict first others =
    by_verdict verdict first (
      All-weaken (Offerable now grace spacing newest rows')
        (Offerable now grace spacing (row ∷ newest) rows') rest (λ s k. (Memᴰ.tail k.0, k.1, k.2))
        others)
  where
    by_verdict :
        (v : Spacing)
        → (v ≡ claimable → Offerable now grace spacing (row ∷ newest) rows' row)
        → All (Offerable now grace spacing (row ∷ newest) rows') rest
        → All (Offerable now grace spacing (row ∷ newest) rows') (offered_after v row rest)
    by_verdict claimable f k = (f refl, k)
    by_verdict conflict f k = k
    by_verdict wait f k = k

-- The offering loop over sound rows: the rows that it offers are among the kept ones, are still
-- in the table, and pass the spacing test there.
pub offer-IsOffer :
    (now grace spacing : ℕ) (newest rows rows' offered : List ScheduledCheckSlot)
    → IsSound rows
    → All (IsDueKey now rows) newest
    → All (λ s. Memᴰ s rows) newest
    → Pairwise IsDistinct newest
    → offer now grace spacing newest rows ≡ ok (rows', offered)
    → IsOffer now grace spacing newest rows rows' offered
unfolding offer
offer-IsOffer now grace spacing [] rows rows' offered sound due here distinct h =
    let (same_rows, same_offers) = ok-pair h in
    subst₂ (IsOffer now grace spacing [] rows) same_rows same_offers
      (record { missed = IsMissed-refl rows; offers = tt })
offer-IsOffer now grace spacing (row ∷ newest) rows rows' offered sound due here distinct h =
    let (rest, more, joined) = offer-cons now grace spacing row newest rows rows' offered h in
    let verdict = judge now grace spacing row (latest_started row.user_id rows) in
    let next = rows_after verdict now row rows in
    let one = rows_after-IsMissed verdict now row rows due.0 in
    let sound' = Evolves-IsSound rows next sound one.evolved in
    let here' =
      All-weaken (λ s. IsDistinct row s × Memᴰ s rows) (λ s. Memᴰ s next) newest
        (λ s k. Memᴰ-rows_after verdict now row rows k.0 k.1)
        (All-× (IsDistinct row) (λ s. Memᴰ s rows) newest distinct.0 here.1) in
    let others =
      offer-IsOffer now grace spacing newest next rows' rest sound'
        (due_keys_follow now rows next newest sound.valid one.evolved due.1) here' distinct.1
        more in
    let missed = IsMissed-trans rows next rows' one others.missed in
    record {
      missed = missed;
      offers = subst (All (Offerable now grace spacing (row ∷ newest) rows')) (sym joined) (
          offered_after-Offerable now grace spacing row newest rows' rest verdict
            (λ e. (
              Memᴰ.head refl,
              Memᴰ-offer now grace spacing newest next rows' rest
                  (All-weaken (IsDistinct row) (λ s. IsDistinct s row) newest
                    (λ s k. IsDistinct-symm row s k) distinct.0)
                  (subst (λ v. Memᴰ row (rows_after v now row rows)) (sym e) here.0) more,
              rw (latest_started-SameStart row.user_id rows rows' missed.same_starts) e,
            ))
            others.offers);
    }
