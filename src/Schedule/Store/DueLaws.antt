-- ===== src/Schedule/Store/DueLaws.antt =====
-- `prepare_due` as a whole (src/booksaver/infrastructure/persistence/scheduled_check_slots.py).
use mathlib.Core.List.{Memᴰ}
use mathlib.Core.Path.{subst}
use booksaver_agent.Base.{
  ℕ, ◌-◌, ◌≤◌, ◌<◌, ◌≡◌, refl, sym, ap, ◌∙◌, inl, inr, true, false, Bool-cases, Option, none, some,
  List, [], ◌∷◌, arith, All, ltb, leb, ok, Result, any, filter, ◌>>=◌, >>=-eq-ok, ◌>>◌, raise_if,
  value_error, overflow_error,
}
use booksaver_agent.Base.Pairs.{
  Zip, Zip-trans, All-Zip, All-weaken, All-×, All-filter, All-filter_test, Memᴰ-filter, All-mem',
  Pairwise, Pairwise-filter, All-mem, All-of_mem,
}
use booksaver_agent.Schedule.Slot.{MissReason, ScheduledCheckSlot}
use booksaver_agent.Schedule.Store.Rows.{Table, has_identity, is_planned, latest_started, sort_by}
use booksaver_agent.Schedule.Store.RowLaws.{IsDistinct, All-sort_by, Memᴰ-sort_by}
use booksaver_agent.Schedule.Store.Lifecycle.{
  SameStart, SameStart-trans, Follows, Evolves, Evolves-trans,
}
use booksaver_agent.Schedule.Store.Sound.{
  IsSound, IsDueKey, IsDueKey-mem, Zip-Follows, Evolves-IsSound,
}
use booksaver_agent.Schedule.Store.Due.{
  claimable, judge, by_user_newest, by_time, is_due, miss_all, split_newest, offer, close_stale,
  due_rows, prepare_due,
}
use booksaver_agent.Schedule.Store.DueRows.{
  close_stale-Zip, close_stale-SameStart, IsClosedKey, IsClosedKey-Follows,
}
use booksaver_agent.Schedule.Store.DueChoice.{
  Pairwise-sort_by, IsDistinct-symm, All-split_newest, Memᴰ-split_newest, OtherUser,
  split_newest-OtherUser, Pairwise-split_newest, split_newest-cross,
}
use booksaver_agent.Schedule.Store.DueLoops.{
  IsMissed, IsOffer, miss_all-IsMissed, Memᴰ-miss_all, due_keys_follow, offer-IsOffer, ok-pair,
}
use booksaver_agent.Schedule.Store.Claim.{is_newer_due, too_soon}
use booksaver_agent.Schedule.Store.ClaimLaws.{IsClaim}

self_identity : (r : ScheduledCheckSlot) → has_identity r.identity r ≡ true
self_identity r = ground arith

same_kept :
    (rows : List ScheduledCheckSlot) (s r : ScheduledCheckSlot)
    → Pairwise OtherUser rows
    → Memᴰ s rows
    → Memᴰ r rows
    → s.user_id ≡ r.user_id
    → s ≡ r
same_kept [] s r d m n e = elim m [ ]
same_kept (x ∷ rows) s r d (Memᴰ.head p) (Memᴰ.head q) e = cc (p, q)
same_kept (x ∷ rows) s r d (Memᴰ.head p) (Memᴰ.tail n) e =
    let other = All-mem (OtherUser x) rows d.0 n in
    absurd (ground (arith, ap (λ (u : ScheduledCheckSlot). u.user_id) p, other, e))
same_kept (x ∷ rows) s r d (Memᴰ.tail m) (Memᴰ.head q) e =
    let other = All-mem (OtherUser x) rows d.0 m in
    absurd (ground (arith, ap (λ (u : ScheduledCheckSlot). u.user_id) q, other, e))
same_kept (x ∷ rows) s r d (Memᴰ.tail m) (Memᴰ.tail n) e = same_kept rows s r d.1 m n e

not_newer_self : (cutoff now : ℕ) (r : ScheduledCheckSlot) → is_newer_due cutoff now r r ≡ true → ⊥
not_newer_self cutoff now r h = ground arith

none_newer :
    (cutoff now : ℕ) (s : ScheduledCheckSlot) (rows : List ScheduledCheckSlot)
    → All (λ r. is_newer_due cutoff now s r ≡ false) rows
    → any (is_newer_due cutoff now s) rows ≡ false
none_newer cutoff now s [] h = refl
none_newer cutoff now s (r ∷ rows) h = rw h.0 (none_newer cutoff now s rows h.1)

claimable_spaced :
    (now grace spacing : ℕ) (s : ScheduledCheckSlot) (latest : Option ℕ)
    → judge now grace spacing s latest ≡ claimable
    → too_soon now spacing latest ≡ false
unfolding judge
claimable_spaced now grace spacing s none h = refl
claimable_spaced now grace spacing s (some l) h = ground arith

module _ (now grace spacing : ℕ) (t : Table) where
  abbrev pub closed_rows : List ScheduledCheckSlot
  closed_rows = close_stale t.active now (now - grace) t.rows

  abbrev pub due : List ScheduledCheckSlot
  due = due_rows t.active (now - grace) now closed_rows

  abbrev pub kept : List ScheduledCheckSlot
  kept = (split_newest [] due).0

  abbrev pub superseded : List ScheduledCheckSlot
  superseded = (split_newest [] due).1

  abbrev pub missed_rows : List ScheduledCheckSlot
  missed_rows = miss_all now MissReason.superseded_catch_up superseded closed_rows

  abbrev prepared :
      List ScheduledCheckSlot × List ScheduledCheckSlot → Result (Table × List ScheduledCheckSlot)
  prepared offered = ok (record t { rows = offered.0 }, sort_by by_time offered.1)

  prepare_due_lem : prepare_due now grace spacing t ≡ (
      raise_if (leb grace 0) value_error
      >> (raise_if (leb spacing 0) value_error
          >> (raise_if (ltb now grace) overflow_error
              >> (offer now grace spacing kept missed_rows >>= prepared))))
  unfolding prepare_due
  prepare_due_lem = refl

  prepare_due_guards :
      (rest r : Result (Table × List ScheduledCheckSlot)) {x : Table × List ScheduledCheckSlot}
      → r ≡ (
          raise_if (leb grace 0) value_error
          >> (raise_if (leb spacing 0) value_error
              >> (raise_if (ltb now grace) overflow_error >> rest)))
      → r ≡ ok x
      → (0 < grace) × (0 < spacing) × (grace ≤ now) × (rest ≡ ok x)
  prepare_due_guards rest r e h = ground arith

  -- A call that returns has passed its guards and the offering loop.
  pub prepare_due_cases :
      (t' : Table) (slots : List ScheduledCheckSlot)
      → prepare_due now grace spacing t ≡ ok (t', slots)
      → (0 < grace)
        × (0 < spacing)
        × (grace ≤ now)
        × ((offered : List ScheduledCheckSlot) × (offer now grace spacing kept missed_rows
              ≡ ok (t'.rows, offered))
            × (slots ≡ sort_by by_time offered)
            × (t'.active ≡ t.active))
  prepare_due_cases t' slots h =
      let (g, s, past, body) =
        prepare_due_guards (offer now grace spacing kept missed_rows >>= prepared)
          (prepare_due now grace spacing t) prepare_due_lem h in
      let ((rows, offered), offers, joined) =
        >>=-eq-ok (offer now grace spacing kept missed_rows) prepared body in
      let (same_table, same_slots) = ok-pair joined in
      (
        g,
        s,
        past,
        (
          offered,
          offers ∙ ap (λ (u : Table). ok (u.rows, offered)) same_table,
          sym same_slots,
          ap (λ (u : Table). u.active) (sym same_table),
        ),
      )

  module _ (past : grace ≤ now) (sound : IsSound t.rows) where
    closed-IsSound : IsSound closed_rows
    closed-IsSound =
        Evolves-IsSound t.rows closed_rows sound
          (close_stale-Zip t.active now (now - grace) t.rows (omega arith))

    -- Each due row is in the table and passes the test.
    due_members : All (λ r. Memᴰ r closed_rows × (is_due t.active (now - grace) now r ≡ true)) due
    unfolding due_rows
    due_members =
        All-sort_by by_user_newest _ (filter (is_due t.active (now - grace) now) closed_rows) (
          All-× (λ r. Memᴰ r closed_rows) (λ r. is_due t.active (now - grace) now r ≡ true)
            (filter (is_due t.active (now - grace) now) closed_rows)
            (All-filter (λ r. Memᴰ r closed_rows) (is_due t.active (now - grace) now) closed_rows
              (All-mem' closed_rows))
            (All-filter_test (is_due t.active (now - grace) now) closed_rows))

    due-IsDistinct : Pairwise IsDistinct due
    unfolding due_rows
    due-IsDistinct =
        Pairwise-sort_by by_user_newest IsDistinct IsDistinct-symm
          (filter (is_due t.active (now - grace) now) closed_rows)
          (Pairwise-filter IsDistinct (is_due t.active (now - grace) now) closed_rows
            closed-IsSound.distinct)

    due_keys : All (IsDueKey now closed_rows) due
    due_keys =
        All-weaken (λ r. Memᴰ r closed_rows × (is_due t.active (now - grace) now r ≡ true))
          (IsDueKey now closed_rows) due
          (λ r k. IsDueKey-mem now closed_rows r closed-IsSound.distinct k.0 (ground (arith, k.1)))
          due_members

    IsMissed-facts : IsMissed closed_rows missed_rows × All (IsClosedKey missed_rows) superseded
    IsMissed-facts =
        miss_all-IsMissed now MissReason.superseded_catch_up superseded closed_rows closed-IsSound
          (All-split_newest (IsDueKey now closed_rows) [] due due_keys).1

    missed-IsSound : IsSound missed_rows
    missed-IsSound = Evolves-IsSound closed_rows missed_rows closed-IsSound IsMissed-facts.0.evolved

    kept_members : All (λ s. Memᴰ s missed_rows) kept
    kept_members =
        All-weaken (λ s. Memᴰ s closed_rows × All (λ r. IsDistinct r s) superseded)
          (λ s. Memᴰ s missed_rows) kept
          (λ s k. Memᴰ-miss_all now MissReason.superseded_catch_up superseded closed_rows k.1 k.0)
          (All-× (λ s. Memᴰ s closed_rows) (λ s. All (λ r. IsDistinct r s) superseded) kept
            (All-weaken _ (λ s. Memᴰ s closed_rows) kept (λ s k. k.0)
              (All-split_newest
                (λ r. Memᴰ r closed_rows × (is_due t.active (now - grace) now r ≡ true)) [] due
                due_members).0)
            (split_newest-cross IsDistinct IsDistinct-symm [] due due-IsDistinct))

    pub kept-offer :
        (rows' offered : List ScheduledCheckSlot)
        → offer now grace spacing kept missed_rows ≡ ok (rows', offered)
        → IsOffer now grace spacing kept missed_rows rows' offered
    kept-offer rows' offered h =
        offer-IsOffer now grace spacing kept missed_rows rows' offered missed-IsSound
          (due_keys_follow now closed_rows missed_rows kept closed-IsSound.valid
            IsMissed-facts.0.evolved
            (All-split_newest (IsDueKey now closed_rows) [] due due_keys).0)
          kept_members (Pairwise-split_newest IsDistinct [] due due-IsDistinct) h

    -- How the whole call changes the rows.
    pub offered_rows :
        (rows' offered : List ScheduledCheckSlot)
        → offer now grace spacing kept missed_rows ≡ ok (rows', offered)
        → Zip Evolves t.rows rows'
    offered_rows rows' offered h =
        Zip-trans Evolves t.rows closed_rows rows' Evolves-trans
          (close_stale-Zip t.active now (now - grace) t.rows (omega arith))
          (Zip-trans Evolves closed_rows missed_rows rows' Evolves-trans IsMissed-facts.0.evolved
            (kept-offer rows' offered h).missed.evolved)

    due_member :
        (r : ScheduledCheckSlot)
        → Memᴰ r closed_rows
        → is_due t.active (now - grace) now r ≡ true
        → Memᴰ r due
    unfolding due_rows
    due_member r m h =
        Memᴰ-sort_by by_user_newest (filter (is_due t.active (now - grace) now) closed_rows)
          (Memᴰ-filter (is_due t.active (now - grace) now) closed_rows m h)

    -- Where a row of the result comes from, and that a superseded key is closed there.
    abbrev Traced : ScheduledCheckSlot → Type 0
    Traced r' =
        ((r : ScheduledCheckSlot) × Memᴰ r closed_rows × Follows r r')
        × ((row : ScheduledCheckSlot)
            → Memᴰ row superseded
            → has_identity row.identity r' ≡ true
            → is_planned r'.status ≡ false)

    traced :
        (rows' offered : List ScheduledCheckSlot)
        → offer now grace spacing kept missed_rows ≡ ok (rows', offered)
        → All Traced rows'
    traced rows' offered h =
        let after = (kept-offer rows' offered h).missed.evolved in
        let whole =
          Zip-trans Evolves closed_rows missed_rows rows' Evolves-trans IsMissed-facts.0.evolved
            after in
        All-× (λ r'. (r : ScheduledCheckSlot) × Memᴰ r closed_rows × Follows r r') _ rows'
          (All-Zip Follows (λ r. Memᴰ r closed_rows)
            (λ r'. (r : ScheduledCheckSlot) × Memᴰ r closed_rows × Follows r r') closed_rows rows'
            (λ r r' f m. (r, m, f)) (Zip-Follows closed_rows rows' closed-IsSound.valid whole)
            (All-mem' closed_rows))
          (All-of_mem _ rows' (λ r' m' row m e.
            All-mem (λ r. has_identity row.identity r ≡ true → is_planned r.status ≡ false) rows'
              (IsClosedKey-Follows missed_rows rows' row
                (Zip-Follows missed_rows rows' missed-IsSound.valid after)
                (All-mem (IsClosedKey missed_rows) superseded IsMissed-facts.1 m))
              m' e))

    -- Beside an offered row no other planned row of its user is due.
    not_newer :
        (s r' : ScheduledCheckSlot)
        → Memᴰ s kept
        → is_due t.active (now - grace) now s ≡ true
        → Traced r'
        → is_newer_due (now - grace) now s r' ≡ false
    not_newer s r' m d (origin, closed) = elim (Bool-cases (is_newer_due (now - grace) now s r')) [
      | inr older ↦ older
      | inl newer ↦
          let unchanged : r' ≡ origin.0 = origin.2.not_replanned (ground (arith, newer)) in
          let member : Memᴰ r' closed_rows = rw unchanged origin.1 in
          let is_due_too : is_due t.active (now - grace) now r' ≡ true = due_too s r' newer d in
          elim (Memᴰ-split_newest [] due (due_member r' member is_due_too)) [
            | inl also ↦
                let same =
                  same_kept kept s r' (split_newest-OtherUser [] due) m also
                    (ground (arith, newer)) in
                absurd (
                  not_newer_self (now - grace) now r'
                    (subst (λ x. is_newer_due (now - grace) now x r' ≡ true) same newer))
            | inr gone ↦
                let no_plan = closed r' gone (self_identity r') in ground (arith, newer, no_plan)
          ]
    ]
      where
        due_too :
            (a b : ScheduledCheckSlot)
            → is_newer_due (now - grace) now a b ≡ true
            → is_due t.active (now - grace) now a ≡ true
            → is_due t.active (now - grace) now b ≡ true
        due_too a b h k =
            let same : b.user_id ≡ a.user_id = ground (arith, h) in
            let up : t.active a.user_id ≡ true = ground (arith, k) in
            let up' : t.active b.user_id ≡ true = rw same up in ground (arith, h, up')

    -- What an offered row is worth in the table that the call leaves.
    pub offer-IsClaim :
        (rows' offered : List ScheduledCheckSlot)
        → offer now grace spacing kept missed_rows ≡ ok (rows', offered)
        → All
            (λ s. IsClaim s.identity now (now - grace) spacing (record t { rows = rows' }) s)
            offered
    offer-IsClaim rows' offered h =
        All-weaken _ _ offered
          (λ s k.
            let d = (All-mem _ kept kept_due k.0) in
            record {
              in_table = k.1;
              of_key = self_identity s;
              due = d;
              newest = none_newer (now - grace) now s rows' (
                  All-weaken Traced (λ r'. is_newer_due (now - grace) now s r' ≡ false) rows'
                    (λ r' q. not_newer s r' k.0 d q) (traced rows' offered h));
              spaced = claimable_spaced now grace spacing s (latest_started s.user_id rows') k.2;
            })
          (kept-offer rows' offered h).offers
      where
        kept_due : All (λ s. is_due t.active (now - grace) now s ≡ true) kept
        kept_due =
            All-weaken (λ r. Memᴰ r closed_rows × (is_due t.active (now - grace) now r ≡ true)) _
              kept (λ s k. k.1)
              (All-split_newest
                (λ r. Memᴰ r closed_rows × (is_due t.active (now - grace) now r ≡ true)) [] due
                due_members).0

    -- The call moves no start.
    pub offered_starts :
        (rows' offered : List ScheduledCheckSlot)
        → offer now grace spacing kept missed_rows ≡ ok (rows', offered)
        → Zip SameStart t.rows rows'
    offered_starts rows' offered h =
        Zip-trans SameStart t.rows closed_rows rows' SameStart-trans
          (close_stale-SameStart t.active now (now - grace) t.rows)
          (Zip-trans SameStart closed_rows missed_rows rows' SameStart-trans
            IsMissed-facts.0.same_starts (kept-offer rows' offered h).missed.same_starts)
