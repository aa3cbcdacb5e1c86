-- ===== src/Monitor/Limits/Notices.antt =====
-- The daily notice of src/booksaver/monitor/user_limits.py is given once a day.
use booksaver_agent.Base.{
  ℕ, ◌≡◌, ◌≤◌, ◌<◌, refl, sym, ap, Bool, true, false, List, [], ◌∷◌, ◌==◌, ==_iff, if◌then◌else◌,
  arith, All,
}
use mathlib.Core.Path.{subst}
use booksaver_agent.Monitor.Limits.{
  DailyCounter, store, maybe_roll, increment, count, notice, users_needing_capped_notice,
}

-- The counter after the turn of one user, and who is due in it.
abbrev turn : ℕ → ℕ → DailyCounter → DailyCounter × List ℕ
turn today u c = notice ((count today u c).1 == 0) today u (count today u c).0

rolled_day : (today : ℕ) (c : DailyCounter) → (maybe_roll today c).day ≡ today
unfolding maybe_roll
rolled_day today c = ground arith

rolled-same : (today : ℕ) (c : DailyCounter) → c.day ≡ today → maybe_roll today c ≡ c
unfolding maybe_roll
rolled-same today c h =
    ap (λ b. if b then c else record { day = today; counts = λ _. 0 })
      ((==_iff today c.day).1 (sym h))

notice_counts :
    (b : Bool) (today u : ℕ) (c : DailyCounter)
    → c.day ≡ today
    → (c.counts u == 0) ≡ b
    → ((notice b today u c).0.day ≡ today)
      × (0 < (notice b today u c).0.counts u)
      × ((v : ℕ) → c.counts v ≤ (notice b today u c).0.counts v)
unfolding notice increment store
notice_counts false today u c d e = (d, ground (arith, e), λ v. omega arith)
notice_counts true today u c d e =
    rw (rolled-same today c d) (d, ground (arith, e), λ v. ground (arith, e))

turn_counts :
    (today u : ℕ) (c : DailyCounter)
    → ((turn today u c).0.day ≡ today)
      × (0 < (turn today u c).0.counts u)
      × (c.day ≡ today → (v : ℕ) → c.counts v ≤ (turn today u c).0.counts v)
unfolding count
turn_counts today u c =
    let rolled = maybe_roll today c in
    let (day, own, all_counts) =
      notice_counts (rolled.counts u == 0) today u rolled (rolled_day today c) refl in
    (
      day,
      own,
      λ d v.
          subst (λ x. x.counts v ≤ (turn today u c).0.counts v) (rolled-same today c d)
            (all_counts v),
    )

-- The whole call, on a counter of the day.
call_counts :
    (today : ℕ) (user_ids : List ℕ) (c : DailyCounter)
    → c.day ≡ today
    → ((users_needing_capped_notice today user_ids c).0.day ≡ today)
      × All (λ u. 0 < (users_needing_capped_notice today user_ids c).0.counts u) user_ids
      × ((v : ℕ) → c.counts v ≤ (users_needing_capped_notice today user_ids c).0.counts v)
unfolding users_needing_capped_notice
call_counts today [] c d = (d, tt, λ v. omega arith)
call_counts today (u ∷ user_ids) c d =
    let (day, own, kept) = turn_counts today u c in
    let (last_day, others, grown) = call_counts today user_ids (turn today u c).0 day in
    (last_day, (omega (arith, own, grown u), others), λ v. omega (arith, kept d v, grown v))

call_again :
    (today : ℕ) (user_ids : List ℕ) (c : DailyCounter)
    → c.day ≡ today
    → All (λ u. 0 < c.counts u) user_ids
    → users_needing_capped_notice today user_ids c ≡ (c, [])
unfolding users_needing_capped_notice count notice
call_again today [] c d h = refl
call_again today (u ∷ user_ids) c d h =
    let not_zero : (c.counts u == 0) ≡ false = ground (arith, h.0) in
    rw (rolled-same today c d, not_zero) (call_again today user_ids c d h.1)

-- The notice of the day is given once: after a call for some users, a second call for them on the
-- same day finds no one due and changes nothing.
pub users_needing_capped_notice_once :
    (today : ℕ) (user_ids : List ℕ) (c : DailyCounter)
    → users_needing_capped_notice today user_ids (users_needing_capped_notice today user_ids c).0
      ≡ ((users_needing_capped_notice today user_ids c).0, [])
unfolding users_needing_capped_notice
users_needing_capped_notice_once today [] c = refl
users_needing_capped_notice_once today (u ∷ user_ids) c =
    let (day, own, kept) = turn_counts today u c in
    let (last_day, others, grown) = call_counts today user_ids (turn today u c).0 day in
    call_again today (u ∷ user_ids) (users_needing_capped_notice today (u ∷ user_ids) c).0 last_day
      (omega (arith, own, grown u), others)
