-- ===== src/Monitor/Limits/Counter.antt =====
-- What the daily counters of src/booksaver/monitor/user_limits.py guarantee.
use booksaver_agent.Base.{ℕ, ◌+◌, ◌≡◌, ◌≢◌, ◌≤◌, ◌↔◌, true, ◌==◌, if◌then◌else◌, arith}
use booksaver_agent.Monitor.Limits.{DailyCounter, store, maybe_roll, try_increment}

-- What was counted for a key on a day, before anything happens on that day.
unfoldable pub counted : ℕ → ℕ → DailyCounter → ℕ
counted today key c = if today == c.day then c.counts key else 0

-- A reservation is granted exactly when the day's count and the new events stay within the limit; a
-- granted one adds its events, a refused one none, and no other key changes.
pub try_increment_spent :
    (today key limit by : ℕ) (c : DailyCounter)
    → (((try_increment today key limit by c).1 ≡ true) ↔ (counted today key c + by ≤ limit))
      × (counted today key (try_increment today key limit by c).0 ≡ (
          if (try_increment today key limit by c).1
          then counted today key c + by
          else counted today key c))
      × ((other : ℕ)
          → other ≢ key
          → counted today other (try_increment today key limit by c).0 ≡ counted today other c)
unfolding try_increment maybe_roll store counted
try_increment_spent today key limit by c =
    (ground arith, ground arith, λ other h. ground (arith, h))
