-- ===== src/Monitor/Limits.antt =====
-- Daily counters and the fair check plan (src/booksaver/monitor/user_limits.py). A dictionary is a
-- function, 0 or empty where the code's `get` defaults to it; its lock is not modelled, as every
-- operation holds it from its start to its end. The increments are not negative.
pub mod Counter
pub mod Notices
pub mod Loop
pub mod Plan
use booksaver_agent.Base.{
  ℕ, zero, suc, ◌+◌, ◌-◌, ◌≡◌, Bool, true, false, not, Option, none, some, List, [], ◌∷◌, ◌++◌, map,
  ltb, leb, ◌==◌, length, take, drop, any, is_nil, if◌then◌else◌,
}
use booksaver_agent.Booking.{Booking}

pub record DailyCounter : Type 0 where
  pub day : ℕ
  pub counts : ℕ → ℕ

-- `self._counts[key] = n`
unfoldable pub store : ℕ → ℕ → (ℕ → ℕ) → ℕ → ℕ
store key n counts k = if k == key then n else counts k

-- `_maybe_roll`, given the clock's day.
unfoldable pub maybe_roll : ℕ → DailyCounter → DailyCounter
maybe_roll today c = if today == c.day then c else record { day = today; counts = λ _. 0 }

unfoldable pub increment : ℕ → ℕ → ℕ → DailyCounter → DailyCounter × ℕ
increment today key by c =
    let c = maybe_roll today c in
    let n = c.counts key + by in (record c { counts = store key n c.counts }, n)

unfoldable pub try_increment : ℕ → ℕ → ℕ → ℕ → DailyCounter → DailyCounter × Bool
try_increment today key limit by c =
    let c = maybe_roll today c in
    let current = c.counts key in
    if ltb limit (current + by)
    then (c, false)
    else (record c { counts = store key (current + by) c.counts }, true)

unfoldable pub count : ℕ → ℕ → DailyCounter → DailyCounter × ℕ
count today key c = let c = maybe_roll today c in (c, c.counts key)

unfoldable pub notice : Bool → ℕ → ℕ → DailyCounter → DailyCounter × List ℕ
notice true today user_id c = let (c, n) = increment today user_id 1 c in (c, user_id ∷ [])
notice false today user_id c = (c, [])

-- `users_needing_capped_notice`
unfoldable pub users_needing_capped_notice : ℕ → List ℕ → DailyCounter → DailyCounter × List ℕ
users_needing_capped_notice today [] c = (c, [])
users_needing_capped_notice today (user_id ∷ user_ids) c =
    let (c, sent) = count today user_id c in
    let (first, due) = notice (sent == 0) today user_id c in
    let (last, others) = users_needing_capped_notice today user_ids first in (last, due ++ others)

pub record CheckPlan : Type 0 where
  pub ordered : List (ℕ × Booking)
  pub capped_user_ids : List ℕ
  pub skipped : List (ℕ × Booking)

-- The variables of the loop over the users.
pub record Gathered : Type 0 where
  pub eligible : List ℕ
  pub capped : List ℕ
  pub queues : ℕ → List Booking
  pub skipped : List (ℕ × Booking)

unfoldable pub set_queue : ℕ → List Booking → (ℕ → List Booking) → ℕ → List Booking
set_queue user_id bookings queues u = if u == user_id then bookings else queues u

unfoldable pub tag : ℕ → List Booking → List (ℕ × Booking)
tag user_id bookings = map (λ b. (user_id, b)) bookings

abbrev pub nothing_gathered : Gathered
nothing_gathered = record { eligible = []; capped = []; queues = λ _. []; skipped = [] }

module _ (bookings_by_user : ℕ → List Booking) (checks_today : ℕ → ℕ) (maximum : ℕ) where
  -- One user of the loop.
  unfoldable pub gather_user : ℕ → Gathered → Gathered
  gather_user user_id g =
      let bookings = bookings_by_user user_id in
      let remaining = maximum - checks_today user_id in
      if is_nil bookings
      then g
      else if leb maximum (checks_today user_id)
      then record g {
        capped = g.capped ++ user_id ∷ [];
        skipped = g.skipped ++ tag user_id bookings;
      }
      else let g = record g {
        eligible = g.eligible ++ user_id ∷ [];
        queues = set_queue user_id (take remaining bookings) g.queues;
      } in
        if ltb remaining (length bookings)
        then record g {
          capped = g.capped ++ user_id ∷ [];
          skipped = g.skipped ++ tag user_id (drop remaining bookings);
        }
        else g

  unfoldable pub gather : List ℕ → Gathered → Gathered
  gather [] g = g
  gather (user_id ∷ users) g = gather users (gather_user user_id g)

-- `if queue: ordered.append((uid, queue.pop(0)))`
unfoldable pub visit_queue :
    ℕ → List Booking → (ℕ → List Booking) → (ℕ → List Booking) × List (ℕ × Booking)
visit_queue uid [] queues = (queues, [])
visit_queue uid (b ∷ rest) queues = (set_queue uid rest queues, (uid, b) ∷ [])

unfoldable pub round : List ℕ → (ℕ → List Booking) → (ℕ → List Booking) × List (ℕ × Booking)
round [] queues = (queues, [])
round (uid ∷ eligible) queues =
    let (queues, first) = visit_queue uid (queues uid) queues in
    let (queues, others) = round eligible queues in (queues, first ++ others)

unfoldable pub prepend :
    List (ℕ × Booking) → Option (List (ℕ × Booking)) → Option (List (ℕ × Booking))
prepend first none = none
prepend first (some rest) = some (first ++ rest)

-- The while loop; none is out of fuel.
unfoldable pub interleave : ℕ → List ℕ → (ℕ → List Booking) → Option (List (ℕ × Booking))
interleave zero eligible queues = none
interleave (suc fuel) eligible queues =
    let turn = round eligible queues in
    let rest = interleave fuel eligible turn.0 in
    if any (λ uid. not (is_nil (queues uid))) eligible then prepend turn.1 rest else some []

-- No queue is longer than the daily maximum, so that one more turn than it is enough.
unfoldable pub build_check_plan : List ℕ → (ℕ → List Booking) → (ℕ → ℕ) → ℕ → Option CheckPlan
build_check_plan users bookings_by_user checks_today maximum =
    let g = gather bookings_by_user checks_today maximum users nothing_gathered in
    elim (interleave (suc maximum) g.eligible g.queues) [
      | none ↦ none
      | some ordered ↦
          some (record { ordered = ordered; capped_user_ids = g.capped; skipped = g.skipped })
    ]
