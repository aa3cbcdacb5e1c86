-- ===== src/Access/RateLimiter/Laws.antt =====
-- How many events a limiter admits in any window.
use booksaver_agent.Base.{
  ℕ, ◌+◌, ◌-◌, ◌≤◌, ◌≡◌, refl, Bool, true, ◌&&◌, List, [], ◌∷◌, ◌++◌, ltb, leb, ◌==◌, if◌then◌else◌,
  length, filter, All, arith, inl, inr, Bool-cases,
}
use booksaver_agent.Base.Pairs.{All-weaken, Pairwise}
use booksaver_agent.Access.RateLimiter.{RateLimiter, set_hits, recent_hits, allow}

-- The instants of `key` at which an event is allowed, in the order of the calls `(key, instant)`.
unfoldable pub admitted : ℕ → List (ℕ × ℕ) → RateLimiter → List ℕ
admitted key [] limiter = []
admitted key (call ∷ calls) limiter =
    let (next, allowed) = allow call.0 call.1 limiter in
    let rest = admitted key calls next in if call.0 == key && allowed then call.1 ∷ rest else rest

abbrev pub within : ℕ → ℕ → ℕ → Bool
within start window t = leb start t && ltb t (start + window)

abbrev pub IsOrdered : List (ℕ × ℕ) → Type 0
IsOrdered calls = Pairwise (λ a b. a.1 ≤ b.1) calls

module _ (start window : ℕ) where
  abbrev inside : List ℕ → ℕ
  inside ts = length (filter (within start window) ts)

  inside-append :
      (ts : List ℕ) (now : ℕ) → inside (ts ++ (now ∷ [])) ≡ inside ts + inside (now ∷ [])
  inside-append [] now = omega arith
  inside-append (t ∷ ts) now = ground (arith, inside-append ts now)

  inside_le : (ts : List ℕ) → inside ts ≤ length ts
  inside_le [] = omega arith
  inside_le (t ∷ ts) = ground (arith, inside_le ts)

  -- Before the window's end nothing that lies in it is forgotten.
  inside-recent_hits :
      (now : ℕ) (ts : List ℕ)
      → ltb now (start + window) ≡ true
      → inside (recent_hits now window ts) ≡ inside ts
  unfolding recent_hits
  inside-recent_hits now [] h = refl
  inside-recent_hits now (t ∷ ts) h = ground (arith, inside-recent_hits now ts h)

  module _ (key : ℕ) where
    late :
        (calls : List (ℕ × ℕ)) (limiter : RateLimiter)
        → All (λ c. start + window ≤ c.1) calls
        → inside (admitted key calls limiter) ≡ 0
    unfolding admitted allow set_hits
    late [] limiter h = refl
    late (call ∷ calls) limiter h =
        let ih = late calls (allow call.0 call.1 limiter).0 h.1 in ground (arith, ih, h.0)

  ordered_late :
      (now : ℕ) (calls : List (ℕ × ℕ))
      → start + window ≤ now
      → All (λ c. now ≤ c.1) calls
      → All (λ c. start + window ≤ c.1) calls
  ordered_late now calls h hs =
      All-weaken (λ c. now ≤ c.1) (λ c. start + window ≤ c.1) calls (λ c k. omega (arith, h, k)) hs

-- What the window still admits after the hits that are kept.
room :
    (start key : ℕ) (calls : List (ℕ × ℕ)) (limiter : RateLimiter)
    → IsOrdered calls
    → inside start limiter.window (admitted key calls limiter)
      ≤ limiter.max_events - inside start limiter.window (limiter.hits key)
unfolding admitted allow set_hits
room start key [] limiter h = omega arith
room start key (call ∷ calls) limiter h =
    let next = (allow call.0 call.1 limiter).0 in
    let ts = limiter.hits call.0 in
    let recent = recent_hits call.1 limiter.window ts in
    let ih = room start key calls next h.1 in
    let grown = inside-append start limiter.window recent call.1 in
    let few = inside_le start limiter.window recent in
    elim (Bool-cases (ltb call.1 (start + limiter.window))) [
      | inl early ↦
          let same = inside-recent_hits start limiter.window call.1 ts early in
          ground (arith, ih, grown, few, same, early)
      | inr after ↦
          let none_left =
            late start limiter.window key calls next
              (ordered_late start limiter.window call.1 calls (ground (arith, after)) h.0) in
          ground (arith, none_left, after)
    ]

-- For calls at instants that do not go back, and whatever the other keys do, at most `max_events`
-- of a key's events are allowed within any window of the limiter's length, wherever it starts.
pub admitted_bound :
    (start key : ℕ) (calls : List (ℕ × ℕ)) (limiter : RateLimiter)
    → IsOrdered calls
    → length (filter (within start limiter.window) (admitted key calls limiter))
      ≤ limiter.max_events
admitted_bound start key calls limiter h =
    let bound = room start key calls limiter h in omega (arith, bound)
