-- ===== src/Access/RateLimiter.antt =====
-- RateLimiter of src/booksaver/infrastructure/telegram/access.py. Its clock is monotonic, and an
-- instant is a number of ticks. The lock is held for the whole of `allow`.
pub mod Laws
use booksaver_agent.Base.{
  ℕ, ◌+◌, Bool, List, [], ◌∷◌, ◌++◌, ltb, ◌==◌, if◌then◌else◌, length, filter,
}

pub record RateLimiter : Type 0 where
  pub max_events : ℕ
  pub window : ℕ
  pub hits : ℕ → List ℕ

-- `self._hits[key] = recent`
unfoldable pub set_hits : ℕ → List ℕ → (ℕ → List ℕ) → ℕ → List ℕ
set_hits key recent hits k = if k == key then recent else hits k

-- `[t for t in hits if now - t < window]`
unfoldable pub recent_hits : ℕ → ℕ → List ℕ → List ℕ
recent_hits now window hits = filter (λ t. ltb now (t + window)) hits

unfoldable pub allow : ℕ → ℕ → RateLimiter → RateLimiter × Bool
allow key now limiter =
    let recent = recent_hits now limiter.window (limiter.hits key) in
    (
      record limiter { hits = set_hits key (recent ++ (now ∷ [])) limiter.hits },
      ltb (length recent) limiter.max_events,
    )
