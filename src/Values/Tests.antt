-- ===== src/Values/Tests.antt =====
-- The theorem on intervals at six hours, with the ASCII digits alone.
use booksaver_agent.Base.{
  ℕ, ◌+◌, ◌-◌, ◌<◌, ◌&&◌, ◌≡◌, refl, Option, none, some, ok, leb, if◌then◌else◌, arith, ◌∷◌, [],
}
use booksaver_agent.Values.{parse_interval, interval_text, decimal, digits_of}
use booksaver_agent.Values.Interval.{parse_interval-interval_text}

abbrev ascii_digit : ℕ → Option ℕ
ascii_digit c = if leb 48 c && leb c 57 then some (c - 48) else none

ascii_digit_lem : (v : ℕ) → v < 10 → ascii_digit (48 + v) ≡ some v
ascii_digit_lem v h = ground (arith, h)

six_hours : interval_text 21600 ≡ 54 ∷ 104 ∷ []
unfolding interval_text decimal digits_of
six_hours = refl

parse_interval-interval_text_example : parse_interval ascii_digit (interval_text 21600) ≡ ok 21600
parse_interval-interval_text_example =
    parse_interval-interval_text ascii_digit ascii_digit_lem 21600 (omega arith) (omega arith)
      (omega arith)
