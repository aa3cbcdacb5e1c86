-- ===== src/Values.antt =====
-- The check interval of src/booksaver/domain/value_objects.py and its text. An interval is a number
-- of whole seconds and not negative: the program only makes intervals from texts. Which code points
-- `\d` takes as digits, and their values, is a parameter, as Unicode has many.
mod Tests
pub mod Interval
use booksaver_agent.Base.{
  ℕ, zero, suc, ◌+◌, ◌*◌, ◌/◌, ◌%◌, Bool, true, false, Option, none, some, List, [], ◌∷◌, ◌++◌, map,
  ltb, leb, ◌==◌, if◌then◌else◌, is_nil, length, Result, ok, err, value_error, overflow_error,
  raise_if, ◌>>=◌, ◌>>◌,
}
use booksaver_agent.Base.Text.{Text, strip}

pub data DurationUnit : Type 0 where
  minutes hours days : DurationUnit

unfoldable pub unit_of : ℕ → Option DurationUnit
unit_of c =
    if c == 109
    then some DurationUnit.minutes
    else if c == 104
    then some DurationUnit.hours
    else if c == 100
    then some DurationUnit.days
    else none

abbrev pub seconds_of : DurationUnit → ℕ
seconds_of DurationUnit.minutes = 60
seconds_of DurationUnit.hours = 3600
seconds_of DurationUnit.days = 86400

-- The number that decimal digits stand for.
unfoldable pub read_digits : ℕ → List ℕ → ℕ
read_digits n [] = n
read_digits n (v ∷ digits) = read_digits (n * 10 + v) digits

-- The digits of a number, by `fuel` divisions at most.
unfoldable pub digits_of : ℕ → ℕ → List ℕ
digits_of zero n = []
digits_of (suc fuel) n =
    let rest = digits_of fuel (n / 10) in if ltb n 10 then n ∷ [] else rest ++ (n % 10 ∷ [])

-- `str(n)`; a number has fewer digits than it counts, so the fuel is enough.
unfoldable pub decimal : ℕ → Text
decimal n = map (λ v. 48 + v) (digits_of (suc n) n)

-- `timedelta`, which has at most 999999999 days
unfoldable pub timedelta : ℕ → Result ℕ
timedelta seconds = raise_if (ltb 999999999 (seconds / 86400)) overflow_error >> ok seconds

-- `int(digits)`, which takes at most 4300 of them
unfoldable pub to_int : List ℕ → Result ℕ
to_int digits = raise_if (ltb 4300 (length digits)) value_error >> ok (read_digits 0 digits)

module _ (digit_value : ℕ → Option ℕ) where
  -- What `_DURATION_RE` captures: digits up to the last character, which is the unit.
  unfoldable pub match_duration : Text → Option (List ℕ × DurationUnit)
  match_duration [] = none
  match_duration (c ∷ []) = elim (unit_of c) [ none ↦ none | some unit ↦ some ([], unit) ]
  match_duration (c ∷ d ∷ s) =
      let rest = match_duration (d ∷ s) in
      elim (digit_value c) [
        | none ↦ none
        | some v ↦ elim rest [ none ↦ none | some found ↦ some (v ∷ found.0, found.1) ]
      ]

  -- `_parse_duration`
  unfoldable pub parse_duration : Text → Result ℕ
  parse_duration s = elim (match_duration (strip s)) [
    | none ↦ err value_error
    | some found ↦
        raise_if (is_nil (found.0)) value_error
        >> (to_int (found.0) >>= λ n. timedelta (n * seconds_of (found.1)))
  ]

  -- `CheckInterval.parse`, with the checks of `__post_init__`
  unfoldable pub parse_interval : Text → Result ℕ
  parse_interval s = parse_duration s >>= λ duration.
      raise_if (leb duration 0) value_error
      >> raise_if (ltb duration min_interval) value_error
      >> ok duration
    where
      min_interval : ℕ
      min_interval = 15 * 60

-- `CheckInterval.__str__`
unfoldable pub interval_text : ℕ → Text
interval_text total =
    if total % 86400 == 0
    then decimal (total / 86400) ++ (100 ∷ [])
    else if total % 3600 == 0
    then decimal (total / 3600) ++ (104 ∷ [])
    else decimal (total / 60) ++ (109 ∷ [])
