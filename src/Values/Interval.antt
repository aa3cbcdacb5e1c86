-- ===== src/Values/Interval.antt =====
-- The text of an interval is read back as the interval.
use booksaver_agent.Base.{
  ℕ, zero, suc, ◌+◌, ◌*◌, ◌/◌, ◌%◌, ◌≤◌, ◌<◌, ◌≡◌, refl, false, Option, some, List, [], ◌∷◌, ◌++◌,
  map, ltb, ◌==◌, is_nil, length, length-append, ok, arith, All, All-append, inl, inr, Bool-cases,
}
use booksaver_agent.Base.Text.{Text, strip, lstrip, rstrip, is_space}
use booksaver_agent.Values.{
  DurationUnit, unit_of, seconds_of, read_digits, digits_of, decimal, timedelta, to_int,
  match_duration, parse_duration, parse_interval, interval_text,
}

rstrip-same : (s : Text) → All (λ c. is_space c ≡ false) s → rstrip s ≡ s
unfolding rstrip
rstrip-same [] h = refl
rstrip-same (c ∷ s) h = let ih = rstrip-same s h.1 in ground (arith, ih, h.0)

strip-same : (s : Text) → All (λ c. is_space c ≡ false) s → strip s ≡ s
unfolding strip lstrip
strip-same [] h = rstrip-same [] tt
strip-same (c ∷ s) h = let same = rstrip-same (c ∷ s) h in ground (arith, same, h.0)

read_digits-append :
    (n v : ℕ) (digits : List ℕ) → read_digits n (digits ++ (v ∷ [])) ≡ read_digits n digits * 10 + v
unfolding read_digits
read_digits-append n v [] = refl
read_digits-append n v (d ∷ digits) = read_digits-append (n * 10 + d) v digits

read_digits-single : (n : ℕ) → read_digits 0 (n ∷ []) ≡ n
unfolding read_digits
read_digits-single n = omega arith

read_digits-digits_of : (fuel n : ℕ) → n < fuel → read_digits 0 (digits_of fuel n) ≡ n
unfolding digits_of
read_digits-digits_of zero n h = omega (arith, h)
read_digits-digits_of (suc fuel) n h = elim (Bool-cases (ltb n 10)) [
  | inl small ↦ ground (arith, small, read_digits-single n)
  | inr large ↦
      let ih = read_digits-digits_of fuel (n / 10) (ground (arith, h, large)) in
      let step = read_digits-append 0 (n % 10) (digits_of fuel (n / 10)) in
      ground (arith, large, ih, step)
]

abbrev IsDigit : ℕ → Type 0
IsDigit v = v < 10

digits_of-IsDigit : (fuel n : ℕ) → All IsDigit (digits_of fuel n)
unfolding digits_of
digits_of-IsDigit zero n = tt
digits_of-IsDigit (suc fuel) n = elim (Bool-cases (ltb n 10)) [
  | inl small ↦ rw small (ground (arith, small), tt)
  | inr large ↦ rw large (
      All-append IsDigit (digits_of fuel (n / 10)) _ (digits_of-IsDigit fuel (n / 10))
        (omega arith, tt))
]

is_nil-append : (xs : List ℕ) (v : ℕ) → is_nil (xs ++ (v ∷ [])) ≡ false
is_nil-append [] v = refl
is_nil-append (x ∷ xs) v = refl

is_nil-digits_of : (fuel n : ℕ) → is_nil (digits_of (suc fuel) n) ≡ false
unfolding digits_of
is_nil-digits_of fuel n =
    let some_left = is_nil-append (digits_of fuel (n / 10)) (n % 10) in ground (arith, some_left)

dark_digits :
    (digits : List ℕ)
    → All IsDigit digits
    → All (λ c. is_space c ≡ false) (map (λ v. 48 + v) digits)
unfolding is_space
dark_digits [] h = tt
dark_digits (v ∷ digits) h = (ground (arith, h.0), dark_digits digits h.1)

unfoldable power : ℕ → ℕ
power zero = 1
power (suc k) = 10 * power k

-- A number below a power of ten has no more digits than its exponent.
length-digits_of : (k fuel n : ℕ) → n < power (suc k) → length (digits_of fuel n) ≤ suc k
unfolding digits_of power
length-digits_of k zero n h = omega arith
length-digits_of zero (suc fuel) n h = ground (arith, h)
length-digits_of (suc k) (suc fuel) n h =
    let ih = length-digits_of k fuel (n / 10) (omega (arith, h)) in
    let step = length-append (digits_of fuel (n / 10)) (n % 10 ∷ []) in ground (arith, ih, step)

module _ (digit_value : ℕ → Option ℕ)
    (ascii : (v : ℕ) → v < 10 → digit_value (48 + v) ≡ some v) where
  match-digits :
      (digits : List ℕ) (unit : ℕ) (u : DurationUnit)
      → All IsDigit digits
      → unit_of unit ≡ some u
      → match_duration digit_value (map (λ v. 48 + v) digits ++ (unit ∷ [])) ≡ some (digits, u)
  unfolding match_duration
  match-digits [] unit u h e = ground (arith, e)
  match-digits (v ∷ []) unit u h e =
      let ih = match-digits [] unit u tt e in let value = ascii v h.0 in ground (arith, ih, value)
  match-digits (v ∷ w ∷ digits) unit u h e =
      let ih = match-digits (w ∷ digits) unit u h.1 e in
      let value = ascii v h.0 in ground (arith, ih, value)

  -- Digits and a unit are read as that many of the unit.
  parse-decimal :
      (n unit : ℕ) (u : DurationUnit) (d : ℕ)
      → n * seconds_of u ≡ d
      → unit_of unit ≡ some u
      → is_space unit ≡ false
      → n < power 17
      → 900 ≤ d
      → d / 86400 ≤ 999999999
      → parse_interval digit_value (decimal n ++ (unit ∷ [])) ≡ ok d
  unfolding parse_interval parse_duration decimal to_int timedelta
  parse-decimal n unit u d same e dark few enough short =
      let digits = digits_of (suc n) n in
      let stripped = strip-same (decimal n ++ (unit ∷ [])) (
        All-append (λ c. is_space c ≡ false) (decimal n) (unit ∷ [])
          (dark_digits digits (digits_of-IsDigit (suc n) n)) (dark, tt)) in
      let matched = match-digits digits unit u (digits_of-IsDigit (suc n) n) e in
      let size = length-digits_of 16 (suc n) n few in
      let value = read_digits-digits_of (suc n) n (omega arith) in
      let given = is_nil-digits_of n n in
      ground (arith, stripped, matched, size, value, given, same, enough, short)

-- An interval of whole minutes, of at least a quarter of an hour and short enough for a timedelta, is
-- read back from its text, provided that the ten ASCII digits have their values.
pub parse_interval-interval_text :
    (digit_value : ℕ → Option ℕ)
    → ((v : ℕ) → v < 10 → digit_value (48 + v) ≡ some v)
    → (duration : ℕ) → duration % 60 ≡ 0
    → 900 ≤ duration
    → duration / 86400 ≤ 999999999
    → parse_interval digit_value (interval_text duration) ≡ ok duration
unfolding interval_text unit_of is_space power
parse_interval-interval_text digit_value ascii d whole enough short =
    let small : d / 60 < 100000000000000000 = omega (arith, short) in
    elim (Bool-cases (d % 86400 == 0)) [
      | inl e ↦
          let run =
            parse-decimal digit_value ascii (d / 86400) 100 DurationUnit.days d (ground (arith, e))
              refl refl (omega (arith, small)) enough short in
          ground (arith, run, e)
      | inr e ↦ elim (Bool-cases (d % 3600 == 0)) [
        | inl f ↦
            let run =
              parse-decimal digit_value ascii (d / 3600) 104 DurationUnit.hours d
                (ground (arith, f)) refl refl (omega (arith, small)) enough short in
            ground (arith, run, e, f)
        | inr f ↦
            let run =
              parse-decimal digit_value ascii (d / 60) 109 DurationUnit.minutes d
                (omega (arith, whole)) refl refl (omega (arith, small)) enough short in
            ground (arith, run, e, f)
      ]
    ]
