-- ===== src/Base/Results.antt =====
-- A call that may raise. The exception classes of the code are kept, its messages are not.
use mathlib.Core.Path.{◌≡◌, refl}
use mathlib.Core.Bool.{Bool, true, false}
use mathlib.Core.Option.{Option, none, some}
use mathlib.Core.Logic.{◌⊎◌, inl, inr}

abbrev pub is_none {ℓ} : {A : Type ℓ} → Option A → Bool
is_none none = true
is_none (some _) = false

abbrev pub is_some {ℓ} : {A : Type ℓ} → Option A → Bool
is_some none = false
is_some (some _) = true

pub data Error : Type 0 where
  value_error : Error
  overflow_error : Error
  incomplete_daily_schedule : Error
  key_error : Error
  integrity_error : Error
  session_revoked : Error

pub data Result {ℓ} (A : Type ℓ) : Type ℓ where
  err : Error → Result A
  ok : A → Result A

-- `if c: raise e`
abbrev pub raise_if : Bool → Error → Result (Unit {0})
raise_if true e = err e
raise_if false e = ok tt

infixl 5 ◌>>=◌
-- What follows a call runs where the call returns.
abbrev pub ◌>>=◌ {ℓ κ} : {A : Type ℓ} {B : Type κ} → Result A → (A → Result B) → Result B
err raised >>= next = err raised
ok value >>= next = next value

infixl 5 ◌>>◌
abbrev pub ◌>>◌ {ℓ} : {B : Type ℓ} → Result (Unit {0}) → Result B → Result B
checked >> next = checked >>= λ done. next

-- Two calls in a row return only where both do.
pub >>=-eq-ok {ℓ κ} :
    {A : Type ℓ} {B : Type κ} (call : Result A) (next : A → Result B) {last : B}
    → (call >>= next) ≡ ok last
    → (first : A) × (call ≡ ok first) × (next first ≡ ok last)
>>=-eq-ok (err raised) next returns = cc
>>=-eq-ok (ok first) next returns = (first, refl, returns)

-- A check passes where it does not raise, and the rest runs.
pub raise_if-eq-ok {ℓ} :
    {B : Type ℓ} (c : Bool) (e : Error) (rest : Result B) {last : B}
    → (raise_if c e >> rest) ≡ ok last
    → (c ≡ false) × (rest ≡ ok last)
raise_if-eq-ok true e rest returns = cc
raise_if-eq-ok false e rest returns = (refl, returns)

pub ok-injective {ℓ} : {B : Type ℓ} {a b : B} → ok a ≡ ok b → a ≡ b
ok-injective h = cc

pub Result-cases {ℓ} :
    {A : Type ℓ} (r : Result A) → ((a : A) × (r ≡ ok a)) ⊎ ((e : Error) × (r ≡ err e))
Result-cases (ok value) = inl (value, refl)
Result-cases (err raised) = inr (raised, refl)
