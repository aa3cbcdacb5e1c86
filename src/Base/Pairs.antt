-- ===== src/Base/Pairs.antt =====
-- Predicates on the pairs of a list and on two lists side by side, by recursion, so that they
-- compute to tuples; and how they pass through the functions that the components use.
use mathlib.Core.Path.{◌≡◌, refl, sym, subst}
use mathlib.Core.Bool.{Bool, true}
use mathlib.Core.Logic.{inl, inr}
use mathlib.Core.List.{List, [], ◌∷◌, ◌++◌, Memᴰ}
use booksaver_agent.Base.Tests.{Bool-cases}
use booksaver_agent.Base.Lists.{All, All-append, filter}

abbrev pub Pairwise {ℓ} : {A : Type ℓ} → (A → A → Type 0) → List A → Type 0
Pairwise R [] = Unit
Pairwise R (x ∷ xs) = All (R x) xs × Pairwise R xs

abbrev pub Zip {ℓ} : {A : Type ℓ} → (A → A → Type 0) → List A → List A → Type 0
Zip R [] [] = Unit
Zip R (x ∷ xs) (y ∷ ys) = R x y × Zip R xs ys
Zip R _ _ = ⊥

module _ {ℓ} {A : Type ℓ} where
  pub All-mem : (P : A → Type 0) (xs : List A) {a : A} → All P xs → Memᴰ a xs → P a
  All-mem P [] h m = elim m [ ]
  All-mem P (x ∷ xs) h (Memᴰ.head e) = subst P (sym e) h.0
  All-mem P (x ∷ xs) h (Memᴰ.tail m) = All-mem P xs h.1 m

  pub All-of_mem : (P : A → Type 0) (xs : List A) → ((a : A) → Memᴰ a xs → P a) → All P xs
  All-of_mem P [] h = tt
  All-of_mem P (x ∷ xs) h = (h x (Memᴰ.head refl), All-of_mem P xs (λ a m. h a (Memᴰ.tail m)))

  pub All-filter : (P : A → Type 0) (p : A → Bool) (xs : List A) → All P xs → All P (filter p xs)
  All-filter P p [] h = tt
  All-filter P p (x ∷ xs) h = elim (Bool-cases (p x)) [
    | inl e ↦ rw e (h.0, All-filter P p xs h.1)
    | inr e ↦ rw e (All-filter P p xs h.1)
  ]

  -- What passes the test, with the test.
  pub All-filter_test : (p : A → Bool) (xs : List A) → All (λ x. p x ≡ true) (filter p xs)
  All-filter_test p [] = tt
  All-filter_test p (x ∷ xs) = elim (Bool-cases (p x)) [
    | inl e ↦ rw e (e, All-filter_test p xs)
    | inr e ↦ rw e (All-filter_test p xs)
  ]

  pub Pairwise-filter :
      (R : A → A → Type 0) (p : A → Bool) (xs : List A) → Pairwise R xs → Pairwise R (filter p xs)
  Pairwise-filter R p [] h = tt
  Pairwise-filter R p (x ∷ xs) h = elim (Bool-cases (p x)) [
    | inl e ↦ rw e (All-filter (R x) p xs h.0, Pairwise-filter R p xs h.1)
    | inr e ↦ rw e (Pairwise-filter R p xs h.1)
  ]

  pub All-× : (P Q : A → Type 0) (xs : List A) → All P xs → All Q xs → All (λ x. P x × Q x) xs
  All-× P Q [] h k = tt
  All-× P Q (x ∷ xs) h k = ((h.0, k.0), All-× P Q xs h.1 k.1)

  pub All-weaken : (P Q : A → Type 0) (xs : List A) → ((x : A) → P x → Q x) → All P xs → All Q xs
  All-weaken P Q [] f h = tt
  All-weaken P Q (x ∷ xs) f h = (f x h.0, All-weaken P Q xs f h.1)

  pub Pairwise-× :
      (R S : A → A → Type 0) (xs : List A)
      → Pairwise R xs
      → Pairwise S xs
      → Pairwise (λ x y. R x y × S x y) xs
  Pairwise-× R S [] h k = tt
  Pairwise-× R S (x ∷ xs) h k = (All-× (R x) (S x) xs h.0 k.0, Pairwise-× R S xs h.1 k.1)

  -- A fact about each element is one about each pair.
  pub Pairwise-All : (P : A → Type 0) (xs : List A) → All P xs → Pairwise (λ x y. P x × P y) xs
  Pairwise-All P [] h = tt
  Pairwise-All P (x ∷ xs) h =
      (All-weaken P (λ y. P x × P y) xs (λ y k. (h.0, k)) h.1, Pairwise-All P xs h.1)

  pub Pairwise-append :
      (R : A → A → Type 0) (xs ys : List A)
      → Pairwise R xs
      → Pairwise R ys
      → All (λ x. All (R x) ys) xs
      → Pairwise R (xs ++ ys)
  Pairwise-append R [] ys hx hy h = hy
  Pairwise-append R (x ∷ xs) ys hx hy h =
      (All-append (R x) xs ys hx.0 h.0, Pairwise-append R xs ys hx.1 hy h.1)

  pub All-Zip :
      (R : A → A → Type 0) (P Q : A → Type 0) (xs ys : List A)
      → ((x y : A) → R x y → P x → Q y)
      → Zip R xs ys
      → All P xs
      → All Q ys
  All-Zip R P Q [] [] f z h = tt
  All-Zip R P Q (x ∷ xs) (y ∷ ys) f z h = (f x y z.0 h.0, All-Zip R P Q xs ys f z.1 h.1)
  All-Zip R P Q [] (y ∷ ys) f z h = absurd z
  All-Zip R P Q (x ∷ xs) [] f z h = absurd z

  pub Pairwise-Zip :
      (R S T : A → A → Type 0) (xs ys : List A)
      → ((x x' y y' : A) → R x x' → R y y' → S x y → T x' y')
      → Zip R xs ys
      → Pairwise S xs
      → Pairwise T ys
  Pairwise-Zip R S T [] [] f z h = tt
  Pairwise-Zip R S T (x ∷ xs) (y ∷ ys) f z h = (
    All-Zip R (S x) (T y) xs ys (λ u v r s. f x y u v z.0 r s) z.1 h.0,
    Pairwise-Zip R S T xs ys f z.1 h.1,
  )
  Pairwise-Zip R S T [] (y ∷ ys) f z h = absurd z
  Pairwise-Zip R S T (x ∷ xs) [] f z h = absurd z

  pub Zip-refl : (R : A → A → Type 0) (xs : List A) → ((x : A) → R x x) → Zip R xs xs
  Zip-refl R [] r = tt
  Zip-refl R (x ∷ xs) r = (r x, Zip-refl R xs r)

  pub Zip-trans :
      (R : A → A → Type 0) (xs ys zs : List A)
      → ((x y z : A) → R x y → R y z → R x z)
      → Zip R xs ys
      → Zip R ys zs
      → Zip R xs zs
  Zip-trans R [] [] [] t p q = tt
  Zip-trans R (x ∷ xs) (y ∷ ys) (z ∷ zs) t p q = (t x y z p.0 q.0, Zip-trans R xs ys zs t p.1 q.1)
  Zip-trans R [] [] (z ∷ zs) t p q = absurd q
  Zip-trans R [] (y ∷ ys) zs t p q = absurd p
  Zip-trans R (x ∷ xs) [] zs t p q = absurd p
  Zip-trans R (x ∷ xs) (y ∷ ys) [] t p q = absurd q

  pub Memᴰ-filter :
      (p : A → Bool) (xs : List A) {a : A} → Memᴰ a xs → p a ≡ true → Memᴰ a (filter p xs)
  Memᴰ-filter p [] m h = elim m [ ]
  Memᴰ-filter p (x ∷ xs) (Memᴰ.head e) h =
      let h' : p x ≡ true = subst (λ z. p z ≡ true) e h in rw h' (Memᴰ.head e)
  Memᴰ-filter p (x ∷ xs) (Memᴰ.tail m) h = elim (Bool-cases (p x)) [
    | inl e ↦ rw e (Memᴰ.tail (Memᴰ-filter p xs m h))
    | inr e ↦ rw e (Memᴰ-filter p xs m h)
  ]

-- Every element is a member, to carry membership through `filter` and sorting.
pub All-mem' : {A : Type 0} (xs : List A) → All (λ a. Memᴰ a xs) xs
All-mem' xs = All-of_mem (λ a. Memᴰ a xs) xs (λ a m. m)

pub All-of_each {ℓ} : {A : Type ℓ} (P : A → Type 0) (xs : List A) → ((x : A) → P x) → All P xs
All-of_each P [] f = tt
All-of_each P (x ∷ xs) f = (f x, All-of_each P xs f)
