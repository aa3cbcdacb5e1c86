-- ===== src/Monitor/Limits/Loop.antt =====
-- The round robin of `build_check_plan` (src/booksaver/monitor/user_limits.py): it ends, and it plans
-- each queue whole.
use mathlib.Core.List.{Memᴰ}
use mathlib.Core.Option.{none-ne-some, some-injective}
use booksaver_agent.Base.{
  ℕ, zero, suc, ◌-◌, ◌≡◌, ◌≤◌, ◌⊎◌, inl, inr, refl, sym, ap, ◌∙◌, Bool, true, false, not, Option,
  none, some, List, [], ◌∷◌, ◌++◌, ◌==◌, length, any, is_nil, if◌then◌else◌, arith, All, Bool-cases,
  length-append, ==_iff,
}
use booksaver_agent.Base.Pairs.{All-mem, All-weaken, All-of_mem}
use booksaver_agent.Booking.{Booking}
use booksaver_agent.Monitor.Limits.{set_queue, visit_queue, round, prepend, interleave}

-- A user's part of the order.
unfoldable pub of_user : ℕ → List (ℕ × Booking) → List Booking
of_user u [] = []
of_user u ((v, b) ∷ planned) = let rest = of_user u planned in if u == v then b ∷ rest else rest

of_user-append :
    (u : ℕ) (xs ys : List (ℕ × Booking)) → of_user u (xs ++ ys) ≡ of_user u xs ++ of_user u ys
unfolding of_user
of_user-append u [] ys = refl
of_user-append u ((v, b) ∷ xs) ys =
    let ih = of_user-append u xs ys in
    elim (Bool-cases (u == v)) [ inl e ↦ rw (e, ih) refl | inr e ↦ rw (e, ih) refl ]

append_assoc : (xs ys zs : List Booking) → (xs ++ ys) ++ zs ≡ xs ++ (ys ++ zs)
append_assoc [] ys zs = refl
append_assoc (x ∷ xs) ys zs = ap (λ l. x ∷ l) (append_assoc xs ys zs)

-- What a turn plans for a user and what it leaves in the user's queue are the queue before it.
visit_queue_keeps :
    (u uid : ℕ) (bookings : List Booking) (queues : ℕ → List Booking)
    → queues uid ≡ bookings
    → of_user u (visit_queue uid bookings queues).1 ++ (visit_queue uid bookings queues).0 u
      ≡ queues u
unfolding visit_queue of_user set_queue
visit_queue_keeps u uid [] queues e = refl
visit_queue_keeps u uid (b ∷ rest) queues e = elim (Bool-cases (u == uid)) [
  | inl same ↦ rw same (sym (ap queues ((==_iff u uid).0 same) ∙ e))
  | inr other ↦ rw other refl
]

round_keeps :
    (u : ℕ) (eligible : List ℕ) (queues : ℕ → List Booking)
    → of_user u (round eligible queues).1 ++ (round eligible queues).0 u ≡ queues u
unfolding round of_user
round_keeps u [] queues = refl
round_keeps u (uid ∷ eligible) queues =
    let visited = visit_queue uid (queues uid) queues in
    let others = round eligible visited.0 in
    ap (λ l. l ++ others.0 u) (of_user-append u visited.1 others.1)
    ∙ append_assoc (of_user u visited.1) (of_user u others.1) (others.0 u)
    ∙ ap (λ l. of_user u visited.1 ++ l) (round_keeps u eligible visited.0)
    ∙ visit_queue_keeps u uid (queues uid) queues refl

is_shorter : (xs ys zs : List Booking) → xs ++ ys ≡ zs → length ys ≤ length zs
is_shorter xs ys zs e = omega (arith, length-append xs ys, ap (λ l. length l) e)

round_le :
    (u : ℕ) (eligible : List ℕ) (queues : ℕ → List Booking)
    → length ((round eligible queues).0 u) ≤ length (queues u)
round_le u eligible queues =
    is_shorter (of_user u (round eligible queues).1) ((round eligible queues).0 u) (queues u)
      (round_keeps u eligible queues)

visit_queue_le :
    (u uid : ℕ) (queues : ℕ → List Booking)
    → length ((visit_queue uid (queues uid) queues).0 u) ≤ length (queues u)
visit_queue_le u uid queues =
    let visited = visit_queue uid (queues uid) queues in
    is_shorter (of_user u visited.1) (visited.0 u) (queues u)
      (visit_queue_keeps u uid (queues uid) queues refl)

-- The queue that is visited loses its head.
visit_queue_pops :
    (uid : ℕ) (bookings : List Booking) (queues : ℕ → List Booking)
    → queues uid ≡ bookings
    → length ((visit_queue uid bookings queues).0 uid) ≤ length (queues uid) - 1
unfolding visit_queue set_queue
visit_queue_pops uid [] queues e = rw e (omega arith)
visit_queue_pops uid (b ∷ rest) queues e = rw ((==_iff uid uid).1 refl, e) (omega arith)

round_pops :
    (eligible : List ℕ) (queues : ℕ → List Booking)
    → All (λ u. length ((round eligible queues).0 u) ≤ length (queues u) - 1) eligible
unfolding round
round_pops [] queues = tt
round_pops (uid ∷ eligible) queues =
    let visited = visit_queue uid (queues uid) queues in
    (
      omega (arith, round_le uid eligible visited.0, visit_queue_pops uid (queues uid) queues refl),
      All-weaken (λ u. length ((round eligible visited.0).0 u) ≤ length (visited.0 u) - 1)
          (λ u. length ((round eligible visited.0).0 u) ≤ length (queues u) - 1) eligible
          (λ u h. omega (arith, h, visit_queue_le u uid queues)) (round_pops eligible visited.0),
    )

any-false : (p : ℕ → Bool) (xs : List ℕ) (u : ℕ) → any p xs ≡ false → Memᴰ u xs → p u ≡ false
any-false p [] u h m = elim m [ ]
any-false p (x ∷ xs) u h (Memᴰ.head e) = ground (arith, h, ap p e)
any-false p (x ∷ xs) u h (Memᴰ.tail m) = any-false p xs u (ground (arith, h)) m

any-none : (p : ℕ → Bool) (xs : List ℕ) → All (λ u. p u ≡ false) xs → any p xs ≡ false
any-none p [] h = refl
any-none p (x ∷ xs) h = ground (arith, h.0, any-none p xs h.1)

nil_of : (xs : List Booking) → not (is_nil xs) ≡ false → xs ≡ []
nil_of [] h = refl
nil_of (x ∷ xs) h = absurd (ground (arith, h))

nil_of_length : (xs : List Booking) → length xs ≤ 0 → not (is_nil xs) ≡ false
nil_of_length [] h = refl
nil_of_length (x ∷ xs) h = absurd (omega (arith, h))

nil_append : (xs ys zs : List Booking) → xs ++ ys ≡ zs → zs ≡ [] → ys ≡ []
nil_append [] ys zs e f = e ∙ f
nil_append (x ∷ xs) ys zs e f = absurd (ground (arith, e, f))

-- Enough turns: one more than the longest queue.
pub interleave-some :
    (fuel : ℕ) (eligible : List ℕ) (queues : ℕ → List Booking)
    → All (λ u. length (queues u) ≤ fuel) eligible
    → (ordered : List (ℕ × Booking)) × (interleave (suc fuel) eligible queues ≡ some ordered)
unfolding interleave prepend
interleave-some zero eligible queues h = (
  [],
  ap
      (λ b.
        if b
        then prepend (round eligible queues).1 (interleave zero eligible (round eligible queues).0)
        else some [])
      (any-none (λ u. not (is_nil (queues u))) eligible
        (All-weaken (λ u. length (queues u) ≤ 0) (λ u. not (is_nil (queues u)) ≡ false) eligible
          (λ u k. nil_of_length (queues u) k) h)),
)
interleave-some (suc fuel) eligible queues h =
    let turn = round eligible queues in
    let (rest, e) = interleave-some fuel eligible turn.0 (
      All-of_mem (λ u. length (turn.0 u) ≤ fuel) eligible
        (λ u m. omega (
          arith,
          All-mem (λ v. length (queues v) ≤ suc fuel) eligible h m,
          All-mem (λ v. length (turn.0 v) ≤ length (queues v) - 1) eligible
              (round_pops eligible queues) m,
        ))) in
    elim (Bool-cases (any (λ u. not (is_nil (queues u))) eligible)) [
      | inl busy ↦ (
        turn.1 ++ rest,
        ap (λ b. if b then prepend turn.1 (interleave (suc fuel) eligible turn.0) else some []) busy
            ∙ ap (prepend turn.1) e,
      )
      | inr idle ↦ (
        [],
        ap (λ b. if b then prepend turn.1 (interleave (suc fuel) eligible turn.0) else some [])
            idle,
      )
    ]

abbrev pub Listed : List ℕ → (ℕ → List Booking) → Type 0
Listed eligible queues = (u : ℕ) → (queues u ≡ []) ⊎ Memᴰ u eligible

-- The loop plans each queue whole and in its order.
pub interleave_keeps :
    (fuel : ℕ) (eligible : List ℕ) (queues : ℕ → List Booking) (ordered : List (ℕ × Booking))
    → Listed eligible queues
    → interleave fuel eligible queues ≡ some ordered
    → (u : ℕ) → of_user u ordered ≡ queues u
unfolding interleave of_user prepend
interleave_keeps zero eligible queues ordered listed h u = absurd (none-ne-some ordered h)
interleave_keeps (suc fuel) eligible queues ordered listed h u =
    by_test (any (λ v. not (is_nil (queues v))) eligible) refl (interleave fuel eligible turn.0)
      refl h (λ rest e. interleave_keeps fuel eligible turn.0 rest still e u)
  where
    turn : (ℕ → List Booking) × List (ℕ × Booking)
    turn = round eligible queues

    still : Listed eligible turn.0
    still v = elim (listed v) [
      | inl e ↦
          inl
            (nil_append (of_user v turn.1) (turn.0 v) (queues v) (round_keeps v eligible queues) e)
      | inr m ↦ inr m
    ]

    by_test :
        (b : Bool)
        → any (λ v. not (is_nil (queues v))) eligible ≡ b
        → (o : Option (List (ℕ × Booking))) → interleave fuel eligible turn.0 ≡ o
        → (if b then prepend turn.1 o else some []) ≡ some ordered
        → ((rest : List (ℕ × Booking))
            → interleave fuel eligible turn.0 ≡ some rest
            → of_user u rest ≡ turn.0 u)
        → of_user u ordered ≡ queues u
    by_test false idle o e k ih =
        ap (of_user u) (sym (some-injective [] ordered k)) ∙ elim (listed u) [
          | inl f ↦ sym f
          | inr m ↦
              sym (nil_of (queues u) (any-false (λ v. not (is_nil (queues v))) eligible u idle m))
        ]
    by_test true busy none e k ih = absurd (none-ne-some ordered k)
    by_test true busy (some rest) e k ih =
        ap (of_user u) (sym (some-injective (turn.1 ++ rest) ordered k))
        ∙ of_user-append u turn.1 rest
        ∙ ap (λ l. of_user u turn.1 ++ l) (ih rest e)
        ∙ round_keeps u eligible queues
