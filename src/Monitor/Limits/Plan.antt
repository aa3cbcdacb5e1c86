-- ===== src/Monitor/Limits/Plan.antt =====
-- What `build_check_plan` (src/booksaver/monitor/user_limits.py) gives each user.
use mathlib.Core.Path.{subst}
use mathlib.Core.List.{Memᴰ}
use booksaver_agent.Base.{
  ℕ, zero, suc, ◌-◌, ◌≡◌, ◌≤◌, ◌⊎◌, inl, inr, refl, sym, ap, ◌∙◌, true, none, some, List, [], ◌∷◌,
  ◌++◌, ltb, leb, ◌==◌, length, take, is_nil, if◌then◌else◌, arith, All, Bool-cases, length-take_le,
  ==_iff, leb→le,
}
use booksaver_agent.Base.Pairs.{All-weaken, All-of_mem}
use booksaver_agent.Booking.{Booking}
use booksaver_agent.Monitor.Limits.{
  CheckPlan, Gathered, set_queue, gather_user, gather, build_check_plan, nothing_gathered,
}
use booksaver_agent.Monitor.Limits.Loop.{of_user, interleave-some, interleave_keeps}

module _ (bookings_by_user : ℕ → List Booking) (checks_today : ℕ → ℕ) (maximum : ℕ) where
  -- The checks that are left to a user today.
  abbrev quota : ℕ → List Booking
  quota u = take (maximum - checks_today u) (bookings_by_user u)

  abbrev step : ℕ → Gathered → Gathered
  step = gather_user bookings_by_user checks_today maximum

  take-nil : (n : ℕ) (xs : List Booking) → is_nil xs ≡ true → take n xs ≡ []
  take-nil zero xs h = refl
  take-nil (suc n) [] h = refl
  take-nil (suc n) (x ∷ xs) h = absurd (ground (arith, h))

  take_none : (user : ℕ) → leb maximum (checks_today user) ≡ true → quota user ≡ []
  take_none user f =
      ap (λ n. take n (bookings_by_user user))
        (no_difference maximum (checks_today user) (leb→le maximum (checks_today user) f))
    where
      no_difference : (a b : ℕ) → a ≤ b → a - b ≡ 0
      no_difference a b h = omega (arith, h)

  gather_user_cases :
      (user : ℕ) (g : Gathered)
      → (((step user g).queues ≡ g.queues)
          × ((step user g).eligible ≡ g.eligible)
          × (quota user ≡ []))
        ⊎ (((step user g).queues ≡ set_queue user (quota user) g.queues)
            × ((step user g).eligible ≡ g.eligible ++ user ∷ []))
  unfolding gather_user
  gather_user_cases user g = elim (Bool-cases (is_nil (bookings_by_user user))) [
    | inl e ↦
        rw e (inl (refl, refl, take-nil (maximum - checks_today user) (bookings_by_user user) e))
    | inr e ↦ elim (Bool-cases (leb maximum (checks_today user))) [
      | inl f ↦ rw (e, f) (inl (refl, refl, take_none user f))
      | inr f ↦
          elim (Bool-cases (ltb (maximum - checks_today user) (length (bookings_by_user user)))) [
            | inl k ↦ rw (e, f, k) (inr (refl, refl))
            | inr k ↦ rw (e, f, k) (inr (refl, refl))
          ]
    ]
  ]

  -- Every queue is empty, or is the user's quota and its user is eligible.
  abbrev IsFed : Gathered → Type 0
  IsFed g = (u : ℕ) → (g.queues u ≡ []) ⊎ ((g.queues u ≡ quota u) × Memᴰ u g.eligible)

  mem-append : (u : ℕ) (xs ys : List ℕ) → Memᴰ u xs → Memᴰ u (xs ++ ys)
  mem-append u [] ys m = elim m [ ]
  mem-append u (x ∷ xs) ys (Memᴰ.head e) = Memᴰ.head e
  mem-append u (x ∷ xs) ys (Memᴰ.tail m) = Memᴰ.tail (mem-append u xs ys m)

  mem-last : (u : ℕ) (xs : List ℕ) → Memᴰ u (xs ++ u ∷ [])
  mem-last u [] = Memᴰ.head refl
  mem-last u (x ∷ xs) = Memᴰ.tail (mem-last u xs)

  gather_user-IsFed : (user : ℕ) (g : Gathered) → IsFed g → IsFed (step user g)
  unfolding set_queue
  gather_user-IsFed user g fed u = elim (gather_user_cases user g) [
    | inl (q, e, z) ↦ elim (fed u) [
      | inl n ↦ inl (ap (λ f. f u) q ∙ n)
      | inr (n, m) ↦ inr (ap (λ f. f u) q ∙ n, subst (λ l. Memᴰ u l) (sym e) m)
    ]
    | inr (q, e) ↦ elim (Bool-cases (u == user)) [
      | inl same ↦
          let here = (==_iff u user).0 same in
          inr (
            ap (λ f. f u) q
                ∙ ap (λ b. if b then quota user else g.queues u) same
                ∙ ap quota (sym here),
            subst (λ l. Memᴰ u l) (sym e)
                (subst (λ v. Memᴰ u (g.eligible ++ v ∷ [])) here (mem-last u g.eligible)),
          )
      | inr other ↦
          let kept = ap (λ f. f u) q ∙ ap (λ b. if b then quota user else g.queues u) other in
          elim (fed u) [
            | inl n ↦ inl (kept ∙ n)
            | inr (n, m) ↦
                inr
                  (kept ∙ n, subst (λ l. Memᴰ u l) (sym e) (mem-append u g.eligible (user ∷ []) m))
          ]
    ]
  ]

  gather_user-later :
      (user u : ℕ) (g : Gathered) → g.queues u ≡ quota u → (step user g).queues u ≡ quota u
  unfolding set_queue
  gather_user-later user u g h = elim (gather_user_cases user g) [
    | inl (q, e, z) ↦ ap (λ f. f u) q ∙ h
    | inr (q, e) ↦ elim (Bool-cases (u == user)) [
      | inl same ↦
          ap (λ f. f u) q
          ∙ ap (λ b. if b then quota user else g.queues u) same
          ∙ ap quota (sym ((==_iff u user).0 same))
      | inr other ↦ ap (λ f. f u) q ∙ ap (λ b. if b then quota user else g.queues u) other ∙ h
    ]
  ]

  gather_user-quota : (user : ℕ) (g : Gathered) → IsFed g → (step user g).queues user ≡ quota user
  unfolding set_queue
  gather_user-quota user g fed = elim (gather_user_cases user g) [
    | inl (q, e, z) ↦ elim (fed user) [
      | inl n ↦ ap (λ f. f user) q ∙ n ∙ sym z
      | inr (n, m) ↦ ap (λ f. f user) q ∙ n
    ]
    | inr (q, e) ↦
        ap (λ f. f user) q
        ∙ ap (λ b. if b then quota user else g.queues user) ((==_iff user user).1 refl)
  ]

  abbrev all_gathered : List ℕ → Gathered → Gathered
  all_gathered = gather bookings_by_user checks_today maximum

  gather-IsFed : (users : List ℕ) (g : Gathered) → IsFed g → IsFed (all_gathered users g)
  unfolding gather
  gather-IsFed [] g fed = fed
  gather-IsFed (user ∷ users) g fed =
      gather-IsFed users (step user g) (gather_user-IsFed user g fed)

  gather-later :
      (users : List ℕ) (u : ℕ) (g : Gathered)
      → g.queues u ≡ quota u
      → (all_gathered users g).queues u ≡ quota u
  unfolding gather
  gather-later [] u g h = h
  gather-later (user ∷ users) u g h =
      gather-later users u (step user g) (gather_user-later user u g h)

  gather-quota :
      (users : List ℕ) (g : Gathered)
      → IsFed g
      → All (λ u. (all_gathered users g).queues u ≡ quota u) users
  unfolding gather
  gather-quota [] g fed = tt
  gather-quota (user ∷ users) g fed = (
    gather-later users user (step user g) (gather_user-quota user g fed),
    gather-quota users (step user g) (gather_user-IsFed user g fed),
  )

  -- The check plan exists, whatever the users, their bookings and the day's counts: its loop ends
  -- within the daily maximum and one turn. What it plans for each of the users is, in order, the
  -- first of the user's bookings, as many as are left of the user's daily maximum.
  pub build_check_plan-quota :
      (users : List ℕ)
      → (plan : CheckPlan) × (build_check_plan users bookings_by_user checks_today maximum
          ≡ some plan)
        × All (λ u. of_user u plan.ordered ≡ quota u) users
  unfolding build_check_plan
  build_check_plan-quota users =
      let g = all_gathered users nothing_gathered in
      let fed = gather-IsFed users nothing_gathered (λ u. inl refl) in
      let (ordered, e) = interleave-some maximum g.eligible g.queues (
        All-of_mem (λ u. length (g.queues u) ≤ maximum) g.eligible
          (λ u m. elim (fed u) [
            | inl n ↦ omega (arith, ap (λ l. length l) n)
            | inr (n, k) ↦ omega (
              arith,
              ap (λ l. length l) n,
              length-take_le (maximum - checks_today u) (bookings_by_user u),
            )
          ])) in
      let kept =
        interleave_keeps (suc maximum) g.eligible g.queues ordered
          (λ u. elim (fed u) [ inl n ↦ inl n | inr (n, m) ↦ inr m ]) e in
      (
        record { ordered = ordered; capped_user_ids = g.capped; skipped = g.skipped },
        ap
            (λ o. elim o [
              | none ↦ none
              | some planned ↦
                  some
                    (record { ordered = planned; capped_user_ids = g.capped; skipped = g.skipped })
            ])
            e,
        All-weaken (λ u. g.queues u ≡ quota u) (λ u. of_user u ordered ≡ quota u) users
            (λ u h. kept u ∙ h) (gather-quota users nothing_gathered (λ u. inl refl)),
      )
