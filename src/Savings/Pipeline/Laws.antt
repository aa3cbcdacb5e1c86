-- ===== src/Savings/Pipeline/Laws.antt =====
-- What the pipeline stores and reports for a batch of check results.
use booksaver_agent.Base.{
  ℕ, suc, ◌≤◌, ◌≡◌, ◌≢◌, sym, ap, ◌∙◌, true, Option, none, some, List, [], ◌∷◌, ◌++◌, if◌then◌else◌,
  Result, ok, err, Error, Result-cases, All, All-append, inl, inr, arith, Bool-cases, Option-cases,
}
use mathlib.Core.Path.{subst}
use mathlib.Core.List.{append_assoc, append-nil}
use booksaver_agent.Base.Text.{Text}
use booksaver_agent.Booking.{Booking}
use booksaver_agent.Savings.Detect.{
  CheckResult, SavingsOpportunity, Detection, detect_savings, check_result, is_success,
}
use booksaver_agent.Savings.Pipeline.{
  Notifier, with_notified_at, attempt, is_delivered, dispatch, notify, prepend_found, on_detection,
  process_one, process,
}
use booksaver_agent.Savings.Pipeline.Rows.{
  detect-identity, detect-returns, failure-undetected, added, mark-last,
}

module _ (lower : Text → Text) (get_by_id : ℕ → Option Booking)
    (resolver : Booking → Result (List Notifier)) (ids clock : ℕ → ℕ) where
  -- The row of an opportunity: it says when the user was told, if any channel delivered.
  abbrev pub noted : ℕ → SavingsOpportunity → Booking → List Notifier → SavingsOpportunity
  noted n s b notifiers =
      if is_delivered (attempt notifiers s b) then with_notified_at (clock n) s else s

  -- The rows that a batch adds and how it ends: one row and one reported opportunity for every result
  -- in which a saving on a known reservation is detected, in order, and nothing else; where the
  -- notifiers of such a reservation cannot be resolved, the row is added and the batch ends with that
  -- error.
  pub data Recorded
      : ℕ
        → List CheckResult
        → List SavingsOpportunity
        → Result (List SavingsOpportunity)
        → Type 0 where
    done : {n : ℕ} → Recorded n [] [] (ok [])
    skip :
        {n : ℕ} {r : CheckResult} {results : List CheckResult} {rows : List SavingsOpportunity}
        {outcome : Result (List SavingsOpportunity)}
        → ((b : Booking) (s : SavingsOpportunity)
            → get_by_id r.booking_id ≡ some b
            → detect_savings lower (ids n) b r ≢ ok (Detection.saving s))
        → Recorded (suc n) results rows outcome
        → Recorded n (r ∷ results) rows outcome
    save :
        {n : ℕ} {r : CheckResult} {results : List CheckResult} {rows : List SavingsOpportunity}
        {outcome : Result (List SavingsOpportunity)} (b : Booking) (s : SavingsOpportunity)
        (notifiers : List Notifier)
        → get_by_id r.booking_id ≡ some b
        → detect_savings lower (ids n) b r ≡ ok (Detection.saving s)
        → resolver b ≡ ok notifiers
        → Recorded (suc n) results rows outcome
        → Recorded n (r ∷ results) (noted n s b notifiers ∷ rows) (prepend_found (some s) outcome)
    halt :
        {n : ℕ} {r : CheckResult} {results : List CheckResult} (b : Booking)
        (s : SavingsOpportunity) (error : Error)
        → get_by_id r.booking_id ≡ some b
        → detect_savings lower (ids n) b r ≡ ok (Detection.saving s)
        → resolver b ≡ err error
        → Recorded n (r ∷ results) (s ∷ []) (err error)

  -- The three ways in which an iteration ends.
  data Turn (n : ℕ) (r : CheckResult) (rows : List SavingsOpportunity) : Type 0 where
    skipped :
        process_one lower get_by_id resolver ids clock n r rows ≡ (rows, ok none)
        → ((b : Booking) (s : SavingsOpportunity)
            → get_by_id r.booking_id ≡ some b
            → detect_savings lower (ids n) b r ≢ ok (Detection.saving s))
        → Turn n r rows
    saved :
        (b : Booking) (s : SavingsOpportunity) (notifiers : List Notifier)
        → process_one lower get_by_id resolver ids clock n r rows
          ≡ (rows ++ (noted n s b notifiers ∷ []), ok (some s))
        → get_by_id r.booking_id ≡ some b
        → detect_savings lower (ids n) b r ≡ ok (Detection.saving s)
        → resolver b ≡ ok notifiers
        → Turn n r rows
    halted :
        (b : Booking) (s : SavingsOpportunity) (error : Error)
        → process_one lower get_by_id resolver ids clock n r rows ≡ (rows ++ (s ∷ []), err error)
        → get_by_id r.booking_id ≡ some b
        → detect_savings lower (ids n) b r ≡ ok (Detection.saving s)
        → resolver b ≡ err error
        → Turn n r rows

  marked :
      (n : ℕ) (s : SavingsOpportunity) (b : Booking) (notifiers : List Notifier)
      (rows : List SavingsOpportunity)
      → resolver b ≡ ok notifiers
      → All (λ row. row.opportunity_id ≢ s.opportunity_id) rows
      → notify lower get_by_id resolver ids clock n s b (rows ++ (s ∷ []))
        ≡ (rows ++ (noted n s b notifiers ∷ []), ok (some s))
  unfolding notify dispatch
  marked n s b notifiers rows known fresh =
      let last = mark-last (clock n) rows s fresh in
      elim (Bool-cases (is_delivered (attempt notifiers s b))) [
        | inl e ↦ ground (arith, known, last, e)
        | inr e ↦ ground (arith, known, e)
      ]

  notified :
      (n : ℕ) (b : Booking) (s : SavingsOpportunity) (notifiers : List Notifier)
      (rows : List SavingsOpportunity)
      → resolver b ≡ ok notifiers
      → All (λ row. row.opportunity_id ≢ s.opportunity_id) rows
      → on_detection lower get_by_id resolver ids clock n b (ok (Detection.saving s)) rows
        ≡ (rows ++ (noted n s b notifiers ∷ []), ok (some s))
  unfolding on_detection
  notified n b s notifiers rows known fresh =
      let stored = added s rows fresh in
      let rest = marked n s b notifiers rows known fresh in ground (arith, stored, rest)

  unresolved :
      (n : ℕ) (b : Booking) (s : SavingsOpportunity) (error : Error)
      (rows : List SavingsOpportunity)
      → resolver b ≡ err error
      → All (λ row. row.opportunity_id ≢ s.opportunity_id) rows
      → on_detection lower get_by_id resolver ids clock n b (ok (Detection.saving s)) rows
        ≡ (rows ++ (s ∷ []), err error)
  unfolding on_detection notify dispatch
  unresolved n b s error rows unknown fresh =
      let stored = added s rows fresh in ground (arith, stored, unknown)

  known :
      (n : ℕ) (r : CheckResult) (rows : List SavingsOpportunity) (b : Booking) (d : Detection)
      → All (λ row. row.opportunity_id ≢ ids n) rows
      → is_success r.outcome ≡ true
      → get_by_id r.booking_id ≡ some b
      → detect_savings lower (ids n) b r ≡ ok d
      → Turn n r rows
  unfolding process_one on_detection
  known n r rows b (Detection.rejected reason) fresh k e h =
      skipped (ground (arith, k, e, h)) (λ c s f g. cc (e, f, h, g))
  known n r rows b (Detection.saving s) fresh k e h =
      let identity = detect-identity lower (ids n) b r s h in
      let new = subst (λ i. All (λ row. row.opportunity_id ≢ i) rows) (sym identity) fresh in
      elim (Result-cases (resolver b)) [
        | inl (notifiers, resolved) ↦
            let done = notified n b s notifiers rows resolved new in
            saved b s notifiers (ground (arith, k, e, h, done)) e h resolved
        | inr (error, failed) ↦
            let done = unresolved n b s error rows failed new in
            halted b s error (ground (arith, k, e, h, done)) e h failed
      ]

  turn :
      (n : ℕ) (r : CheckResult) (rows : List SavingsOpportunity)
      → All (λ row. row.opportunity_id ≢ ids n) rows
      → check_result r ≡ ok tt
      → Turn n r rows
  unfolding process_one
  turn n r rows fresh h = elim (Bool-cases (is_success r.outcome)) [
    | inr failed ↦
        skipped (ground (arith, failed))
          (λ b s e f. failure-undetected lower (ids n) b r s failed f)
    | inl k ↦ elim (Option-cases (get_by_id r.booking_id)) [
      | inl e ↦ skipped (ground (arith, k, e)) (λ b s f g. cc (e, f))
      | inr (b, e) ↦
          let (d, decided) = detect-returns lower (ids n) b r h k in
          known n r rows b d fresh k e decided
    ]
  ]

  module _ (distinct : (j k : ℕ) → ids j ≡ ids k → j ≡ k) where
    abbrev Unused : ℕ → List SavingsOpportunity → Type 0
    Unused n rows = (k : ℕ) → n ≤ k → All (λ row. row.opportunity_id ≢ ids k) rows

    later : (n : ℕ) (rows : List SavingsOpportunity) → Unused n rows → Unused (suc n) rows
    later n rows unused k h = unused k (omega (arith, h))

    noted-identity :
        (n : ℕ) (s : SavingsOpportunity) (b : Booking) (notifiers : List Notifier)
        → (noted n s b notifiers).opportunity_id ≡ s.opportunity_id
    noted-identity n s b notifiers = ground arith

    stored :
        (n : ℕ) (rows : List SavingsOpportunity) (row : SavingsOpportunity)
        → row.opportunity_id ≡ ids n
        → Unused n rows
        → Unused (suc n) (rows ++ (row ∷ []))
    stored n rows row e unused k h =
        All-append (λ other. other.opportunity_id ≢ ids k) rows (row ∷ [])
          (unused k (omega (arith, h)))
          ((λ same. let clash = distinct n k (sym e ∙ same) in omega (arith, clash, h)), tt)

    recorded :
        (n : ℕ) (results : List CheckResult) (rows : List SavingsOpportunity)
        → Unused n rows
        → All (λ r. check_result r ≡ ok tt) results
        → (added_rows : List SavingsOpportunity) × (outcome : Result (List SavingsOpportunity))
          × (process lower get_by_id resolver ids clock n results rows
              ≡ (rows ++ added_rows, outcome))
          × Recorded n results added_rows outcome
    unfolding process
    recorded n [] rows unused h = ([], ok [], ap (λ xs. (xs, ok [])) (sym (append-nil rows)), done)
    recorded n (r ∷ results) rows unused h = elim (turn n r rows (unused n (omega arith)) h.0) [
      | skipped e no_saving ↦
          let (more, outcome, rest, spec) =
            recorded (suc n) results rows (later n rows unused) h.1 in
          (more, outcome, ground (arith, e, rest), skip no_saving spec)
      | saved b s notifiers e k detected resolved ↦
          let row = noted n s b notifiers in
          let identity =
            noted-identity n s b notifiers ∙ detect-identity lower (ids n) b r s detected in
          let (more, outcome, rest, spec) =
            recorded (suc n) results (rows ++ (row ∷ [])) (stored n rows row identity unused) h.1 in
          (
            row ∷ more,
            prepend_found (some s) outcome,
            let assoc = append_assoc rows (row ∷ []) more in ground (arith, e, rest, assoc),
            save b s notifiers k detected resolved spec,
          )
      | halted b s error e k detected failed ↦
          (s ∷ [], err error, ground (arith, e), halt b s error k detected failed)
    ]

-- Where every check is well formed and the drawn identifiers are distinct and not in the table: every
-- earlier row stays as it was, and for each result in which a saving on a known reservation is
-- detected, in their order, one row is added and one opportunity is reported, and for no other; the
-- row says when the user was told exactly where one of the channels delivered. A batch raises only
-- where the notifiers of such a reservation cannot be resolved, and ends there: that row is the last
-- that is added, and no opportunity is reported.
pub process-Recorded :
    (lower : Text → Text) (get_by_id : ℕ → Option Booking)
    (resolver : Booking → Result (List Notifier)) (ids clock : ℕ → ℕ)
    → ((j k : ℕ) → ids j ≡ ids k → j ≡ k)
    → (results : List CheckResult) (rows : List SavingsOpportunity)
    → ((k : ℕ) → All (λ row. row.opportunity_id ≢ ids k) rows)
    → All (λ r. check_result r ≡ ok tt) results
    → (added_rows : List SavingsOpportunity) × (outcome : Result (List SavingsOpportunity))
      × (process lower get_by_id resolver ids clock 0 results rows ≡ (rows ++ added_rows, outcome))
      × Recorded lower get_by_id resolver ids clock 0 results added_rows outcome
process-Recorded lower get_by_id resolver ids clock distinct results rows unused checked =
    recorded lower get_by_id resolver ids clock distinct 0 results rows (λ k h. unused k) checked
