-- ===== src/Savings/Pipeline.antt =====
-- SavingsPipeline and NotificationDispatcher of src/booksaver/application/savings_pipeline.py, with
-- the table of opportunities (SqliteSavingsRepository of
-- src/booksaver/infrastructure/persistence/sqlite_store.py). The lookup of a reservation, the
-- notifiers and what resolves them, the fresh identifiers and the clock are parameters; the texts of
-- an alert are not modelled. The n-th result draws the n-th identifier and instant.
pub mod Rows
pub mod Laws
use booksaver_agent.Base.{
  ℕ, suc, ◌+◌, ◌≡◌, Bool, true, false, not, Option, none, some, List, [], ◌∷◌, ◌++◌, map, any, ◌==◌,
  if◌then◌else◌, Result, ok, err, Error,
}
use booksaver_agent.Base.Text.{Text}
use booksaver_agent.Booking.{Booking}
use booksaver_agent.Savings.Detect.{
  CheckResult, SavingsOpportunity, Detection, detect_savings, is_success,
}

-- A channel and whether its `send` returns.
pub record Notifier : Type 0 where
  pub channel_name : ℕ
  pub send : SavingsOpportunity → Booking → Bool

pub record ChannelOutcome : Type 0 where
  pub channel : ℕ
  pub is_ok : Bool

-- `add`, under the unique identifier
unfoldable pub add : SavingsOpportunity → List SavingsOpportunity → Result (List SavingsOpportunity)
add s rows =
    if any (λ row. row.opportunity_id == s.opportunity_id) rows
    then err Error.integrity_error
    else ok (rows ++ (s ∷ []))

-- `with_notified_at`
abbrev pub with_notified_at : ℕ → SavingsOpportunity → SavingsOpportunity
with_notified_at at s = record s { notified_at = some at }

unfoldable pub mark_notified : ℕ → ℕ → List SavingsOpportunity → List SavingsOpportunity
mark_notified opportunity_id at rows =
    map (λ row. if row.opportunity_id == opportunity_id then with_notified_at at row else row) rows

-- The loop of `dispatch`: every channel is tried, whatever the others do.
unfoldable pub attempt : List Notifier → SavingsOpportunity → Booking → List ChannelOutcome
attempt notifiers s b = map (λ n. record { channel = n.channel_name; is_ok = n.send s b }) notifiers

abbrev pub is_delivered : List ChannelOutcome → Bool
is_delivered outcomes = any (λ o. o.is_ok) outcomes

abbrev pub prepend_found :
    Option SavingsOpportunity → Result (List SavingsOpportunity) → Result (List SavingsOpportunity)
prepend_found o (err e) = err e
prepend_found none (ok found) = ok found
prepend_found (some s) (ok found) = ok (s ∷ found)

module _ (lower : Text → Text) (get_by_id : ℕ → Option Booking)
    (resolver : Booking → Result (List Notifier)) (ids clock : ℕ → ℕ) where
  -- `dispatch`; the resolver is called outside its `try`.
  unfoldable pub dispatch : SavingsOpportunity → Booking → Result (List ChannelOutcome)
  dispatch s b = elim (resolver b) [ err e ↦ err e | ok notifiers ↦ ok (attempt notifiers s b) ]

  -- The end of an iteration, once the opportunity is stored.
  unfoldable pub notify :
      ℕ
      → SavingsOpportunity
      → Booking
      → List SavingsOpportunity
      → List SavingsOpportunity × Result (Option SavingsOpportunity)
  notify n s b rows = elim (dispatch s b) [
    | err e ↦ (rows, err e)
    | ok outcomes ↦ (
      if is_delivered outcomes then mark_notified s.opportunity_id (clock n) rows else rows,
      ok (some s),
    )
  ]

  unfoldable pub on_detection :
      ℕ
      → Booking
      → Result Detection
      → List SavingsOpportunity
      → List SavingsOpportunity × Result (Option SavingsOpportunity)
  on_detection n b (err e) rows = (rows, err e)
  on_detection n b (ok (Detection.rejected reason)) rows = (rows, ok none)
  on_detection n b (ok (Detection.saving s)) rows = elim (add s rows) [
    | err e ↦ (rows, err e)
    | ok added ↦ notify n s b added
  ]

  -- One iteration of `process`.
  unfoldable pub process_one :
      ℕ
      → CheckResult
      → List SavingsOpportunity
      → List SavingsOpportunity × Result (Option SavingsOpportunity)
  process_one n r rows =
      if is_success r.outcome
      then (elim (get_by_id r.booking_id) [
        | none ↦ (rows, ok none)
        | some b ↦ on_detection n b (detect_savings lower (ids n) b r) rows
      ])
      else (rows, ok none)

  unfoldable pub process :
      ℕ
      → List CheckResult
      → List SavingsOpportunity
      → List SavingsOpportunity × Result (List SavingsOpportunity)
  process n [] rows = (rows, ok [])
  process n (r ∷ results) rows =
      let (after, outcome) = process_one n r rows in
      elim outcome [
        | err e ↦ (after, err e)
        | ok o ↦ let (last, rest) = process (suc n) results after in (last, prepend_found o rest)
      ]
