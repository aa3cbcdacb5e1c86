-- ===== src/Lib.antt =====
-- BookSaver watches the Booking.com reservations of its users, checks at random times of the day
-- whether an equivalent offer has become cheaper, and tells the user of a saving. This library
-- models the parts of it that decide when a check runs, which offer counts and what is a saving.
--
-- The parts, from the repository's root, and the files that model them:
--   * src/booksaver/domain/schedule.py: Schedule/Slot (settings, slots and their constructor's
--     checks) and Schedule/Generate (`generate_daily_slots`).
--   * src/booksaver/infrastructure/persistence/scheduled_check_slots.py: Schedule/Store. The table
--     is a list of rows and the set of active users; each method is a function from the table to a
--     new one and its result, one transaction each. Rows has the SQL operations that the methods
--     share, Insert the planning, Due `prepare_due`, Claim the start and the end of a slot.
--   * src/booksaver/application/schedule_dispatcher.py: Schedule/Dispatcher, one pass of it over
--     the repository. The coordinator that runs a slot, the clock and the stop event are parameters.
--   * src/booksaver/domain/offer.py and src/booksaver/domain/meal_plan.py: Offer/Select and
--     Offer/MealPlan, on the reservation of Booking.
--   * src/booksaver/domain/savings.py, with the check result of src/booksaver/domain/check_result.py:
--     Savings/Detect. src/booksaver/application/savings_pipeline.py: Savings/Pipeline, a batch of
--     results over the table of opportunities.
--   * src/booksaver/monitor/user_limits.py and src/booksaver/monitor/failure_tracker.py:
--     Monitor/Limits and Monitor/Failures. The failure codes of terminal browser reasons
--     (src/booksaver/domain/check_result.py) are in Monitor/FailureCodes.
--   * src/booksaver/domain/account_sync.py and src/booksaver/domain/monitoring_stall.py:
--     Account/Eligibility and Account/Stall.
--   * src/booksaver/infrastructure/telegram/access.py, src/booksaver/domain/user.py and the users and
--     invite codes of src/booksaver/infrastructure/persistence/sqlite_store.py: Access. Database has
--     the two tables with their constraints and the repositories' methods, Gate the decision on a
--     message, RateLimiter the limit on replies.
--   * src/booksaver/domain/browser_resilience.py and the registry and classifier of
--     src/booksaver/application/browser_resilience.py: Browser. Steps and Registry have the steps
--     with their mappings, Classify the page states, Diagnosis the final results; Members is about
--     the enumerations.
--   * The check interval of src/booksaver/domain/value_objects.py: Values.
--   * src/booksaver/domain/user_session.py and src/booksaver/domain/session_maintenance.py: Session.
--     src/booksaver/infrastructure/persistence/encrypted_session_store.py: Session/Store, the files of
--     one owner.
-- The dispatcher plans each user's days with the generator, asks the repository for the due slots
-- and has the coordinator claim and run them; a run ends in a check result, which the savings
-- gate compares with the reservation.
--
-- Instants and durations are numbers of microseconds, a check interval of seconds, dates numbers of
-- days, a day beginning at a multiple of its length. Dates have no end: planning the last one that
-- Python represents, where the code raises OverflowError, is not modelled. Identifiers that the code
-- draws at random are arguments. Python's errors
-- are values of `Result` (Base/Results), without their messages. Division of a duration rounds half
-- to even (Base/Round). Amounts are numbers of a unit that every amount at hand is a multiple of.
-- The round robin of the check plan runs on fuel, one turn more than the daily maximum, which is
-- more than its longest queue, and the digits of a number on one more than the number, which is more
-- than it has digits; everything else is structural recursion.
--
-- Not modelled: the browser and model runs, the check coordinator with its threads, the other
-- tables, the chat commands, the delivery and the texts of notifications, configuration, encryption
-- and key storage, which are input and output or build on them; the regular expressions of the meal
-- wording, whose findings are the input of the model; the Unicode tables of `str.lower` and of the
-- digits of `\d`, which are parameters.
pub mod Base
pub mod Access
pub mod Values
pub mod Browser
pub mod Schedule
pub mod Booking
pub mod Offer
pub mod Session
pub mod Monitor
pub mod Savings
pub mod Account
