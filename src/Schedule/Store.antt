-- ===== src/Schedule/Store.antt =====
-- The slot repository (src/booksaver/infrastructure/persistence/scheduled_check_slots.py), over the
-- rows of its table.
pub mod Rows
pub mod Insert
pub mod Due
pub mod Claim
pub mod RowLaws
pub mod Lifecycle
pub mod Sound
pub mod ClaimLaws
pub mod ClaimEffect
pub mod ClaimExclusive
pub mod ClaimSuccess
pub mod InsertLaws
pub mod InsertSound
pub mod History
pub mod DueRows
pub mod DueChoice
pub mod DueLoops
pub mod DueLaws
pub mod Offered
