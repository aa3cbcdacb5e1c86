-- ===== src/Schedule.antt =====
-- Randomized daily check slots (src/booksaver/domain/schedule.py, the slot repository and the
-- dispatcher).
mod Tests
pub mod Slot
pub mod Generate
pub mod Store
pub mod Dispatcher
