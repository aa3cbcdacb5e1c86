-- ===== src/Monitor.antt =====
-- The limits of the monitor (src/booksaver/monitor).
mod Tests
pub mod Limits
pub mod Failures
pub mod FailureCodes
