-- ===== src/Account.antt =====
-- What BookSaver reads of a Booking.com account: src/booksaver/domain/account_sync.py and
-- src/booksaver/domain/monitoring_stall.py.
mod Tests
pub mod Eligibility
pub mod Stall
