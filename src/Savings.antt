-- ===== src/Savings.antt =====
-- Savings opportunities: src/booksaver/domain/savings.py.
mod Tests
pub mod Detect
pub mod Pipeline
