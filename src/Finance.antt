-- ===== src/Finance.antt =====
-- Fees and payments (src/finance): money arithmetic, the ledger, payments and invoices.
pub mod FeeMath
pub mod Ledger
pub mod Receipts
pub mod Store
pub mod Payments
pub mod StudentFees
pub mod Histories
mod Tests
