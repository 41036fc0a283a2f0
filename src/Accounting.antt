-- ===== src/Accounting.antt =====
-- The shared accounting engine (app/accounting).
pub mod Errors
pub mod Decimal
pub mod Lines
pub mod Entities
pub mod Store
pub mod Journal
pub mod Table
pub mod Listing
pub mod Coa
pub mod Accounts
pub mod Reports
mod Tests
