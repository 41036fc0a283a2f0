-- ===== src/Accounting/Coa.antt =====
-- The mapping of the products' own charts of accounts to the canonical accounts.
pub mod Systems
pub mod Rows
pub mod Sources
pub mod Mappings
pub mod Posting
pub mod Gaps
mod Tests
