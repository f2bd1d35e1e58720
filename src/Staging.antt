-- ===== src/Staging.antt =====
-- staging_budget.go: temporary copies and the budget that their bytes are charged to.
pub mod Defs
pub mod Charges
