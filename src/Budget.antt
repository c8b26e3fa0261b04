-- ===== src/Budget.antt =====
-- internal/budget: prices, the ledger of what each tenant has spent, and the pipeline's stage.
mod Examples
pub mod Pricing
pub mod Ledger
pub mod Stage
