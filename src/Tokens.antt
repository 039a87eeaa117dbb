-- ===== src/Tokens.antt =====
-- kanbrick-tokens: prices, the ledger of spend and budgets.
mod Tests
pub mod Pricing
pub mod Ledger
pub mod Budget
pub mod Spend
