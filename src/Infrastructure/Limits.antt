-- ===== src/Infrastructure/Limits.antt =====
-- infrastructure/fragments/token_budget_manager.py, and the rate limits of infrastructure/client.
pub mod Retry
pub mod Budget
pub mod RateLimit
