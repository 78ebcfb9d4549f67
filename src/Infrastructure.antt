-- ===== src/Infrastructure.antt =====
-- src/pr_auto_reviewer/infrastructure: the adapters.
pub mod PrRepository
pub mod Limits
