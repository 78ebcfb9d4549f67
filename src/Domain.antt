-- ===== src/Domain.antt =====
-- src/pr_auto_reviewer/domain: the value objects, the entities and the domain services.
pub mod Status
pub mod Severity
pub mod Category
pub mod Item
pub mod Lifecycle
pub mod Identity
pub mod Verdict
pub mod Review
pub mod PullRequest
pub mod Guardrails
pub mod CitedPath
pub mod PhaseResult
pub mod AllowList
pub mod Renaming
pub mod UniqueIds
