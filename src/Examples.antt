-- ===== src/Examples.antt =====
-- The theorems at concrete inputs, and runs of the definitions.
pub mod Samples
mod Lifecycles
mod PullRequests
mod Conversations
mod Generator
mod Reviews
mod Audits
mod Findings
mod IssueCommands
mod Repositories
mod Limits
mod AllowLists
mod UniqueIds
