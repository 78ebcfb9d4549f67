-- ===== src/Application.antt =====
-- src/pr_auto_reviewer/application: the services.
pub mod Conversation
pub mod ReviewPullRequest
pub mod RemediationAudit
pub mod Findings
pub mod IssueCommands
pub mod RegisterIssue
