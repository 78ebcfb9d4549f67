-- ===== src/Application/Findings.antt =====
-- application/services/finding_*.py: the findings of all phases as one review.
pub mod Deduplicator
pub mod Summary
pub mod Aggregator
