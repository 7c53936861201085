-- ===== src/Admin.antt =====
-- frontend/src/lib/admin.ts: the moderation queues, and the decisions with their audit trail.
pub mod Queues
pub mod Detail
pub mod Decisions
pub mod Audit
pub mod Moderation
pub mod Turns
pub mod Answers
pub mod ModerationRuns
