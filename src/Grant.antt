-- ===== src/Grant.antt =====
-- src/grant.rs: reusable grants, and plans whose actions are approved as one.
pub mod Rows
pub mod Service
pub mod Plans
pub mod Summaries
