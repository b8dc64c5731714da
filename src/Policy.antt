-- ===== src/Policy.antt =====
-- src/policy.rs: the agent policy. Patterns, remote paths, and the engine that joins them.
pub mod Wildcard
pub mod Paths
pub mod Engine
