-- ===== src/Service.antt =====
-- src/service.rs: what the gateway does with a request.
pub mod Action
pub mod World
pub mod Operations
pub mod Decisions
pub mod Management
pub mod Results
pub mod Approve
