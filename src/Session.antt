-- ===== src/Session.antt =====
-- src/session.rs: the tables of sessions and tunnels.
pub mod Tables
pub mod Manager
pub mod Views
