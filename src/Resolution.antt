-- ===== src/Resolution.antt =====
-- src/config.rs: from the configuration's profiles to hops and credentials, and what makes a
-- configuration valid.
pub mod Auth
pub mod Profiles
pub mod Validation
pub mod Files
