-- ===== src/Agent.antt =====
-- The resident agent of crates/avault-cli/src/main.rs.
pub mod Grants
pub mod GrantRequest
pub mod MasterCache
pub mod Admission
pub mod Use
pub mod Dispatch
