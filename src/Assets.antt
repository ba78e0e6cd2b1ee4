-- ===== src/Assets.antt =====
-- src/nc3_testing_platform/domains/assets: the proofs of control over a domain.
pub mod Names
pub mod Verification
pub mod Tables
pub mod Service
pub mod Check
