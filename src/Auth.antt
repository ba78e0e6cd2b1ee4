-- ===== src/Auth.antt =====
-- src/nc3_testing_platform/domains/auth, and core/security.py: accounts, sessions, the second factor.
pub mod Tables
pub mod Mfa
pub mod Service
pub mod Accounts
pub mod Sessions
pub mod Login
pub mod Consents
pub mod Registration
