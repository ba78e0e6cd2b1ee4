-- ===== src/Core.antt =====
-- src/nc3_testing_platform/core: what every other part uses.
pub mod Enums
pub mod Rls
pub mod ApiDb
pub mod Csrf
pub mod Redis
pub mod Settings
pub mod Crypto
pub mod Dns
