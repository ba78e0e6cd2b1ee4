-- ===== src/Modules.antt =====
-- src/nc3_testing_platform/modules: the contract of the scan modules, their registry and catalog, the
-- engines and what their words mean.
pub mod Contract
pub mod Namespaced
pub mod Registry
pub mod Catalog
pub mod Findings
pub mod Rows
pub mod Vocabulary
pub mod Dnssec
pub mod Pqc
pub mod Runners
pub mod Execution
pub mod Child
