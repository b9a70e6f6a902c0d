-- ===== src/Drift.antt =====
-- src/drift: how far the server's packages are behind the registry, and the heal that moves the
-- plugin tree's copies.
pub mod Types
pub mod Store
pub mod Registry
pub mod Scanner
pub mod Scheduler
pub mod Classify
pub mod Explain
pub mod Heal
pub mod Installed
pub mod HealRoute
