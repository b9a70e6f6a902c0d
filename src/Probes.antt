-- ===== src/Probes.antt =====
-- src/probes: the health checks, the time they get, and the runner that holds them to it.
pub mod Budget
pub mod Runner
pub mod VersionDrift
pub mod TimezoneDrift
pub mod DependencyDrift
