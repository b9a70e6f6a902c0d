-- ===== src/Podman.antt =====
-- src/podman: finding the runtime, and running a command inside a container.
pub mod Tail
pub mod Exec
pub mod Client
