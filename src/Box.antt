-- ===== src/Box.antt =====
-- The Box sandbox, box/: the names of its sessions and the grants that admit a Workspace to it.
pub mod Tenancy
pub mod Admission
pub mod Sessions
mod Tests
