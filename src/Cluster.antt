-- ===== src/Cluster.antt =====
-- pkg/cluster: how nodes are installed, joined, upgraded and rolled back.
pub mod Commands
pub mod World
pub mod Nodes
pub mod Install
pub mod Upgrade
pub mod Checks
pub mod Lifecycle
pub mod Join
pub mod Sync
pub mod Uninstall
mod Tests
