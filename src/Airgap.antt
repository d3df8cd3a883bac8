-- ===== src/Airgap.antt =====
-- pkg/airgap: the packages of k3s files that are kept for installations without a network.
pub mod Archs
pub mod DataPath
pub mod Disk
pub mod Verify
pub mod Download
pub mod Prepare
mod Tests
