-- ===== src/Manage.antt =====
-- pkg/cluster/base.go: the methods of ProviderBase that change a cluster and its row in the database.
pub mod Site
pub mod Sample
pub mod Stored
pub mod Upgrade
pub mod Deletion
pub mod Join
pub mod Merge
