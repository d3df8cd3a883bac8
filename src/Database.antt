-- ===== src/Database.antt =====
-- pkg/common: the database. The tables are those of gorm, a library that is a parameter of the model.
pub mod Rows
pub mod Keys
pub mod Counts
pub mod NameKey
pub mod Explorers
pub mod Credentials
pub mod SshKeys
pub mod Packages
pub mod Addons
pub mod Templates
pub mod Table
pub mod Settings
pub mod Keyed
pub mod Store
pub mod ClusterState
pub mod Clusters
