-- ===== src/Lib.antt =====
-- autok3s creates and runs k3s clusters on cloud providers and on machines reached by ssh.
--
-- The program's parts and how they interact. A command or an API request sets the options of a
-- ProviderBase (pkg/cluster/base.go). It checks them, creates instances by a provider, and calls
-- InitK3sCluster, Join or Upgrade (pkg/cluster/cluster.go), which run commands on the hosts by ssh. The
-- commands come from pkg/cluster/commands.go. A cluster may have a package of k3s files
-- (pkg/airgap), downloaded from a mirror and checked by sha256, or given as a path; the files are
-- copied to the hosts before the commands run. Clusters, packages, settings, kube-explorers,
-- credentials, keys, add-ons and templates are rows of a database (pkg/common/model.go), whose methods
-- announce their changes to the readers of a Broadcaster (pkg/common/broadcast.go) and count clusters in
-- a gauge. UpgradeK3sCluster, JoinNodes and DeleteCluster of pkg/cluster/base.go put the parts together: they
-- read and write the cluster's row around the work on the hosts.
--
-- Which file models which part:
--   Base       strings, maps, Go's errors (Base.Fallible) and methods on a state (Base.Exec)
--   Types      pkg/types/autok3s.go: Cluster, Node, SSH, Status, and pkg/common/package.go: Package.
--              Types.Array is StringArray with Value and Scan
--   Cluster.Commands   pkg/cluster/commands.go: getTLSSans, getRunArgs, getCommand
--   Cluster.World      the hosts, this machine and the database as the install flow uses them:
--              execute, executeWithRetry, scpFiles, SaveCfg, SaveCluster, and the deferred removal
--   Cluster.Nodes      pkg/cluster/cluster.go: initNode, initControlNode, initWorkerNode,
--              handleRegistry, handleDataStoreCertificate, nodeByInstanceID
--   Cluster.Install    InitK3sCluster and validateClusterConfig
--   Cluster.Join       Join
--   Cluster.Upgrade    Upgrade, and the options that UpgradeK3sCluster merges
--   Cluster.Checks     pkg/cluster/base.go: CheckCreateArgs, CheckJoinArgs
--   Cluster.Lifecycle  pkg/cluster/base.go: the end of InitCluster, and RollbackCluster
--   Cluster.Uninstall  pkg/cluster/cluster.go: UninstallK3sNodes
--   Cluster.Sync       pkg/cluster/base.go: syncExistNodes
--   Airgap.Archs       pkg/airgap/archs.go, and version.diff of pkg/airgap/download.go
--   Airgap.DataPath    getDataPath of pkg/airgap/file_scp.go
--   Airgap.Disk        the directory of a package and its row
--   Airgap.Verify      pkg/airgap/utils.go: VerifyFiles and verifyArchFiles
--   Airgap.Download    pkg/airgap/download.go: DownloadPackage and downloadPackage
--   Airgap.Prepare     PreparePackage of pkg/airgap/file_scp.go, ReadToTmp of pkg/airgap/tarfiles.go
--   Database.Rows, Keys, Counts, NameKey   rows of a table and their keys, as lists
--   Database.Table, Keyed   what gorm promises of a table: a parameter with its laws, and tables in memory
--                      that have them
--   Database.Store     pkg/common/model.go: the store with the events and gauges that its methods send
--   Database.ClusterState   the row of a cluster, ConvertToCluster and the row that SaveCluster writes
--   Database.Clusters  SaveCluster, SaveClusterState, DeleteCluster, GetCluster, ListCluster, FindCluster
--   Database.Settings  pkg/common/setting_provider.go and pkg/settings/setting.go
--   Database.Explorers pkg/common/explorer.go, and the explorers of pkg/common/model.go
--   Database.Credentials, SshKeys, Packages, Addons, Templates   the other tables of pkg/common:
--                      model.go, sshkey.go, package.go, addon.go
--   Events             pkg/common/broadcast.go, with the readers Watch and Log of the store
--   Providers          pkg/providers/provider.go: the registry of the providers
--   Manage.Upgrade     pkg/cluster/base.go: UpgradeK3sCluster
--   Manage.Deletion    DeleteCluster
--   Manage.Merge       MergeConfig and overwriteMetadata, with MergeConfig of pkg/utils/util.go on SSH
--   Manage.Join        the nodes that JoinNodes adds, and its deferred function
--   Native             pkg/providers/native/native.go: checks, defaults and assembleNodeStatus
--   Native.Instances   its syncInstanceNodes and uninstallCluster
--
-- State and operations. A method is a function from a state to a result and a state, so that what was
-- written before an error stays written. The state of the install flow is a World: the caller's cluster,
-- which the methods change in place, the log of what was done, the rows saved, and ErrM. That of a
-- download is a Disk. Each has a record of what lies outside (Outside, Machine, Facts, Answers): the
-- answers of hosts, mirror, database, sha256, gzip, tar, YAML and the cloud provider. The answers of hosts and
-- database may depend on all that was done before. A sent command stands in the log with whether it
-- succeeded. A Go map is an association list; where the program walks a map, the order of the list stands
-- for the walk's.
--
-- Bounds. Loops are recursions on their lists and no model takes fuel. executeWithRetry counts its
-- attempts as the code does. strconv.Atoi has the bounds of 64 bits.
--
-- A table of the database is a parameter: what gorm and SQLite document of reading, creating, saving and
-- deleting rows are its laws, and an instance in memory has them. The goroutines of the Broadcaster, its
-- mutex and its readers are a relation of steps, which interleave freely.
--
-- Not modelled: the interleaving of the workers' goroutines inside one worker (each worker is installed
-- as a whole, in an order that is a parameter); failures of the local file system; logs, callbacks and
-- metrics; sftp; the certificates of registries; the clients of the cloud vendors; the HTTP server and
-- the command line; processes of kube-explorer and of the dashboard, of which only the start and the stop
-- are recorded; hooks that the server registers with gorm; the body of JoinNodes between the nodes it adds and its
-- deferred function.
pub mod Base
pub mod Types
pub mod Cluster
pub mod Airgap
pub mod Database
pub mod Events
pub mod Providers
pub mod Manage
pub mod Native
