-- ===== src/Cluster/Join/Tests.antt =====
-- A second master joins.
use autok3s.Base.{true, [], ◌∷◌}
use autok3s.Types.{Cluster}
use autok3s.Types.Sample.{etcd_cluster, blank_status, node_at}
use autok3s.Cluster.World.{World}

abbrev added : Cluster
added = record etcd_cluster {
  state = record blank_status { master_nodes = node_at true "m2" "10.0.0.2" ∷ [] };
}

abbrev before : World
before = record { cluster = etcd_cluster; log = []; rows = []; err_m = [] }
