-- ===== src/Manage/Sample.antt =====
-- A database in memory with one cluster of the native provider.
use autok3s.Base.{false, ok, refl}
use autok3s.Types.Sample.{etcd_cluster}
use autok3s.Cluster.World.{ProviderBase}
use autok3s.Cluster.Install.Sample.{base}
use autok3s.Database.Table.{Table, in_memory}
use autok3s.Database.ClusterState.{ClusterState, written, conflicts, Codec}
use autok3s.Manage.Site.{Answers}

abbrev pub codec : Codec
codec = record {
  marshal_options = λ opt. ok opt;
  marshal_nodes = λ ns. ok "";
  unmarshal_nodes = λ text. etcd_cluster.master_nodes;
  get_provider_options = λ provider opt. ok opt;
  uuid = "u";
}

abbrev pub table : Table written conflicts
table = in_memory written conflicts

pub table_answers : Answers table
table_answers = record { finds = λ p d. refl; saves = λ p over r d. refl }

abbrev pub native : ProviderBase
native = record base {
  metadata = record base.metadata { provider = "native"; context_name = "demo.native" };
}

abbrev pub row : ClusterState
row = record {
  metadata = record etcd_cluster.metadata { provider = "native"; context_name = "demo.native" };
  options = "";
  status = "Running";
  standalone = false;
  master_nodes = "m";
  worker_nodes = "[]";
  ssh = etcd_cluster.ssh;
}
