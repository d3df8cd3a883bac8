-- ===== src/Cluster/Install/Sample.antt =====
-- A cluster of two masters and two workers, where the second worker's host refuses every command.
use autok3s.Base.{true, false, [], ◌∷◌, none, ◌==◌, ok, err, if◌then◌else◌}
use autok3s.Types.{Cluster}
use autok3s.Types.Sample.{blank_ssh, blank_status, node_at, etcd_cluster}
use autok3s.Cluster.World.{ProviderBase, World, Outside}

abbrev nodes_cluster : Cluster
nodes_cluster = record etcd_cluster {
  state = record blank_status {
    master_nodes = node_at true "m1" "10.0.0.1" ∷ node_at true "m2" "10.0.0.2" ∷ [];
    worker_nodes = node_at false "w1" "10.0.0.3" ∷ node_at false "w2" "10.0.0.4" ∷ [];
  };
}

abbrev pub base : ProviderBase
base = record { metadata = nodes_cluster.metadata; state = nodes_cluster.state; ssh = blank_ssh }

abbrev pub hosts : Outside
hosts = record {
  get_provider = λ name.
      ok
        (record { generate_master_extra_args = λ c n. ""; generate_worker_extra_args = λ c n. "" });
  prepare_package = λ done c. ok none;
  random_token = ok "token";
  run = λ done n cmds. if n.instance_id == "w2" then err "unreachable" else ok "done";
  scp_files = λ done n pkg x. ok tt;
  save_cfg = λ cfg ip context. ok tt;
  kube_contexts = ok [];
  save_cluster = λ done c. ok tt;
  read_file = λ path. ok "";
  base64 = λ content. content;
  verify_registry = λ path content. ok content;
  registry_tls = λ registry. ok [];
  registry_to_string = λ registry. ok registry;
  schedule = λ ns. ns;
}

abbrev pub before : World
before = record { cluster = nodes_cluster; log = []; rows = []; err_m = [] }
