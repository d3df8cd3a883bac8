-- ===== src/Manage/Merge.antt =====
-- pkg/cluster/base.go: `MergeConfig` and `overwriteMetadata`, which bring the row of a cluster into the
-- options of a command, with `MergeConfig` of pkg/utils/util.go on `SSH`.
pub mod Twice
mod Tests
use autok3s.Base.{
  String, Bool, List, [], ◌∷◌, Option, none, some, if◌then◌else◌, ◌==◌, Result, ok, err, panic,
}
use autok3s.Base.Exec.{Exec, pure, lift, ◌>>=◌, ◌>>◌}
use autok3s.Types.{Metadata, Ssh, Node, Cluster}
use autok3s.Cluster.World.{ProviderBase}
use autok3s.Database.Table.{Table}
use autok3s.Database.ClusterState.{ClusterState, written, conflicts, Codec}
use autok3s.Database.Store.{Store}
use autok3s.Database.Clusters.{get_cluster}

-- The table of clusters, and the `ProviderBase`.
pub record Merging (Db : Type 0) : Type 0 where
  pub store : Store Db Cluster
  pub base : ProviderBase

-- `if old == "" { old = new }`
abbrev pub or_else : String → String → String
or_else old new = if old == "" then new else old

-- The fields that the command cannot change.
abbrev pub overwrite_first : ClusterState → Metadata → Metadata
overwrite_first s m = record m {
  token = s.token;
  ip = s.ip;
  ui = s.ui;
  cluster_cidr = s.cluster_cidr;
  data_store = s.data_store;
  mirror = s.mirror;
  docker_mirror = s.docker_mirror;
  install_script = s.install_script;
  network = s.network;
  cluster = s.cluster;
  rollback = s.rollback;
}

-- The fields that the command may give.
abbrev pub overwrite_rest : ClusterState → Metadata → Metadata
overwrite_rest s m = record m {
  k3s_channel = or_else m.k3s_channel s.k3s_channel;
  k3s_version = or_else m.k3s_version s.k3s_version;
  install_script = or_else m.install_script s.install_script;
  docker_arg = or_else m.docker_arg s.docker_arg;
  docker_script = or_else m.docker_script s.docker_script;
  registry = or_else m.registry s.registry;
  system_default_registry = or_else m.system_default_registry s.system_default_registry;
  master_extra_args = or_else m.master_extra_args s.master_extra_args;
  worker_extra_args = or_else m.worker_extra_args s.worker_extra_args;
}

pub overwrite_metadata : ClusterState → Metadata → Metadata
overwrite_metadata s m = overwrite_rest s (overwrite_first s m)

-- `utils.MergeConfig` on two `SSH`: each text that the target has, and its flag.
pub merge_ssh : Ssh → Ssh → Ssh
merge_ssh source target = record {
  ssh_port = or_else target.ssh_port source.ssh_port;
  ssh_user = or_else target.ssh_user source.ssh_user;
  ssh_password = or_else target.ssh_password source.ssh_password;
  ssh_key_path = or_else target.ssh_key_path source.ssh_key_path;
  ssh_cert_path = or_else target.ssh_cert_path source.ssh_cert_path;
  ssh_key_passphrase = or_else target.ssh_key_passphrase source.ssh_key_passphrase;
  ssh_agent_auth = target.ssh_agent_auth;
  ssh_key_name = or_else target.ssh_key_name source.ssh_key_name;
  ssh_key = or_else target.ssh_key source.ssh_key;
  ssh_cert = or_else target.ssh_cert source.ssh_cert;
}

module _ (j : Codec) (t : Table written conflicts)
    -- `json.Unmarshal` of some nodes
    (read_nodes : String → Result (List Node)) where
  -- On the way the status has no nodes.
  start_merge : ClusterState → Exec (Merging t.Db) Unit
  start_merge st s = (
    ok tt,
    record s {
      base = record s.base {
        metadata = overwrite_metadata st s.base.metadata;
        state = record {
          status = st.status;
          master_nodes = [];
          worker_nodes = [];
          standalone = st.standalone;
        };
      };
    },
  )

  end_merge : ClusterState → List Node → List Node → Exec (Merging t.Db) Unit
  end_merge st masters workers s = (
    ok tt,
    record s {
      base = record s.base {
        state = record s.base.state { master_nodes = masters; worker_nodes = workers };
        ssh = merge_ssh s.base.ssh st.ssh;
      };
    },
  )

  -- Without a row there are no options.
  merge_found : Option ClusterState → Exec (Merging t.Db) String
  merge_found none = pure ""
  merge_found (some st) = do
    start_merge st
    masters ← lift (read_nodes st.master_nodes)
    workers ← lift (read_nodes st.worker_nodes)
    end_merge st masters workers
    pure st.options

  read_merged : Exec (Merging t.Db) (Option ClusterState)
  read_merged s =
      let (r, d) = get_cluster j t s.base.name s.base.provider s.store in
      (r, record s { store = d })

  pub merge_config : Exec (Merging t.Db) String
  unfolding merge_found read_merged start_merge end_merge overwrite_metadata merge_ssh
  merge_config = do found ← read_merged; merge_found found
