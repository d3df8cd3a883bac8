-- ===== src/Database/ClusterState.antt =====
-- pkg/common/model.go: `ClusterState`, the row of a cluster, and how a cluster and its row are made of
-- each other.
use autok3s.Base.{String, Bool, true, false, ◌&&◌, List, [], ◌==◌, Result, ok, err, panic, ◌>>=◌}
use autok3s.Types.Array.{read_back}
use autok3s.Types.{Metadata, Ssh, Node, Cluster}
use autok3s.Database.Store.{ApiObject}

-- The nodes and the options are kept as JSON.
pub record ClusterState : Type 0 where
  pub metadata : Metadata
  pub open metadata use *
  pub options : String
  pub status : String
  pub standalone : Bool
  pub master_nodes : String
  pub worker_nodes : String
  pub ssh : Ssh

written_ssh : Ssh → Ssh
written_ssh s = record s { ssh_key = ""; ssh_cert = "" }

-- What is read of a row that was stored: nothing of the columns of `SSH` that are marked
-- `gorm:"-:all"`, and a `StringArray` as its `Value` and `Scan` leave it.
unfoldable pub written : ClusterState → ClusterState
unfolding written_ssh read_back
written s = record s {
  metadata = record s.metadata { tls_sans = read_back s.tls_sans; enable = read_back s.enable };
  ssh = written_ssh s.ssh;
}

-- `Where("name = ? AND provider = ?", name, provider)`
abbrev pub is_named : String → String → ClusterState → Bool
is_named name provider s = s.name == name && s.provider == provider

-- The table's `unique (name, provider)`.
abbrev pub conflicts : ClusterState → ClusterState → Bool
conflicts r s = is_named r.name r.provider s

-- `Omit("name", "provider", "context_name")`
unfoldable pub over_cluster : ClusterState → ClusterState → ClusterState
over_cluster new old = record new {
  metadata = record new.metadata {
    name = old.name;
    provider = old.provider;
    context_name = old.context_name;
  };
}

-- `Omit("name", "provider")`
unfoldable pub over_state : ClusterState → ClusterState → ClusterState
over_state new old = record new {
  metadata = record new.metadata { name = old.name; provider = old.provider };
}

-- encoding/json, and what a provider makes of its options. A slice that cannot be read holds what could.
pub record Codec : Type 0 where
  pub marshal_options : String → Result String
  pub marshal_nodes : List Node → Result String
  pub unmarshal_nodes : String → List Node
  pub get_provider_options : String → String → Result String
  -- `GetUUID`
  pub uuid : String

module _ (j : Codec) where
  abbrev with_options : Cluster → Result String → Cluster
  with_options c (ok opt) = record c { options = opt }
  with_options c (err e) = c
  with_options c panic = c

  abbrev with_nodes : ClusterState → Bool → Cluster → Cluster
  with_nodes s false c = c
  with_nodes s true c = record c {
    state = record c.state {
      master_nodes = j.unmarshal_nodes s.master_nodes;
      worker_nodes = j.unmarshal_nodes s.worker_nodes;
    };
  }

  -- The nodes are read only behind the options.
  abbrev from_options : ClusterState → Bool → Cluster → Result String → Cluster
  from_options s node_info c (ok opt) = with_nodes s node_info (record c { options = opt })
  from_options s node_info c (err e) = c
  from_options s node_info c panic = c

  unfoldable pub convert_to_cluster : ClusterState → Bool → Cluster
  convert_to_cluster s node_info =
      from_options s node_info
        (record {
          metadata = s.metadata;
          options = "";
          ssh = s.ssh;
          state = record {
            status = s.status;
            master_nodes = [];
            worker_nodes = [];
            standalone = false;
          };
        })
        (j.get_provider_options s.provider s.options)

  -- `ToAPIObject`
  unfoldable pub cluster_object : ClusterState → ApiObject Cluster
  cluster_object s = record {
    type_name = "cluster";
    id = s.context_name;
    object = convert_to_cluster s false;
  }

  abbrev pub row_of : Cluster → String → String → String → ClusterState
  row_of c opt masters workers = record {
    metadata = c.metadata;
    options = opt;
    status = c.status;
    standalone = c.standalone;
    master_nodes = masters;
    worker_nodes = workers;
    ssh = c.ssh;
  }

  -- The row that `SaveCluster` makes of a cluster.
  unfoldable pub cluster_state : Cluster → Result ClusterState
  cluster_state c = do
    opt ← j.marshal_options c.options
    masters ← j.marshal_nodes c.master_nodes
    workers ← j.marshal_nodes c.worker_nodes
    ok (row_of c opt masters workers)
