-- ===== src/Native/Instances.antt =====
-- pkg/providers/native/native.go: `syncInstanceNodes`, which brings the nodes of Kubernetes into the row
-- of the cluster, and `uninstallCluster`. What a method returns beside an error is not kept.
mod Tests
use autok3s.Base.{
  String, Bool, true, false, ◌&&◌, List, [], ◌∷◌, ◌++◌, Option, none, some, if◌then◌else◌, ◌==◌,
  Result, ok, err, panic, length, contains, leb,
}
use autok3s.Base.Exec.{Exec, pure, crash, ◌>>=◌, ◌>>◌}
use autok3s.Types.{Node, Cluster}
use autok3s.Types.Sample.{blank_ssh}
use autok3s.Cluster.World.{ProviderBase, World, Outside}
use autok3s.Cluster.Lifecycle.{itoa}
use autok3s.Cluster.Uninstall.{uninstall_k3s_nodes}
use autok3s.Database.Table.{Table}
use autok3s.Database.ClusterState.{ClusterState, written, conflicts, Codec}
use autok3s.Database.Clusters.{get_cluster, save_cluster_state}
use autok3s.Manage.Merge.{Merging, merge_config}
use autok3s.Native.{node_id}

-- The addresses of a node of Kubernetes.
pub data Address : Type 0 where
  internal external other : String → Address

pub record KubeNode : Type 0 where
  pub addresses : List Address
  -- whether it has the label `node-role.kubernetes.io/master`
  pub is_master : Bool

-- The last address of its kind, and no address otherwise.
internal_ip : List Address → String → String
internal_ip [] ip = ip
internal_ip (internal x ∷ xs) ip = internal_ip xs x
internal_ip (external x ∷ xs) ip = internal_ip xs ip
internal_ip (other x ∷ xs) ip = internal_ip xs ip

external_ip : List Address → String → String
external_ip [] ip = ip
external_ip (internal x ∷ xs) ip = external_ip xs ip
external_ip (external x ∷ xs) ip = external_ip xs x
external_ip (other x ∷ xs) ip = external_ip xs ip

instance_node : KubeNode → Node
unfolding internal_ip external_ip
instance_node k = record {
  ssh = blank_ssh;
  instance_id = node_id (external_ip k.addresses "");
  instance_status = "-";
  public_ip_address = external_ip k.addresses "" ∷ [];
  internal_ip_address = internal_ip k.addresses "" ∷ [];
  eip_allocation_ids = [];
  master = k.is_master;
  roll_back = false;
  current = false;
  standalone = true;
  local_hostname = "";
}

has_public_ip : String → List Node → Bool
has_public_ip ip [] = false
has_public_ip ip (n ∷ nodes) =
    let rest = has_public_ip ip nodes in if contains n.public_ip_address ip then true else rest

-- All nodes, the masters and the workers.
record Lists : Type 0 where
  nodes : List Node
  masters : List Node
  workers : List Node

add_instance : Node → Lists → Lists
add_instance n l = record {
  nodes = l.nodes ++ (n ∷ []);
  masters = if n.master then l.masters ++ (n ∷ []) else l.masters;
  workers = if n.master then l.workers else l.workers ++ (n ∷ []);
}

add_missing : List KubeNode → Lists → Lists
unfolding instance_node has_public_ip add_instance external_ip
add_missing [] l = l
add_missing (k ∷ ks) l = add_missing ks (
    if has_public_ip (external_ip k.addresses "") l.nodes
    then l
    else add_instance (instance_node k) l)

-- What could not be written is left empty.
bytes : Result String → String
bytes (ok text) = text
bytes (err e) = ""
bytes panic = ""

module _ (j : Codec) (t : Table written conflicts) (read_nodes : String → Result (List Node))
    -- the nodes that Kubernetes lists, if it can be reached
    (list_nodes : ProviderBase → Option (List KubeNode)) where
  get_instance_nodes : Exec (Merging t.Db) (List Node)
  get_instance_nodes = do
    options ← merge_config j t read_nodes
    λ s. (ok (s.base.master_nodes ++ s.base.worker_nodes), s)

  -- The row with the nodes that were found.
  found_state : Lists → ClusterState → ClusterState
  unfolding bytes
  found_state l st = record st {
    metadata = record st.metadata {
      master = itoa (length l.masters);
      worker = itoa (length l.workers);
    };
    master_nodes = bytes (j.marshal_nodes l.masters);
    worker_nodes = bytes (j.marshal_nodes l.workers);
  }

  is_current : Lists → ClusterState → Bool
  unfolding found_state
  is_current l st =
      let new = found_state l st in
      st.master_nodes == new.master_nodes
      && st.worker_nodes == new.worker_nodes
      && st.master == new.master
      && st.worker == new.worker

  save_found : Lists → ClusterState → Exec (Merging t.Db) Unit
  unfolding is_current
  save_found l st s =
      if is_current l st
      then (ok tt, s)
      else (let (r, d) = save_cluster_state j t (found_state l st) s.store in
          (r, record s { store = d }))

  -- Of a row that is not there the code takes the fields of a nil pointer.
  save_lists : Lists → Option ClusterState → Exec (Merging t.Db) (List Node)
  unfolding save_found
  save_lists l none = crash
  save_lists l (some st) = do save_found l st; pure l.nodes

  sync_lists : Lists → Exec (Merging t.Db) (List Node)
  unfolding save_lists
  sync_lists l = do
    found ← λ s.
        (let (r, d) = get_cluster j t s.base.name s.base.provider s.store in
          (r, record s { store = d }))
    save_lists l found

  -- The nodes are compared only if there are more or fewer of them than in the row.
  sync_listed : List Node → Option (List KubeNode) → Exec (Merging t.Db) (List Node)
  unfolding sync_lists add_missing
  sync_listed nodes none s = (ok nodes, s)
  sync_listed nodes (some ks) s =
      if leb (length nodes) (length ks) && leb (length ks) (length nodes)
      then (ok nodes, s)
      else sync_lists
          (add_missing ks (record {
            nodes = nodes;
            masters = s.base.master_nodes;
            workers = s.base.worker_nodes;
          }))
          s

  pub sync_instance_nodes : Exec (Merging t.Db) (List Node)
  unfolding get_instance_nodes sync_listed
  sync_instance_nodes = do nodes ← get_instance_nodes; λ s. sync_listed nodes (list_nodes s.base) s

-- A cluster that autok3s has not made is left alone.
pub uninstall_cluster : Outside → ProviderBase → Exec World String
uninstall_cluster o p = if p.standalone then pure p.context_name else (do
  masters ← uninstall_k3s_nodes o p.master_nodes
  workers ← uninstall_k3s_nodes o p.worker_nodes
  pure p.context_name)
