-- ===== src/Native.antt =====
-- pkg/providers/native/native.go: the provider of hosts that are given by their addresses.
pub mod Nodes
pub mod Instances
mod Tests
use autok3s.Base.{
  String, Bool, true, false, not, ◌&&◌, ◌||◌, List, [], ◌∷◌, Option, none, some, if◌then◌else◌,
  ◌==◌, Result, ok, err, panic, ◌>>=◌, ◌>>◌, length, ltb, put, split, join, is_set,
}
use autok3s.Types.{Ssh, Node, Metadata, Status, Cluster}
use autok3s.Cluster.World.{ProviderBase}
use autok3s.Cluster.Checks.{Facts, check_create_args, refuse}
use autok3s.Cluster.Lifecycle.{itoa}

pub record Options : Type 0 where
  pub master_ips : String
  pub worker_ips : String

-- `Native`: the base with `M`, and the options.
pub record Native : Type 0 where
  pub base : ProviderBase
  pub options : Options
  pub m : List (String × Node)

-- The user and the key of `CreateK3sCluster` where the command gives none.
abbrev default_user : Ssh → Ssh
default_user s = record s { ssh_user = if s.ssh_user == "" then "root" else s.ssh_user }

pub create_defaults : Ssh → Ssh
create_defaults s =
    let u = default_user s in
    if s.ssh_key == "" && s.ssh_key_name == "" && s.ssh_password == "" && s.ssh_key_path == ""
    then record u { ssh_key_path = "~/.ssh/id_rsa" }
    else u

-- Those of `JoinK3sNode`.
pub join_defaults : Ssh → Ssh
join_defaults s =
    let u = default_user s in
    if s.ssh_password == "" && s.ssh_key_path == ""
    then record u { ssh_key_path = "~/.ssh/id_rsa" }
    else u

-- The comma between two addresses.
abbrev pub addresses : String → List String
addresses ips = split ips 44

-- More than one master needs the embedded etcd or an external datastore.
abbrev needs_store : Native → Bool
needs_store p =
    ltb 1 (length (addresses p.options.master_ips)) && not p.base.cluster && p.base.data_store == ""

pub create_check : Facts → Native → Result (Unit {0})
create_check facts p = do
  refuse (p.options.master_ips == "") "cluster must have one master when create"
  refuse (needs_store p) "need to set `--cluster` or `--datastore` for HA mode"
  check_create_args (record facts { check_cluster_exist = ok false }) p.base

-- `row` is what the database answers for the cluster.
pub join_check : Facts → Result (Option Cluster) → Native → Result (Unit {0})
join_check facts row p = do
  refuse (p.options.master_ips == "" && p.options.worker_ips == "")
      "cluster must have one node when join"
  refuse (needs_store p) "can't join master nodes to single node cluster"
  state ← row
  refuse ((elim state [ none ↦ true | some c ↦ false ]) && p.base.ip == "") "cluster is not exist"
  refuse (is_set p.base.ssh.ssh_key_path && not (facts.is_file_exists p.base.ssh.ssh_key_path))
      "failed to get ssh-key-path"

-- `strings.Replace(ip, ".", "-", -1)`
abbrev pub node_id : String → String
node_id ip = join (split ip 46) "-"

abbrev pub node_of : Bool → Ssh → String → Node
node_of master ssh ip = record {
  ssh = ssh;
  instance_id = node_id ip;
  instance_status = "-";
  public_ip_address = ip ∷ [];
  internal_ip_address = ip ∷ [];
  eip_allocation_ids = [];
  master = master;
  roll_back = true;
  current = true;
  standalone = false;
  local_hostname = "";
}

pub sync_nodes_map : List String → Bool → Ssh → List (String × Node) → List (String × Node)
sync_nodes_map [] master ssh m = m
sync_nodes_map (ip ∷ ips) master ssh m =
    sync_nodes_map ips master ssh (put (node_id ip) (node_of master ssh ip) m)

-- `IsExistedNodes`
pub is_existed : String → List Node → Bool
is_existed id [] = false
is_existed id (n ∷ nodes) = n.instance_id == id || is_existed id nodes

abbrev pub unmark : Node → Node
unmark n = record n { current = false; roll_back = false }

-- The first node with this ID is no longer the command's.
pub unmark_first : String → List Node → List Node
unmark_first id [] = []
unmark_first id (n ∷ nodes) =
    let rest = unmark_first id nodes in if n.instance_id == id then unmark n ∷ nodes else n ∷ rest

abbrev pub nodes_for : Node → Status → List Node
nodes_for v s = if v.master then s.master_nodes else s.worker_nodes

-- The walk over `M`, which stores each node under its ID: a node that the cluster has is not the
-- command's.
pub unmark_map : Status → List (String × Node) → List (String × Node)
unmark_map s [] = []
unmark_map s ((key, v) ∷ m) =
    (key, if is_existed v.instance_id (nodes_for v s) then unmark v else v) ∷ unmark_map s m

pub unmark_nodes : List (String × Node) → Status → Status
unfolding unmark_first
unmark_nodes [] s = s
unmark_nodes ((key, v) ∷ m) s = unmark_nodes m (
    if v.master
    then record s { master_nodes = unmark_first v.instance_id s.master_nodes }
    else record s { worker_nodes = unmark_first v.instance_id s.worker_nodes })

abbrev set_master : String → ProviderBase → ProviderBase
set_master n p = record p { metadata = record p.metadata { master = n } }

abbrev set_worker : String → ProviderBase → ProviderBase
set_worker n p = record p { metadata = record p.metadata { worker = n } }

pub sync_masters : Ssh → Native → Native
sync_masters ssh p = if p.options.master_ips == "" then p else record p {
  base = set_master (itoa (length (addresses p.options.master_ips))) p.base;
  m = sync_nodes_map (addresses p.options.master_ips) true ssh p.m;
}

pub sync_workers : Ssh → Native → Native
sync_workers ssh p = if p.options.worker_ips == "" then p else record p {
  base = set_worker (itoa (length (addresses p.options.worker_ips))) p.base;
  m = sync_nodes_map (addresses p.options.worker_ips) false ssh p.m;
}

-- `assembleNodeStatus`: the provider as it is left, from which the cluster is made.
pub assemble_node_status : Ssh → Native → Native
assemble_node_status ssh p =
    let q = sync_workers ssh (sync_masters ssh p) in
    record q {
      base = record q.base { state = unmark_nodes q.m q.base.state };
      m = unmark_map q.base.state q.m;
    }

-- The cluster that `assembleNodeStatus` returns, with the text of the options.
pub assembled_cluster : String → Ssh → Native → Cluster
assembled_cluster options ssh p = record {
  metadata = p.base.metadata;
  options = options;
  ssh = ssh;
  state = p.base.state;
}
