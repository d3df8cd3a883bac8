-- ===== src/Cluster/Join.antt =====
-- pkg/cluster/cluster.go: `Join`, which installs k3s on new nodes of a cluster. The caller's cluster is
-- `merged`; the nodes of `added` are those to install, as they are in `merged`.
pub mod Effects
pub mod Options
pub mod Masters
mod Tests
use autok3s.Base.{
  String, Bool, true, false, not, List, [], ◌∷◌, Option, none, some, ◌==◌, ◌<>◌, if◌then◌else◌,
  Result, ok, err, panic, contains, lookup, length, trim_space,
}
use autok3s.Base.Exec.{Exec, pure, lift, gets, ◌>>=◌, ◌>>◌}
use autok3s.Types.{Node, Cluster, Package}
use autok3s.Cluster.World.{
  ProviderBase, Provider, World, Outside, execute, finally, save_cfg, save_cluster,
  remove_temporary,
}
use autok3s.Cluster.Nodes.{init_node, node_by_instance_id}
use autok3s.Cluster.Install.{
  first, first_master, cat_cfg_command, keep_error, set_ip, set_running, set_token, update,
}
use autok3s.Cluster.Lifecycle.{itoa}

abbrev get_token_command : String
get_token_command = "cat /var/lib/rancher/k3s/server/node-token"

abbrev at_address : String → Node → Node
at_address ip n = record n { public_ip_address = ip ∷ [] }

-- The node that the token is asked from: an index out of range if there is none.
abbrev server_node : Cluster → Option Node
server_node added = elim added.master_nodes [
  | n ∷ ns ↦ some n
  | [] ↦ elim added.worker_nodes [ n ∷ ns ↦ some n | [] ↦ none ]
]

-- The nodes of `added` that `merged` has too, as they are there.
pub found_nodes : List Node → List (String × Node) → List Node
found_nodes [] by_id = []
found_nodes (n ∷ ns) by_id =
    let rest = found_nodes ns by_id in
    elim (lookup n.instance_id by_id) [ none ↦ rest | some full ↦ full ∷ rest ]

abbrev pub set_counts : Cluster → Cluster
set_counts c = record c {
  metadata = record c.metadata {
    master = itoa (length c.master_nodes);
    worker = itoa (length c.worker_nodes);
  };
}

-- A failure that is only logged.
pub ignore : Result (Unit {0}) × World → Result (Unit {0}) × World
ignore (ok u, w) = (ok tt, w)
ignore (err e, w) = (ok tt, w)
ignore (panic, w) = (panic, w)

module _ (p : ProviderBase) (o : Outside) (added : Cluster) where
  pub find_ip : Exec World Unit
  find_ip w =
      if w.cluster.ip == ""
      then (elim (first_master w.cluster) [
        | none ↦ (err "[cluster] master node internal ip address can not be empty", w)
        | some m ↦ elim (first m.internal_ip_address) [
          | none ↦ (err "[cluster] master node internal ip address can not be empty", w)
          | some ip ↦ update (set_ip ip) w
        ]
      ])
      else (ok tt, w)

  ask_token : Option Node → Exec World Unit
  ask_token none w = (panic, w)
  ask_token (some n) w =
      (do
        token ← execute o (at_address w.cluster.ip n) (get_token_command ∷ [])
        update (set_token (trim_space token)))
        w

  pub find_token : Exec World Unit
  find_token w = if w.cluster.token == "" then ask_token (server_node added) w else (ok tt, w)

  pub check_token : Exec World Unit
  check_token w =
      if w.cluster.token == "" then (err "[cluster] k3s token can not be empty", w) else (ok tt, w)

  module _ (provider : Provider) (c : Cluster) (pkg : Option Package) where
    -- The provider's arguments are those of `added`.
    abbrev pub join_master_args : Node → String
    join_master_args n = c.master_extra_args <> provider.generate_master_extra_args added n

    abbrev pub join_worker_args : Node → String
    join_worker_args n = c.worker_extra_args <> provider.generate_worker_extra_args added n

    pub join_masters : List Node → Exec World Unit
    join_masters [] = pure tt
    join_masters (n ∷ ns) = do
      init_node p o false c.ip c n (join_master_args n) pkg
      join_masters ns

    pub join_workers : List Node → Exec World Unit
    join_workers [] = pure tt
    join_workers (n ∷ ns) = do
      λ w.
          keep_error p o provider c c.ip pkg n
            (init_node p o false c.ip c n (join_worker_args n) pkg w)
      join_workers ns

    -- For the native provider the kubeconfig is fetched if it lacks the context.
    save_config : Result String × World → Result (Unit {0}) × World
    save_config (ok cfg, w) = ignore (save_cfg o cfg c.ip p.context_name w)
    save_config (err e, w) = (ok tt, w)
    save_config (panic, w) = (panic, w)

    fetch_config : List String → Exec World Unit
    fetch_config contexts w =
        let n : Node = record {
          ssh = c.ssh;
          instance_id = "";
          instance_status = "";
          public_ip_address = c.ip ∷ [];
          internal_ip_address = [];
          eip_allocation_ids = [];
          master = true;
          roll_back = false;
          current = false;
          standalone = false;
          local_hostname = "";
        } in
        if contains contexts p.context_name
        then (ok tt, w)
        else save_config (execute o n (cat_cfg_command ∷ []) w)

    pub native_config : Exec World Unit
    native_config w =
        if p.provider == "native"
        then (do contexts ← lift o.kube_contexts; fetch_config contexts) w
        else (ok tt, w)

    join_all : Exec World Unit
    join_all = do
      join_masters (found_nodes added.master_nodes (node_by_instance_id c.master_nodes []))
      join_workers
          (o.schedule (found_nodes added.worker_nodes (node_by_instance_id c.worker_nodes [])))

    join_end : Exec World Unit
    join_end = do
      update set_counts
      native_config
      update set_running
      λ w. ignore (save_cluster o w)

  join_nodes : Provider → Option Package → Exec World Unit
  join_nodes provider pkg = do
    find_ip
    find_token
    check_token
    c ← gets (λ w. w.cluster)
    join_all provider c pkg
    join_end provider c pkg

  pub join : Exec World Unit
  join = do
    provider ← λ w. (o.get_provider w.cluster.provider, w)
    pkg ← λ w. (o.prepare_package w.log w.cluster, w)
    finally (remove_temporary pkg) (join_nodes provider pkg)
