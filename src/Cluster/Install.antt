-- ===== src/Cluster/Install.antt =====
-- pkg/cluster/cluster.go: `InitK3sCluster`, which installs k3s on the nodes of a new cluster. The
-- first master and the first worker go before the others; the other workers go in an order of the
-- goroutines' own, one after the other.
pub mod Effects
pub mod Rows
pub mod Nodes
pub mod Growth
pub mod Address
pub mod Outcome
pub mod Removal
pub mod Sample
mod Tests
use autok3s.Base.{
  String, Bool, true, false, ◌&&◌, List, [], ◌∷◌, Option, none, some, ◌==◌, if◌then◌else◌, Result,
  ok, err, panic, is_set, null, contains, put, zero, suc,
}
use autok3s.Base.Exec.{Exec, pure, raise, crash, lift, gets, modify, ◌>>=◌, ◌>>◌}
use autok3s.Types.{Node, Cluster, Package}
use autok3s.Cluster.World.{
  ProviderBase, Provider, World, Outside, act, explorer_enabled, finally, save_cfg, save_cluster,
  execute_with_retry, remove_temporary,
}
use autok3s.Cluster.Nodes.{init_control_node, init_worker_node}

-- `len(ips) <= 0` guards the first address.
abbrev pub first : List String → Option String
first [] = none
first (ip ∷ ips) = some ip

abbrev pub head : List Node → Option Node
head [] = none
head (n ∷ ns) = some n

abbrev pub rest_of : List Node → List Node
rest_of [] = []
rest_of (n ∷ ns) = ns

abbrev pub first_master : Cluster → Option Node
first_master c = head c.master_nodes

abbrev pub other_masters : Cluster → List Node
other_masters c = rest_of c.master_nodes

-- The workers that are installed: none if `p` has none.
abbrev pub workers_of : ProviderBase → Cluster → List Node
workers_of p c = if null p.worker_nodes then [] else c.worker_nodes

abbrev pub set_ip : String → Cluster → Cluster
set_ip ip c = record c { metadata = record c.metadata { ip = ip } }

abbrev pub set_token : String → Cluster → Cluster
set_token token c = record c { metadata = record c.metadata { token = token } }

abbrev pub set_running : Cluster → Cluster
set_running c = record c { state = record c.state { status = "Running" } }

abbrev pub cat_cfg_command : String
cat_cfg_command = "cat /etc/rancher/k3s/k3s.yaml"

-- The zero value of a node, and a node without an address and an ID, count as no worker.
abbrev pub is_blank : Node → Bool
is_blank n = null n.public_ip_address && n.instance_id == ""

unfoldable pub update : (Cluster → Cluster) → Exec World Unit
unfolding modify
update f = modify (λ w. record w { cluster = f w.cluster })

module _ (p : ProviderBase) (o : Outside) where
  ensure_token : Exec World Unit
  unfolding pure update
  ensure_token w =
      if w.cluster.token == ""
      then (do token ← lift o.random_token; update (set_token token)) w
      else (ok tt, w)

  -- The first master, if it has an internal address, and the address that k3s is reached at.
  unfoldable pub choose_ip : Exec World (Node × String)
  unfolding update
  choose_ip w = elim (first_master w.cluster) [
    | none ↦ (err "[cluster] master node internal ip address can not be empty", w)
    | some m ↦ elim (first m.internal_ip_address) [
      | none ↦ (err "[cluster] master node internal ip address can not be empty", w)
      | some ip ↦
          if w.cluster.ip == ""
          then (do
            update (set_ip ip)
            lift (elim (first m.public_ip_address) [ none ↦ panic | some a ↦ ok (m, a) ]))
              w
          else (ok (m, w.cluster.ip), w)
    ]
  ]

  module _ (provider : Provider) (c : Cluster) (public_ip : String) (pkg : Option Package) where
    pub init_first_worker : List Node → Exec World Unit
    init_first_worker [] = pure tt
    init_first_worker (n ∷ rest) =
        if is_blank n then pure tt else init_worker_node p o provider c public_ip pkg n

    -- `validateClusterConfig`.
    pub validate_cluster_config : Node → List Node → Exec World Unit
    validate_cluster_config m workers = do
      init_control_node p o provider c public_ip pkg m true
      init_first_worker workers

    pub init_controls : List Node → Exec World Unit
    init_controls [] = pure tt
    init_controls (m ∷ ms) = do
      init_control_node p o provider c public_ip pkg m false
      init_controls ms

    -- The body of a worker's goroutine: a failure is kept in `p.ErrM`.
    pub keep_error : Node → Result (Unit {0}) × World → Result (Unit {0}) × World
    keep_error n (ok u, w) = (ok tt, w)
    keep_error n (err e, w) = (ok tt, record w { err_m = put n.instance_id e w.err_m })
    keep_error n (panic, w) = (panic, w)

    pub init_workers : List Node → Exec World Unit
    init_workers [] = pure tt
    init_workers (n ∷ ns) = do
      λ w. keep_error n (init_worker_node p o provider c public_ip pkg n w)
      init_workers ns

    pub install_nodes : Node → Exec World Unit
    install_nodes m = do
      validate_cluster_config m (workers_of p c)
      init_controls (other_masters c)
      init_workers (o.schedule (rest_of (workers_of p c)))

    enable_plugins : Exec World Unit
    enable_plugins w =
        if contains c.enable "explorer" then act (explorer_enabled c.context_name) w else (ok tt, w)

    -- The kubeconfig of the new cluster.
    register : Node → Exec World Unit
    register m = do
      cfg ← execute_with_retry o 3 m (cat_cfg_command ∷ [])
      save_cfg o cfg public_ip c.context_name
      update set_running

    -- What follows the choice of the address.
    deploy : Node → Exec World Unit
    deploy m = do install_nodes m; register m; save_cluster o; enable_plugins

  install : Provider → Option Package → Exec World Unit
  install provider pkg = do
    ensure_token
    (m, public_ip) ← choose_ip
    c ← gets (λ w. w.cluster)
    deploy provider c public_ip pkg m

  pub init_k3s_cluster : Exec World Unit
  init_k3s_cluster = do
    provider ← lift (o.get_provider p.provider)
    pkg ← λ w. (o.prepare_package w.log w.cluster, w)
    finally (remove_temporary pkg) (install provider pkg)
