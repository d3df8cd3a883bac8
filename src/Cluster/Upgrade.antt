-- ===== src/Cluster/Upgrade.antt =====
-- pkg/cluster/cluster.go: `Upgrade`, and pkg/cluster/base.go: what `UpgradeK3sCluster` makes of the
-- options of the command before it calls `Upgrade`.
pub mod Nodes
pub mod Options
mod Tests
use autok3s.Base.{
  String, Bool, true, false, ◌||◌, List, [], ◌∷◌, Option, none, some, if◌then◌else◌, Result, ok,
  err, is_set, is_some, null, ◌<>◌,
}
use autok3s.Base.Exec.{Exec, pure, raise, lift, gets, ◌>>=◌, ◌>>◌}
use autok3s.Types.{Node, Cluster, Package}
use autok3s.Cluster.Commands.{get_command}
use autok3s.Cluster.World.{
  ProviderBase, Provider, World, Outside, execute, finally, remove_temporary,
}
use autok3s.Cluster.Nodes.{copy_package}
use autok3s.Cluster.Install.{first, first_master, choose_ip}

abbrev pub k3s_restart : String
k3s_restart =
    "if [ -n \"$(command -v systemctl)\" ]; then systemctl restart k3s; "
    <> "elif [ -n \"$(command -v service)\" ]; then service k3s restart; fi"

abbrev pub k3s_agent_restart : String
k3s_agent_restart =
    "if [ -n \"$(command -v systemctl)\" ]; then systemctl restart k3s-agent; "
    <> "elif [ -n \"$(command -v service)\" ]; then service k3s-agent restart; fi"

-- The fields of a cluster's row, and of the cluster read from it, that an upgrade may change.
pub record Release : Type 0 where
  pub install_script : String
  pub k3s_channel : String
  pub k3s_version : String
  pub package_name : String
  pub package_path : String

abbrev replace : String → String → String
replace new old = if is_set new then new else old

-- The options of the command win over the row's values, and a release from the network clears the
-- package.
unfoldable pub select_release : Release → Release → Release
select_release asked r = record {
  install_script = replace asked.install_script r.install_script;
  k3s_channel = replace asked.k3s_channel r.k3s_channel;
  k3s_version = replace asked.k3s_version r.k3s_version;
  package_name =
      if is_set asked.install_script || is_set asked.k3s_channel || is_set asked.k3s_version
      then ""
      else replace asked.package_name r.package_name;
  package_path =
      if is_set asked.install_script || is_set asked.k3s_channel || is_set asked.k3s_version
      then ""
      else replace asked.package_path r.package_path;
}

abbrev pub release_of : Cluster → Release
release_of c = record {
  install_script = c.install_script;
  k3s_channel = c.k3s_channel;
  k3s_version = c.k3s_version;
  package_name = c.package_name;
  package_path = c.package_path;
}

abbrev pub with_release : Release → Cluster → Cluster
with_release r c = record c {
  metadata = record c.metadata {
    install_script = r.install_script;
    k3s_channel = r.k3s_channel;
    k3s_version = r.k3s_version;
    package_name = r.package_name;
    package_path = r.package_path;
  };
}

-- The cluster that `UpgradeK3sCluster` gives to `Upgrade`.
pub select : Release → Cluster → Cluster
unfolding select_release
select asked c = with_release (select_release asked (release_of c)) c

module _ (p : ProviderBase) (o : Outside) where
  module _ (provider : Provider) (c : Cluster) (public_ip : String) (pkg : Option Package) where
    -- The install command, or a restart if the files of a package have been copied.
    abbrev pub upgrade_command : Bool → Node → String → String → String
    upgrade_command is_first n extra_args restart =
        if is_some pkg then restart else get_command is_first public_ip c n (extra_args ∷ [])

    -- The body of both loops.
    upgrade_node : Bool → Node → String → String → Exec World Unit
    upgrade_node is_first n extra_args restart = do
      copy_package p o pkg n extra_args
      execute o n (upgrade_command is_first n extra_args restart ∷ [])
      pure tt

    abbrev pub upgrade_master_args : Node → String
    upgrade_master_args n = c.master_extra_args <> provider.generate_master_extra_args c n

    abbrev pub upgrade_worker_args : Node → String
    upgrade_worker_args n = c.worker_extra_args <> provider.generate_worker_extra_args c n

    pub upgrade_masters : Bool → List Node → Exec World Unit
    upgrade_masters is_first [] = pure tt
    upgrade_masters is_first (n ∷ ns) = do
      upgrade_node is_first n (upgrade_master_args n) k3s_restart
      upgrade_masters false ns

    pub upgrade_workers : List Node → Exec World Unit
    upgrade_workers [] = pure tt
    upgrade_workers (n ∷ ns) = do
      upgrade_node false n (upgrade_worker_args n) k3s_agent_restart
      upgrade_workers ns

    pub upgrade_nodes : Exec World Unit
    upgrade_nodes = do upgrade_masters true c.master_nodes; upgrade_workers c.worker_nodes

  has_address : Exec World Unit
  has_address w = elim (first_master w.cluster) [
    | none ↦ (err "[cluster] master node internal ip address can not be empty", w)
    | some m ↦
        if null m.internal_ip_address
        then (err "[cluster] master node internal ip address can not be empty", w)
        else (ok tt, w)
  ]

  proceed : Option Package → Exec World Unit
  proceed pkg = do
    provider ← lift (o.get_provider p.provider)
    (m, public_ip) ← choose_ip p o
    c ← gets (λ w. w.cluster)
    upgrade_nodes provider c public_ip pkg

  pub upgrade : Exec World Unit
  upgrade = do
    has_address
    pkg ← λ w. (o.prepare_package w.log w.cluster, w)
    finally (remove_temporary pkg) (proceed pkg)
