-- ===== src/Manage/Upgrade.antt =====
-- `UpgradeK3sCluster`: the row of the cluster around `Upgrade`.
pub mod Row
mod Tests
use autok3s.Base.{
  String, Bool, true, false, ◌||◌, List, [], ◌∷◌, Option, none, some, if◌then◌else◌, ◌==◌, ◌<>◌,
  Result, ok, err, panic,
}
use autok3s.Base.Exec.{Exec, raise, lift, ◌>>=◌, ◌>>◌}
use autok3s.Types.{Cluster}
use autok3s.Cluster.World.{ProviderBase, Outside}
use autok3s.Cluster.Upgrade.{Release, select, select_release, upgrade}
use autok3s.Database.Table.{Table}
use autok3s.Database.ClusterState.{ClusterState, written, conflicts, Codec, convert_to_cluster}
use autok3s.Database.Clusters.{get_cluster, save_cluster_state}
use autok3s.Manage.Site.{Site, on_store, on_world, set_cluster, finally}

abbrev pub release_of_state : ClusterState → Release
release_of_state s = record {
  install_script = s.install_script;
  k3s_channel = s.k3s_channel;
  k3s_version = s.k3s_version;
  package_name = s.package_name;
  package_path = s.package_path;
}

abbrev pub with_release : Release → ClusterState → ClusterState
with_release r s = record s {
  metadata = record s.metadata {
    install_script = r.install_script;
    k3s_channel = r.k3s_channel;
    k3s_version = r.k3s_version;
    package_name = r.package_name;
    package_path = r.package_path;
  };
}

abbrev pub with_status : String → ClusterState → ClusterState
with_status status s = record s { status = status }

abbrev pub named : String → String → ProviderBase → ProviderBase
named name context_name p = record p {
  metadata = record p.metadata { name = name; context_name = context_name };
}

module _ (p : ProviderBase) (o : Outside) (j : Codec) (t : Table written conflicts)
    -- `GetLogFile`
    (get_log_file : String → Result (Unit {0})) where
  -- The row that is saved at the end: of the release asked for, whether or not it was installed.
  unfoldable pub upgraded_state : Release → ClusterState → ClusterState
  upgraded_state asked s =
      with_status "Running" (with_release (select_release asked (release_of_state s)) s)

  run_upgrade : String → Release → ClusterState → Exec (Site t.Db) Unit
  run_upgrade name asked s =
      finally (on_store (save_cluster_state j t (upgraded_state asked s))) (do
        set_cluster (select asked (convert_to_cluster j (with_status "Upgrading" s) true))
        on_world (upgrade (named name s.context_name p) o))

  upgrade_found : String → Release → Option ClusterState → Exec (Site t.Db) Unit
  upgrade_found name asked none = raise ("cluster " <> name <> " is not exist")
  upgrade_found name asked (some s) = do
    lift (get_log_file s.context_name)
    on_store (save_cluster_state j t (with_status "Upgrading" s))
    run_upgrade name asked s

  unfoldable pub upgrade_k3s_cluster : String → Release → Exec (Site t.Db) Unit
  unfolding run_upgrade upgrade_found
  upgrade_k3s_cluster name asked =
      if p.provider == "k3d"
      then raise "the upgrade cluster for K3d provider is not supported yet"
      else (do found ← on_store (get_cluster j t name p.provider); upgrade_found name asked found)
