-- ===== src/Cluster/Install/Tests.antt =====
-- A run of `InitK3sCluster` on a cluster of two masters and two workers, where the second worker's
-- host refuses every command.
use autok3s.Base.{
  List, [], ◌∷◌, some, ◌≡◌, refl, ap, map, ok, if◌then◌else◌, contains, put, has_infix, lookup,
}
use autok3s.Base.Exec.{◌>>=◌, pure, lift, gets, modify, continue}
use autok3s.Types.{Cluster}
use autok3s.Airgap.Prepare.Sample.{machine, local, at_path, package_files, found_package}
use autok3s.Airgap.Prepare.Tests.{finds_directory}
use autok3s.Cluster.Install.Removal.{init_k3s_cluster_removes_directory}
use autok3s.Cluster.World.{
  Action, removed, World, Outside, succeeded, finally, execute, save_cfg, save_cluster,
  execute_with_retry, attempt, remove_temporary,
}
use autok3s.Cluster.Nodes.{
  init_node, init_control_node, init_worker_node, prepare_node, when, copy_package,
}
use autok3s.Cluster.Install.{
  init_k3s_cluster, install, deploy, register, install_nodes, init_workers, keep_error,
  init_controls, validate_cluster_config, init_first_worker, choose_ip, ensure_token,
  enable_plugins, update,
}
use autok3s.Cluster.Install.Sample.{base, hosts, before}
use autok3s.Cluster.Install.Rows.{init_k3s_cluster_saves_last}
use autok3s.Cluster.Install.Outcome.{IsOutcome, init_k3s_cluster_installs}

succeeds : (init_k3s_cluster base hosts before).0 ≡ ok tt
unfolding init_k3s_cluster finally install deploy register install_nodes init_workers keep_error
    init_controls validate_cluster_config init_first_worker choose_ip ensure_token enable_plugins
    update init_node init_control_node init_worker_node prepare_node when copy_package execute
    save_cfg save_cluster execute_with_retry attempt remove_temporary ◌>>=◌ pure lift gets modify
    continue has_infix contains put
succeeds = refl

init_k3s_cluster_installs_example :
    IsOutcome base hosts before (init_k3s_cluster base hosts before).1
init_k3s_cluster_installs_example =
    init_k3s_cluster_installs base hosts before (λ ns n i. i)
      (ap (λ r. (r, (init_k3s_cluster base hosts before).1)) succeeds)

init_k3s_cluster_saves_last_example :
    let (r, w') = init_k3s_cluster base hosts before in
    w'.rows ≡ (if succeeded r then w'.cluster ∷ [] else [])
init_k3s_cluster_saves_last_example = init_k3s_cluster_saves_last base hosts before

-- The second worker's error is kept, and the row is there.
keeps_error :
    ((init_k3s_cluster base hosts before).1.err_m ≡ ("w2", "unreachable") ∷ [])
    × (map (λ (c : Cluster). c.status) (init_k3s_cluster base hosts before).1.rows ≡ "Running" ∷ [])
unfolding init_k3s_cluster finally install deploy register install_nodes init_workers keep_error
    init_controls validate_cluster_config init_first_worker choose_ip ensure_token enable_plugins
    update init_node init_control_node init_worker_node prepare_node when copy_package execute
    save_cfg save_cluster execute_with_retry attempt remove_temporary ◌>>=◌ pure lift gets modify
    continue has_infix contains put
keeps_error = (refl, refl)

-- A cluster whose package is a directory of the user's.
abbrev package_hosts : Outside
package_hosts = record hosts { prepare_package = λ done c. ok (some found_package) }

abbrev with_package : World
with_package = record before { cluster = at_path "/home/me/package" }

init_k3s_cluster_removes_directory_example :
    (rest : List Action) × ((init_k3s_cluster base package_hosts with_package).1.log
      ≡ removed "/home/me/package" ∷ rest)
unfolding lookup
init_k3s_cluster_removes_directory_example =
    init_k3s_cluster_removes_directory base package_hosts with_package
      (record { generate_master_extra_args = λ c n. ""; generate_worker_extra_args = λ c n. "" })
      machine local local package_files found_package refl refl refl finds_directory refl
