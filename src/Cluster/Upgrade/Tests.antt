-- ===== src/Cluster/Upgrade/Tests.antt =====
-- An upgrade without a package.
use autok3s.Base.{◌≡◌, refl, ap, ok}
use autok3s.Base.Exec.{◌>>=◌, pure, lift, gets, modify, continue}
use autok3s.Cluster.World.{Outside, finally, remove_temporary, execute}
use autok3s.Cluster.Nodes.{copy_package}
use autok3s.Cluster.Install.{choose_ip, update}
use autok3s.Airgap.Prepare.{prepare_package, prepare_path}
use autok3s.Airgap.Prepare.Sample.{machine, local, at_path}
use autok3s.Cluster.Install.Sample.{base, hosts, before}
use autok3s.Cluster.Upgrade.{
  Release, select, upgrade, proceed, has_address, upgrade_nodes, upgrade_masters, upgrade_workers,
  upgrade_node,
}
use autok3s.Cluster.Upgrade.Nodes.{IsUpgraded, upgrade_reaches_all}
use autok3s.Cluster.Upgrade.Options.{select_package}

abbrev calm : Outside
calm = record hosts { run = λ done n cmds. ok "done" }

succeeds : (upgrade base calm before).0 ≡ ok tt
unfolding upgrade proceed has_address upgrade_nodes upgrade_masters upgrade_workers upgrade_node
    copy_package choose_ip update finally remove_temporary execute ◌>>=◌ pure lift gets modify
    continue
succeeds = refl

upgrade_reaches_all_example : IsUpgraded base calm before (upgrade base calm before).1
upgrade_reaches_all_example =
    upgrade_reaches_all base calm before (ap (λ r. (r, (upgrade base calm before).1)) succeeds)

-- The row has a path: the name that the command gives is not used.
abbrev named : Release
named = record {
  install_script = "";
  k3s_channel = "";
  k3s_version = "";
  package_name = "newer";
  package_path = "";
}

select_package_example :
    prepare_package machine (select named (at_path "/home/me/package")) local
    ≡ prepare_path machine "/home/me/package" "demo" local
select_package_example = select_package machine named (at_path "/home/me/package") local
