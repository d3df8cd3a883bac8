-- ===== src/Manage/Upgrade/Tests.antt =====
-- An upgrade of a cluster whose host does not answer.
use autok3s.Base.{true, [], ◌∷◌, some, ok, ◌≡◌, refl}
use autok3s.Cluster.Install.Sample.{hosts, before}
use autok3s.Cluster.Upgrade.{Release, upgrade, select}
use autok3s.Database.Rows.{row_at}
use autok3s.Database.ClusterState.{written, convert_to_cluster}
use autok3s.Database.Clusters.Refinement.{view}
use autok3s.Manage.Sample.{codec, table, table_answers, native, row}
use autok3s.Manage.Site.{Site}
use autok3s.Manage.Upgrade.{upgrade_k3s_cluster, with_status, named}
use autok3s.Manage.Upgrade.Row.{running_release, upgrade_k3s_cluster-row}

abbrev site : Site table.Db
site = record { store = record { db = row ∷ []; log = [] }; world = before }

abbrev asked : Release
asked = record {
  install_script = "";
  k3s_channel = "";
  k3s_version = "v2";
  package_name = "";
  package_path = "";
}

upgrade_k3s_cluster-row_example :
    ((upgrade_k3s_cluster native hosts codec table (λ c. ok tt) "demo" asked site).0
      ≡ (upgrade (named "demo" "demo.native" native) hosts (record before {
        cluster = select asked (convert_to_cluster codec (with_status "Upgrading" row) true);
      })).0)
    × (view codec table
          (upgrade_k3s_cluster native hosts codec table (λ c. ok tt) "demo" asked site).1.store
          "demo"
          "native"
        ≡ some (written (running_release asked row)))
unfolding row_at
upgrade_k3s_cluster-row_example =
    upgrade_k3s_cluster-row native hosts codec table table_answers (λ c. ok tt) "demo" asked row
      site refl refl refl
