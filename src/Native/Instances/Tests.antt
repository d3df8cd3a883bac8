-- ===== src/Native/Instances/Tests.antt =====
-- A node of Kubernetes that the row of the cluster lacks, and a cluster without a row.
use autok3s.Base.{true, [], ◌∷◌, none, ok, panic, ◌≡◌, refl, split, join, contains}
use autok3s.Base.Exec.{pure, crash}
use autok3s.Cluster.Install.Sample.{hosts, before}
use autok3s.Manage.Sample.{codec, table, native}
use autok3s.Manage.Merge.{Merging}
use autok3s.Native.Instances.{
  internal, external, KubeNode, instance_node, external_ip, has_public_ip, save_lists,
  uninstall_cluster,
}

abbrev server : KubeNode
server = record { addresses = internal "10.0.0.9" ∷ external "1.2.3.4" ∷ []; is_master = true }

its_id : (instance_node server).instance_id ≡ "1-2-3-4"
unfolding instance_node external_ip split join
its_id = refl

its_address : has_public_ip "1.2.3.4" (instance_node server ∷ []) ≡ true
unfolding instance_node external_ip has_public_ip contains
its_address = refl

-- The code panics in place of an error.
no_row :
    (s : Merging table.Db)
    → (save_lists codec table
        (λ text. ok [])
        (λ p. none)
        (record { nodes = []; masters = []; workers = [] })
        none
        s).0
      ≡ panic
unfolding save_lists crash
no_row s = refl

left_alone :
    (uninstall_cluster hosts
      (record native { state = record native.state { standalone = true } })
      before).1.log
    ≡ []
unfolding uninstall_cluster pure
left_alone = refl
