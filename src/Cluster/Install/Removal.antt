-- ===== src/Cluster/Install/Removal.antt =====
-- What the deferred removal of `InitK3sCluster` does to the package of a cluster.
use autok3s.Base.{true, List, ◌∷◌, some, ◌≡◌, refl, ap, ◌∙◌, ok, is_set, lookup}
use autok3s.Base.Exec.{◌>>=◌, lift, continue}
use autok3s.Types.{Package}
use autok3s.Airgap.Disk.{Files}
use autok3s.Airgap.Prepare.{Machine, Local, tree, prepare_package}
use autok3s.Airgap.Prepare.Outcome.{prepare_directory}
use autok3s.Cluster.World.{
  ProviderBase, Provider, World, Outside, Action, removed, finally, remove_temporary, act,
}
use autok3s.Cluster.Install.{install, init_k3s_cluster}

cleanup-log :
    (pkg : Package) (w : World)
    → pkg.name ≡ ""
    → (remove_temporary (some pkg) w).1.log ≡ removed pkg.file_path ∷ w.log
unfolding remove_temporary act
cleanup-log pkg w h = rw h refl

module _ (p : ProviderBase) (o : Outside) where
  init_removes :
      (w : World) (provider : Provider) (pkg : Package)
      → o.get_provider p.provider ≡ ok provider
      → o.prepare_package w.log w.cluster ≡ ok (some pkg)
      → pkg.name ≡ ""
      → (rest : List Action) × ((init_k3s_cluster p o w).1.log ≡ removed pkg.file_path ∷ rest)
  unfolding init_k3s_cluster finally ◌>>=◌ lift continue
  init_removes w provider pkg asked prepared named =
      rw asked (rw prepared (_, cleanup-log pkg (install p o provider (some pkg) w).1 named))

  -- When the user's package is a directory and passes its check, a call that finds the provider ends,
  -- whatever its outcome, with the removal of that directory.
  pub init_k3s_cluster_removes_directory :
      (w : World) (provider : Provider) (machine : Machine) (l l' : Local) (t : Files)
      (pkg : Package)
      → o.get_provider p.provider ≡ ok provider
      → is_set w.cluster.package_path ≡ true
      → lookup w.cluster.package_path l ≡ some (tree t)
      → prepare_package machine w.cluster l ≡ (ok (some pkg), l')
      → o.prepare_package w.log w.cluster ≡ ok (some pkg)
      → (rest : List Action) × ((init_k3s_cluster p o w).1.log
          ≡ removed w.cluster.package_path ∷ rest)
  init_k3s_cluster_removes_directory w provider machine l l' t pkg asked set at found prepared =
      let (named, placed) = prepare_directory machine w.cluster l t set at found in
      let (rest, e) = init_removes w provider pkg asked prepared named in
      (rest, e ∙ ap (λ path. removed path ∷ rest) placed)
