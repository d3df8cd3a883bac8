-- ===== src/Cluster/Install/Rows.antt =====
-- When `InitK3sCluster` saves the cluster.
use autok3s.Base.{
  String, List, [], ◌∷◌, Option, none, some, ◌≡◌, refl, arith, subst, Result, ok, err, panic,
  if◌then◌else◌,
}
use autok3s.Base.Exec.{
  ◌>>=◌, Exec, pure, lift, gets, modify, continue, Steps, Preserves, >>=-Preserves,
}
use autok3s.Types.{Node, Cluster, Package}
use autok3s.Cluster.World.{
  ProviderBase, Provider, World, Outside, succeeded, act, finally, save_cfg, save_cluster,
  execute_with_retry, remove_temporary,
}
use autok3s.Cluster.Nodes.Effects.{Works}
use autok3s.Cluster.Install.{
  set_running, update, ensure_token, choose_ip, install_nodes, enable_plugins, register, deploy,
  install, init_k3s_cluster, cat_cfg_command,
}
use autok3s.Cluster.Install.Effects.{retry-Works, install_nodes-Works}

abbrev rows_of : World → List Cluster
rows_of w = w.rows

-- On success the latest row is the cluster, and otherwise there is no new row.
abbrev pub IsSaved : World → Result (Unit {0}) × World → Type 0
IsSaved w x = x.1.rows ≡ (if succeeded x.0 then x.1.cluster ∷ w.rows else w.rows)

abbrev Saves : Exec World Unit → Type 0
Saves m = (w : World) → IsSaved w (m w)

module _ {A : Type 0} where
  Works-Preserves : (m : Exec World A) → Steps Works m → Preserves rows_of m
  Works-Preserves m h w = (h w).rows

  continue-Saves :
      (r : Result A) (k : A → Exec World Unit) (w u : World)
      → u.rows ≡ w.rows
      → ((a : A) → Saves (k a))
      → IsSaved w (continue r k u)
  unfolding continue
  continue-Saves (ok a) k w u e h =
      subst (λ l. (k a u).1.rows ≡ (if succeeded (k a u).0 then (k a u).1.cluster ∷ l else l)) e
        (h a u)
  continue-Saves (err m) k w u e h = e
  continue-Saves panic k w u e h = e

  >>=-Saves :
      (m : Exec World A) (k : A → Exec World Unit)
      → Preserves rows_of m
      → ((a : A) → Saves (k a))
      → Saves (m >>= k)
  unfolding ◌>>=◌
  >>=-Saves m k p h w = let (r, u) = m w in continue-Saves r k w u (p w) h

lift-rows : {A : Type 0} (r : Result A) → Preserves rows_of (lift {S = World} r)
unfolding lift
lift-rows r w = refl

gets-rows : {A : Type 0} (f : World → A) → Preserves rows_of (gets f)
unfolding gets
gets-rows f w = refl

update-rows : (f : Cluster → Cluster) → Preserves rows_of (update f)
unfolding update modify
update-rows f w = refl

module _ (p : ProviderBase) (o : Outside) where
  save_cfg-rows : (cfg ip context : String) → Preserves rows_of (save_cfg o cfg ip context)
  unfolding save_cfg
  save_cfg-rows cfg ip context w = refl

  ensure_token-rows : Preserves rows_of (ensure_token p o)
  unfolding ensure_token update modify ◌>>=◌ lift
  ensure_token-rows w = ground arith

  choose_ip-rows : Preserves rows_of (choose_ip p o)
  unfolding choose_ip update modify ◌>>=◌ lift
  choose_ip-rows w = ground arith

  module _ (provider : Provider) (c : Cluster) (ip : String) (pkg : Option Package) where
    register-rows : (m : Node) → Preserves rows_of (register p o provider c ip pkg m)
    unfolding register
    register-rows m =
        let attempts = execute_with_retry o 3 m (cat_cfg_command ∷ []) in
        >>=-Preserves rows_of attempts _
          (Works-Preserves attempts (retry-Works p o 3 m (cat_cfg_command ∷ [])))
          λ cfg.
            >>=-Preserves rows_of _ _ (save_cfg-rows cfg ip c.context_name)
              λ _. update-rows set_running

    save-Saves : Saves (save_cluster o >>= λ _. enable_plugins p o provider c ip pkg)
    unfolding save_cluster enable_plugins ◌>>=◌ act
    save-Saves w = ground arith

    deploy-Saves : (m : Node) → Saves (deploy p o provider c ip pkg m)
    unfolding deploy
    deploy-Saves m =
        let nodes = install_nodes p o provider c ip pkg m in
        >>=-Saves nodes _ (Works-Preserves nodes (install_nodes-Works p o provider c ip pkg m))
          λ _. >>=-Saves _ _ (register-rows m) λ _. save-Saves

  install-Saves : (provider : Provider) (pkg : Option Package) → Saves (install p o provider pkg)
  unfolding install
  install-Saves provider pkg = >>=-Saves _ _ ensure_token-rows λ _.
      >>=-Saves _ _ choose_ip-rows
        λ x. >>=-Saves _ _ (gets-rows (λ w. w.cluster)) λ c. deploy-Saves provider c x.1 pkg x.0

  cleanup-IsSaved :
      (pkg : Option Package) (w : World) (x : Result (Unit {0}) × World)
      → IsSaved w x
      → IsSaved w (x.0, (remove_temporary pkg x.1).1)
  unfolding remove_temporary pure act
  cleanup-IsSaved none w x h = h
  cleanup-IsSaved (some pkg) w x h = ground arith

  finally-Saves :
      (pkg : Option Package) (m : Exec World Unit)
      → Saves m
      → Saves (finally (remove_temporary pkg) m)
  unfolding finally
  finally-Saves pkg m h w = cleanup-IsSaved pkg w (m w) (h w)

  -- Whatever the hosts, the database and the files answer, a call that succeeds adds one row, the
  -- cluster as it then is, and a call that fails or panics at any step leaves the rows as they were.
  pub init_k3s_cluster_saves_last :
      (w : World)
      → let (r, w') = init_k3s_cluster p o w in
        w'.rows ≡ (if succeeded r then w'.cluster ∷ w.rows else w.rows)
  unfolding init_k3s_cluster
  init_k3s_cluster_saves_last =
      >>=-Saves _ _ (lift-rows (o.get_provider p.provider)) λ provider.
        >>=-Saves _ _ (λ w. refl) λ pkg. finally-Saves pkg _ (install-Saves provider pkg)
