-- ===== src/Manage/Upgrade/Row.antt =====
-- The row of a cluster after `UpgradeK3sCluster`.
use autok3s.Base.{
  String, true, false, ◌&&◌, ◌||◌, arith, is_set, some, if◌then◌else◌, ◌==◌, Result, ok, ◌≡◌, refl,
  sym, ap, ◌∙◌,
}
use autok3s.Base.Exec.{Exec, continue, raise, >>=-ok, lift, ◌>>=◌, ◌>>◌}
use autok3s.Cluster.World.{ProviderBase, Outside, World}
use autok3s.Cluster.Upgrade.{Release, upgrade, select, select_release}
use autok3s.Types.{Cluster}
use autok3s.Database.Rows.{row_at, row_at-meets}
use autok3s.Database.Table.{Table}
use autok3s.Database.ClusterState.{
  ClusterState, written, conflicts, Codec, is_named, convert_to_cluster,
}
use autok3s.Database.Clusters.{get_cluster, save_cluster_state}
use autok3s.Database.Clusters.Contents.{get_cluster-kept}
use autok3s.Database.Clusters.Refinement.{view, keys_equal}
use autok3s.Manage.Stored.{save_answers, get_answers, saved_over}
use autok3s.Manage.Site.{Site, Answers, on_store, on_world, set_cluster, finally}
use autok3s.Manage.Upgrade.{
  upgraded_state, run_upgrade, upgrade_found, upgrade_k3s_cluster, with_status, named,
}

-- The option of the command, or else what is there.
abbrev pub given_or : String → String → String
given_or given old = if given == "" then old else given

-- The package is not used for a release from the network.
abbrev pub package_or : Release → String → String → String
package_or asked given old =
    if (asked.install_script == "" && asked.k3s_channel == "") && asked.k3s_version == ""
    then given_or given old
    else ""

-- The row as running, with the release that was asked for.
abbrev pub running_release : Release → ClusterState → ClusterState
running_release asked st = record st {
  status = "Running";
  metadata = record st.metadata {
    install_script = given_or asked.install_script st.install_script;
    k3s_channel = given_or asked.k3s_channel st.k3s_channel;
    k3s_version = given_or asked.k3s_version st.k3s_version;
    package_name = package_or asked asked.package_name st.package_name;
    package_path = package_or asked asked.package_path st.package_path;
  };
}

replace-given_or : (a b : String) → (if is_set a then a else b) ≡ given_or a b
replace-given_or a b = ground arith

release-package_or :
    (asked : Release) (a b : String)
    → (if is_set asked.install_script || is_set asked.k3s_channel || is_set asked.k3s_version
        then ""
        else (if is_set a then a else b))
      ≡ package_or asked a b
release-package_or asked a b = ground arith

module _ (p : ProviderBase) (o : Outside) (j : Codec) (t : Table written conflicts)
    (answers : Answers t) (get_log_file : String → Result (Unit {0})) where
  ran-store :
      (c : Cluster) (m : Exec World Unit) (s : Site t.Db)
      → ((set_cluster c >> on_world m) s).1.store ≡ s.store
  unfolding set_cluster on_world ◌>>=◌ continue
  ran-store c m s = refl

  ran-answer :
      (c : Cluster) (m : Exec World Unit) (s : Site t.Db)
      → ((set_cluster c >> on_world m) s).0 ≡ (m (record s.world { cluster = c })).0
  unfolding set_cluster on_world ◌>>=◌ continue
  ran-answer c m s = refl

  upgraded-running :
      (asked : Release) (st : ClusterState)
      → upgraded_state p o j t get_log_file asked st ≡ running_release asked st
  unfolding upgraded_state select_release
  upgraded-running asked st = rw (
    replace-given_or asked.install_script st.install_script,
    replace-given_or asked.k3s_channel st.k3s_channel,
    replace-given_or asked.k3s_version st.k3s_version,
    release-package_or asked asked.package_name st.package_name,
    release-package_or asked asked.package_path st.package_path,
  )

  module _ (name : String) (asked : Release) (st : ClusterState) where
    abbrev inner : Exec (Site t.Db) Unit
    inner =
        set_cluster (select asked (convert_to_cluster j (with_status "Upgrading" st) true))
        >> on_world (upgrade (named name st.context_name p) o)

    run_upgrade-row :
        (s : Site t.Db) {old : ClusterState}
        → view j t s.store st.name st.provider ≡ some old
        → view j t (run_upgrade p o j t get_log_file name asked st s).1.store st.name st.provider
          ≡ some (written (upgraded_state p o j t get_log_file asked st))
    unfolding run_upgrade finally on_store upgraded_state
    run_upgrade-row s {old = old} h =
        saved_over j t answers (upgraded_state p o j t get_log_file asked st) old (inner s).1.store
          (ap (λ d. view j t d st.name st.provider)
              (ran-store _ (upgrade (named name st.context_name p) o) s)
            ∙ h)

    run_upgrade-answer :
        (s : Site t.Db)
        → (run_upgrade p o j t get_log_file name asked st s).0
          ≡ (upgrade (named name st.context_name p) o (record s.world {
            cluster = select asked (convert_to_cluster j (with_status "Upgrading" st) true);
          })).0
    unfolding run_upgrade finally
    run_upgrade-answer s = ran-answer _ (upgrade (named name st.context_name p) o) s

    -- The state in which `Upgrade` is called.
    abbrev marked : Site t.Db → Site t.Db
    marked s =
        (on_store (save_cluster_state j t (with_status "Upgrading" st))
          (on_store (get_cluster j t name p.provider) s).1).1

    marked-row :
        (s : Site t.Db)
        → view j t s.store name p.provider ≡ some st
        → view j t (marked s).store st.name st.provider
          ≡ some (written (with_status "Upgrading" st))
    unfolding on_store
    marked-row s h =
        let (e, e') =
          keys_equal st.name st.provider name p.provider
            (row_at-meets (is_named name p.provider) (t.rows s.store.db) h) in
        saved_over j t answers (with_status "Upgrading" st) st
          (get_cluster j t name p.provider s.store).1
          (ap (row_at (is_named st.name st.provider)) (get_cluster-kept j t name p.provider s.store)
            ∙ ap (λ n. view j t s.store n st.provider) e
            ∙ ap (λ q. view j t s.store name q) e'
            ∙ h)

    upgrade_steps :
        (s : Site t.Db)
        → (p.provider == "k3d") ≡ false
        → view j t s.store name p.provider ≡ some st
        → get_log_file st.context_name ≡ ok tt
        → upgrade_k3s_cluster p o j t get_log_file name asked s
          ≡ run_upgrade p o j t get_log_file name asked st (marked s)
    unfolding upgrade_k3s_cluster upgrade_found on_store lift
    upgrade_steps s k h l =
        let get = on_store (get_cluster j t name p.provider) in
        let save = on_store (save_cluster_state j t (with_status "Upgrading" st)) in
        ap
          (λ b.
            (if b
                then raise "the upgrade cluster for K3d provider is not supported yet"
                else (get >>= upgrade_found p o j t get_log_file name asked))
              s)
          k
        ∙ >>=-ok get (upgrade_found p o j t get_log_file name asked) s
            (get_answers j t answers name p.provider s.store ∙ ap ok h)
        ∙ >>=-ok (lift (get_log_file st.context_name)) _ (get s).1 l
        ∙ >>=-ok save _ (get s).1
            (save_answers j t answers (with_status "Upgrading" st) (get s).1.store)

    -- `UpgradeK3sCluster` of a cluster that is there returns what `Upgrade` returns, and whatever that
    -- is, the row ends as running with the release that was asked for.
    pub upgrade_k3s_cluster-row :
        (s : Site t.Db)
        → (p.provider == "k3d") ≡ false
        → view j t s.store name p.provider ≡ some st
        → get_log_file st.context_name ≡ ok tt
        → let x = upgrade_k3s_cluster p o j t get_log_file name asked s in
          (x.0
            ≡ (upgrade (named name st.context_name p) o (record s.world {
              cluster = select asked (convert_to_cluster j (with_status "Upgrading" st) true);
            })).0)
          × (view j t x.1.store name p.provider ≡ some (written (running_release asked st)))
    unfolding on_store
    upgrade_k3s_cluster-row s k h l =
        let e = upgrade_steps s k h l in
        let (n, q) =
          keys_equal st.name st.provider name p.provider
            (row_at-meets (is_named name p.provider) (t.rows s.store.db) h) in
        (
          ap (λ x. x.0) e ∙ run_upgrade-answer (marked s),
          ap (λ x. view j t x.1.store name p.provider) e
              ∙ ap
                  (λ m.
                    view j t (run_upgrade p o j t get_log_file name asked st (marked s)).1.store m
                      p.provider)
                  (sym n)
              ∙ ap
                  (λ m.
                    view j t (run_upgrade p o j t get_log_file name asked st (marked s)).1.store
                      st.name m)
                  (sym q)
              ∙ run_upgrade-row (marked s) (marked-row s h)
              ∙ ap (λ r. some (written r)) (upgraded-running asked st),
        )
