-- ===== src/Manage/Stored.antt =====
-- Reading and saving the row of a cluster that is there, in a database that answers.
use autok3s.Base.{String, some, ok, ◌≡◌, refl, ap, ◌∙◌, eq_refl}
use autok3s.Base.Exec.{pure, continue, ◌>>=◌}
use autok3s.Cluster.World.{succeeded}
use autok3s.Database.Rows.{first-where, row_at-meets}
use autok3s.Database.Store.{on_db}
use autok3s.Database.Table.{Table}
use autok3s.Database.ClusterState.{ClusterState, written, conflicts, Codec, over_state, is_named}
use autok3s.Database.Clusters.{Db, get_cluster, save_cluster_state}
use autok3s.Database.Clusters.Refinement.{
  view, perform, perform-refines, saving_state, apply, keys_equal,
}
use autok3s.Manage.Site.{Answers}

module _ (j : Codec) (t : Table written conflicts) (answers : Answers t) where
  pub save_answers : (st : ClusterState) (s : Db j t) → (save_cluster_state j t st s).0 ≡ ok tt
  unfolding save_cluster_state on_db
  save_answers st s = answers.saves (is_named st.name st.provider) (over_state st) st s.db

  pub get_answers :
      (name provider : String) (s : Db j t)
      → (get_cluster j t name provider s).0 ≡ ok (view j t s name provider)
  unfolding get_cluster on_db ◌>>=◌ continue pure
  get_answers name provider s =
      rw (answers.finds (is_named name provider) s.db)
        (ap ok (first-where (is_named name provider) (t.rows s.db)))

  over_same :
      (st old : ClusterState)
      → old.name ≡ st.name
      → old.provider ≡ st.provider
      → written (over_state st old) ≡ written st
  unfolding over_state written
  over_same st old e e' = rw e (rw e' refl)

  -- Saving a row under the key of the row that is there.
  pub saved_over :
      (st old : ClusterState) (s : Db j t)
      → view j t s st.name st.provider ≡ some old
      → view j t (save_cluster_state j t st s).1 st.name st.provider ≡ some (written st)
  unfolding perform apply
  saved_over st old s h =
      let (e, e') =
        keys_equal old.name old.provider st.name st.provider
          (row_at-meets (is_named st.name st.provider) (t.rows s.db) h) in
      perform-refines j t (saving_state st) st.name st.provider s
      ∙ rw (ap succeeded (save_answers st s))
          (rw (eq_refl st.name) (rw (eq_refl st.provider) (rw h (ap some (over_same st old e e')))))
