-- ===== src/Manage/Join/Failed.antt =====
-- The row of a cluster behind a joining that has failed.
use autok3s.Base.{
  String, Bool, true, not, ◌||◌, List, some, if◌then◌else◌, ok, panic, ◌≡◌, refl, ap, subst, [],
  ◌∷◌, ◌∙◌, null, map, length, Result, err,
}
use autok3s.Base.Exec.{continue, ◌>>=◌}
use autok3s.Cluster.World.{ProviderBase}
use autok3s.Types.{Node}
use autok3s.Cluster.Lifecycle as Lifecycle
use autok3s.Cluster.Lifecycle.{itoa}
use autok3s.Cluster.Lifecycle.Failed.{other_than, without_errors-keys}
use autok3s.Database.Table.{Table}
use autok3s.Database.ClusterState.{ClusterState, written, conflicts, Codec}
use autok3s.Database.Clusters.{get_cluster, save_cluster_state}
use autok3s.Database.Clusters.Refinement.{view}
use autok3s.Database.Clusters.Contents.{get_cluster-kept}
use autok3s.Database.Rows.{row_at, row_at-meets}
use autok3s.Database.ClusterState.{is_named}
use autok3s.Database.Clusters.Refinement.{keys_equal}
use autok3s.Manage.Stored.{get_answers, saved_over}
use autok3s.Manage.Site.{Answers}
use autok3s.Manage.Join.{
  Joining, keep_workers, finished_state, finish_join, finish_found, read_row, save_finished,
  roll_back,
}

-- The text that was written, or else what is there.
abbrev pub text_or : String → Result String → String
text_or old (ok text) = text
text_or old (err e) = old
text_or old panic = old

-- The workers of a row whose IDs are not among those that failed.
abbrev pub other_workers : Codec → List (String × String) → ClusterState → List Node
other_workers j err_m st = other_than (map (λ e. e.0) err_m) (j.unmarshal_nodes st.worker_nodes)

-- The row as running, without the workers that failed.
abbrev pub running_joined : Codec → List (String × String) → ClusterState → ClusterState
running_joined j err_m st = record st {
  status = "Running";
  metadata = record st.metadata {
    worker = if null err_m then st.worker else itoa (length (other_workers j err_m st));
  };
  worker_nodes =
      if null err_m
      then st.worker_nodes
      else text_or st.worker_nodes (j.marshal_nodes (other_workers j err_m st));
}

written_or :
    (old : String) (r : Result String)
    → elim r [ ok text ↦ text | err e ↦ old | panic ↦ old ] ≡ text_or old r
written_or old (ok text) = refl
written_or old (err e) = refl
written_or old panic = refl

module _ (p : ProviderBase) (options : String) (a : Lifecycle.Answers) (j : Codec)
    (t : Table written conflicts) (answers : Answers t) where
  abbrev after_read : Joining t.Db → Joining t.Db
  after_read s = record s { store = (get_cluster j t p.name p.provider s.store).1 }

  finished-keys :
      (err_m : List (String × String)) (st : ClusterState)
      → ((finished_state p options a j t err_m st).name ≡ st.name)
        × ((finished_state p options a j t err_m st).provider ≡ st.provider)
  unfolding finished_state
  finished-keys [] st = (refl, refl)
  finished-keys (e ∷ err_m) st = (refl, refl)

  reading :
      (failed : Bool) (s : Joining t.Db)
      → (failed || not (null s.site.err_m)) ≡ true
      → finish_join p options a j t failed s
        ≡ finish_found p options a j t
            (ok (view j t s.store p.name p.provider))
            (record s { store = (get_cluster j t p.name p.provider s.store).1 })
  unfolding finish_join read_row
  reading failed s h =
      let r = read_row p options a j t s in
      ap (λ b. if b then finish_found p options a j t r.0 r.1 else (ok tt, s)) h
      ∙ ap (λ x. finish_found p options a j t x (after_read s))
          (get_answers j t answers p.name p.provider s.store)

  saved_finished :
      (s : Joining t.Db) (st : ClusterState)
      → view j t s.store p.name p.provider ≡ some st
      → let new = finished_state p options a j t s.site.err_m st in
        view j t (save_cluster_state j t new (after_read s).store).1 p.name p.provider
        ≡ some (written new)
  saved_finished s st e =
      let new = finished_state p options a j t s.site.err_m st in
      let (n, q) = finished-keys s.site.err_m st in
      let (n', q') =
        keys_equal st.name st.provider p.name p.provider
          (row_at-meets (is_named p.name p.provider) (t.rows s.store.db) e) in
      let there =
        ap (row_at (is_named p.name p.provider)) (get_cluster-kept j t p.name p.provider s.store)
        ∙ e in
      subst
        (λ m.
          view j t (save_cluster_state j t new (after_read s).store).1 m p.provider
          ≡ some (written new))
        (n ∙ n')
        (subst
          (λ r.
            view j t (save_cluster_state j t new (after_read s).store).1 new.name r
            ≡ some (written new))
          (q ∙ q')
          (saved_over j t answers new st (after_read s).store (
            ap (λ m. view j t (after_read s).store m new.provider) (n ∙ n')
            ∙ ap (λ r. view j t (after_read s).store p.name r) (q ∙ q')
            ∙ there)))

  finished-joined :
      (err_m : List (String × String)) (st : ClusterState)
      → finished_state p options a j t err_m st ≡ running_joined j err_m st
  unfolding finished_state keep_workers
  finished-joined [] st = refl
  finished-joined (e ∷ err_m) st = rw (
    without_errors-keys (e ∷ err_m) (j.unmarshal_nodes st.worker_nodes),
    written_or st.worker_nodes (j.marshal_nodes (other_workers j (e ∷ err_m) st)),
  )

  -- If the joining or some workers have failed, on a database that answers, and the row of the cluster is
  -- there, it ends as running. Its workers are those that have not failed, if they can be written, and
  -- their number is in it; without a failed worker both stay. The rest of the row stays.
  pub finish_join-row :
      (failed : Bool) (s : Joining t.Db) (st : ClusterState)
      → (failed || not (null s.site.err_m)) ≡ true
      → view j t s.store p.name p.provider ≡ some st
      → view j t (finish_join p options a j t failed s).1.store p.name p.provider
        ≡ some (written (running_joined j s.site.err_m st))
  unfolding finish_found save_finished roll_back finished_state ◌>>=◌ continue
  finish_join-row failed s st h e =
      ap (λ x. view j t x.1.store p.name p.provider) (reading failed s h)
      ∙ ap
          (λ o.
            view j t (finish_found p options a j t (ok o) (after_read s)).1.store p.name p.provider)
          e
      ∙ saved_finished s st e
      ∙ ap (λ r. some (written r)) (finished-joined s.site.err_m st)
