-- ===== src/Database/Clusters/Contents.antt =====
-- What the methods on clusters make of the rows, whether they succeed or fail.
use autok3s.Base.{
  String, Bool, true, false, List, [], ◌∷◌, ◌++◌, Option, none, some, if◌then◌else◌, Result, ok,
  err, panic, null, ◌≡◌, refl, sym, ap, subst, ◌∙◌, arith, ok_injective,
}
use autok3s.Base.Exec.{pure, lift, >>=-cases, >>=-eq-ok}
use autok3s.Types.{Cluster}
use autok3s.Cluster.World.{succeeded}
use autok3s.Database.Rows.{
  where_rows, has_row, save_rows, delete_rows, row_at, first-where, first_row,
}
use autok3s.Database.Counts.{delete_absent}
use autok3s.Database.Table.{Table}
use autok3s.Database.Store.{
  on_db, effect, get_labels_from_meta, inc, then_effect-db, then_effect-answer,
}
use autok3s.Database.ClusterState.{
  ClusterState, written, conflicts, is_named, over_cluster, over_state, Codec, cluster_state,
}
use autok3s.Database.Clusters.{
  Db, get_cluster, save_cluster, save_cluster_state, delete_cluster, create_state, update_cluster,
  delete_state, count_out, announce, count_anyway,
}

module _ (j : Codec) (t : Table written conflicts) where
  abbrev pub rows : Db j t → List ClusterState
  rows s = t.rows s.db

  -- What a write that succeeds makes of the rows; one that fails leaves them.
  abbrev pub Writes :
      (List ClusterState → List ClusterState) → Db j t → Result (Unit {0}) × Db j t → Type 0
  Writes f s (r, s') = rows s' ≡ (if succeeded r then f (rows s) else rows s)

  -- The columns kept are those of the cluster's name.
  unfoldable pub saved_as : Cluster → Result ClusterState → List ClusterState → List ClusterState
  saved_as c (ok st) rs =
      save_rows (is_named c.name c.provider) (λ x. written (over_cluster st x)) (written st) rs
  saved_as c (err e) rs = rs
  saved_as c panic rs = rs

  abbrev pub saved_rows : Cluster → List ClusterState → List ClusterState
  saved_rows c rs = saved_as c (cluster_state j c) rs

  pub cluster_state-metadata :
      (c : Cluster) {st : ClusterState} → cluster_state j c ≡ ok st → st.metadata ≡ c.metadata
  unfolding cluster_state
  cluster_state-metadata c h = ground arith

  find-kept : (p : ClusterState → Bool) (s : Db j t) → rows (on_db (t.find p) s).1 ≡ rows s
  unfolding on_db
  find-kept p s = t.find-rows p s.db

  pub find-found :
      (p : ClusterState → Bool) (s : Db j t) {found : List ClusterState}
      → (on_db (t.find p) s).0 ≡ ok found
      → found ≡ where_rows p (rows s)
  unfolding on_db
  find-found p s h = t.find-found p s.db h

  create_state-Writes :
      (st : ClusterState) (s : Db j t)
      → Writes (λ rs. rs ++ (written st ∷ [])) s (create_state j t st s)
  unfolding create_state
  create_state-Writes st s =
      let e = inc (get_labels_from_meta j.uuid st.metadata) in
      ap t.rows (then_effect-db e (t.create st) s)
      ∙ t.create-rows st s.db
      ∙ ap (λ r. if succeeded r then rows s ++ (written st ∷ []) else rows s)
          (sym (then_effect-answer e (t.create st) s))

  create_state_unique :
      (st : ClusterState) (s : Db j t)
      → succeeded (create_state j t st s).0 ≡ true
      → has_row (conflicts st) (rows s) ≡ false
  unfolding create_state
  create_state_unique st s h =
      let e = inc (get_labels_from_meta j.uuid st.metadata) in
      t.create-unique st s.db (sym (ap succeeded (then_effect-answer e (t.create st) s)) ∙ h)

  create_state-saves :
      (st : ClusterState) (f : ClusterState → ClusterState) (s : Db j t)
      → Writes (save_rows (conflicts st) f (written st)) s (create_state j t st s)
  unfolding save_rows
  create_state-saves st f s = ground (arith, create_state-Writes st s, create_state_unique st s)

  update_cluster-Writes :
      (c : Cluster) (st : ClusterState) (s : Db j t)
      → Writes
          (save_rows (is_named c.name c.provider) (λ x. written (over_cluster st x)) (written st))
          s
          (update_cluster j t c st s)
  unfolding update_cluster on_db
  update_cluster-Writes c st s = t.save-rows (is_named c.name c.provider) (over_cluster st) st s.db

  write_state-Writes :
      (b : Bool) (c : Cluster) (st : ClusterState) (s : Db j t)
      → st.metadata ≡ c.metadata
      → Writes
          (save_rows (is_named c.name c.provider) (λ x. written (over_cluster st x)) (written st))
          s
          ((if b then create_state j t st else update_cluster j t c st) s)
  write_state-Writes true c st s h =
      subst
        (λ m.
          Writes
            (save_rows (is_named m.name m.provider) (λ x. written (over_cluster st x)) (written st))
            s (create_state j t st s))
        h (create_state-saves st (λ x. written (over_cluster st x)) s)
  write_state-Writes false c st s h = update_cluster-Writes c st s

  pub counted-kept :
      (p : ClusterState → Bool) (s : Db j t) → rows (count_anyway (on_db (t.find p)) s).1 ≡ rows s
  unfolding count_anyway
  counted-kept p s = find-kept p s

  Writes-from :
      (f g : List ClusterState → List ClusterState) (s u : Db j t) (x : Result (Unit {0}) × Db j t)
      → rows u ≡ rows s
      → ((rs : List ClusterState) → f rs ≡ g rs)
      → Writes f u x
      → Writes g s x
  Writes-from f g s u x e k h =
      h
      ∙ ap (λ r. if succeeded x.0 then r else rows u) (k (rows u))
      ∙ ap (λ rs. if succeeded x.0 then g rs else rs) e

  saved_rows-ok :
      (c : Cluster) (st : ClusterState)
      → cluster_state j c ≡ ok st
      → (rs : List ClusterState)
      → save_rows (is_named c.name c.provider) (λ x. written (over_cluster st x)) (written st) rs
        ≡ saved_rows c rs
  unfolding saved_as
  saved_rows-ok c st h rs = sym (ap (λ r. saved_as c r rs) h)

  -- After `SaveCluster` the rows are those of an UPDATE or INSERT of the cluster's row, or on an error
  -- those before.
  pub save_cluster-Writes :
      (c : Cluster) (s : Db j t) → Writes (saved_rows c) s (save_cluster j t c s)
  unfolding save_cluster lift
  save_cluster-Writes c s =
      let find = count_anyway (on_db (t.find (is_named c.name c.provider))) in
      let kept = counted-kept (is_named c.name c.provider) s in
      >>=-cases (Writes (saved_rows c) s) find _ s
        (λ found e.
          >>=-cases (Writes (saved_rows c) s) (lift (cluster_state j c)) _ (find s).1
            (λ st e'.
              Writes-from _ (saved_rows c) s (find s).1
                ((if null found then create_state j t st else update_cluster j t c st) (find s).1)
                kept (saved_rows-ok c st e')
                (write_state-Writes (null found) c st (find s).1 (cluster_state-metadata c e')))
            (λ x e'. kept) (λ e'. kept))
        (λ x e. kept) (λ e. kept)

  pub save_cluster_state-Writes :
      (st : ClusterState) (s : Db j t)
      → Writes
          (save_rows (is_named st.name st.provider) (λ x. written (over_state st x)) (written st))
          s
          (save_cluster_state j t st s)
  unfolding save_cluster_state on_db
  save_cluster_state-Writes st s =
      t.save-rows (is_named st.name st.provider) (over_state st) st s.db

  -- A query that succeeds returns the first row under the key.
  pub get_cluster-found :
      (name provider : String) (s : Db j t) {found : Option ClusterState}
      → (get_cluster j t name provider s).0 ≡ ok found
      → found ≡ row_at (is_named name provider) (rows s)
  unfolding get_cluster pure
  get_cluster-found name provider s h =
      let (list, u, e, k) =
        >>=-eq-ok (on_db (t.find (is_named name provider))) (λ found. pure (first_row found)) s
          (ap (λ r. (r, (get_cluster j t name provider s).1)) h) in
      sym (ok_injective (ap (λ x. x.0) k))
      ∙ ap first_row (find-found (is_named name provider) s (ap (λ x. x.0) e))
      ∙ first-where (is_named name provider) (rows s)

  pub get_cluster-kept :
      (name provider : String) (s : Db j t) → rows (get_cluster j t name provider s).1 ≡ rows s
  unfolding get_cluster pure
  get_cluster-kept name provider s =
      let kept = find-kept (is_named name provider) s in
      >>=-cases (λ x. rows x.1 ≡ rows s) (on_db (t.find (is_named name provider)))
        (λ found. pure (first_row found)) s (λ found e. kept) (λ x e. kept) (λ e. kept)

  count_out-answer :
      (st : ClusterState) (x : Result (Unit {0}) × Db j t) → (count_out j t st x).0 ≡ x.0
  unfolding count_out effect
  count_out-answer st (ok u, d) = refl
  count_out-answer st (err e, d) = refl
  count_out-answer st (panic, d) = refl

  count_out-db :
      (st : ClusterState) (x : Result (Unit {0}) × Db j t) → (count_out j t st x).1.db ≡ x.1.db
  unfolding count_out effect
  count_out-db st (ok u, d) = refl
  count_out-db st (err e, d) = refl
  count_out-db st (panic, d) = refl

  delete_state-Writes :
      (name provider : String) (found : Option ClusterState) (s : Db j t)
      → found ≡ row_at (is_named name provider) (rows s)
      → Writes (delete_rows (is_named name provider)) s (delete_state j t name provider found s)
  unfolding delete_state announce on_db
  delete_state-Writes name provider none s h =
      sym (delete_absent (is_named name provider) (rows s) (sym h))
  delete_state-Writes name provider (some st) s h =
      let p = is_named name provider in
      let x = announce j t st (on_db (t.delete p) s) in
      ap t.rows (count_out-db st x)
      ∙ t.delete-rows p s.db
      ∙ ap (λ r. if succeeded r then delete_rows p (rows s) else rows s)
          (sym (count_out-answer st x))

  -- After `DeleteCluster` the rows are those that are not the cluster's, or on an error those before.
  pub delete_cluster-Writes :
      (name provider : String) (s : Db j t)
      → Writes (delete_rows (is_named name provider)) s (delete_cluster j t name provider s)
  unfolding delete_cluster
  delete_cluster-Writes name provider s =
      let p = is_named name provider in
      let get = get_cluster j t name provider in
      let kept = get_cluster-kept name provider s in
      >>=-cases (Writes (delete_rows p) s) get (delete_state j t name provider) s
        (λ found e.
          Writes-from (delete_rows p) (delete_rows p) s (get s).1
            (delete_state j t name provider found (get s).1) kept (λ rs. refl)
            (delete_state-Writes name provider found (get s).1
              (get_cluster-found name provider s e ∙ ap (row_at p) (sym kept))))
        (λ x e. kept) (λ e. kept)
