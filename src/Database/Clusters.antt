-- ===== src/Database/Clusters.antt =====
-- pkg/common/model.go: the clusters of the `Store`.
pub mod Contents
pub mod RoundTrip
mod Tests
pub mod History
pub mod Gauge
pub mod Refinement
use autok3s.Base.{
  String, Bool, true, false, ◌&&◌, List, [], ◌∷◌, Option, none, some, if◌then◌else◌, ◌==◌, Result,
  ok, err, panic, null, is_set, map,
}
use autok3s.Base.Exec.{Exec, pure, lift, ◌>>=◌, ◌>>◌}
use autok3s.Types.{Metadata, Ssh, Node, Cluster}
use autok3s.Database.ClusterState.{
  ClusterState, written, conflicts, is_named, over_cluster, over_state, Codec, cluster_state,
  cluster_object,
}
use autok3s.Database.Rows.{first_row}
use autok3s.Database.Table.{Table}
use autok3s.Database.Store.{
  Store, ApiObject, Effect, broadcast, remove_api_event, inc, dec, Labels, get_labels_from_meta,
  on_db, effect,
}

unfoldable pub rows_affected : {A : Type 0} → Result (List A) → Result (List A)
rows_affected (ok rows) = ok rows
rows_affected (err e) = ok []
rows_affected panic = panic

-- The number of rows, whatever the error.
unfoldable pub count_anyway : {S A : Type 0} → Exec S (List A) → Exec S (List A)
unfolding rows_affected
count_anyway m s = let (r, s') = m s in (rows_affected r, s')

module _ (j : Codec) (t : Table written conflicts) where
  abbrev pub Db : Type 0
  Db = Store t.Db Cluster

  unfoldable pub get_cluster : String → String → Exec Db (Option ClusterState)
  get_cluster name provider = do
    found ← on_db (t.find (is_named name provider))
    pure (first_row found)

  unfoldable pub get_cluster_by_id : String → Exec Db (Option ClusterState)
  get_cluster_by_id context_name = do
    found ← on_db (t.find (λ s. s.context_name == context_name))
    pure (first_row found)

  unfoldable pub list_cluster : String → Exec Db (List ClusterState)
  list_cluster provider =
      on_db (t.find (λ s. if is_set provider then s.provider == provider else true))

  unfoldable pub find_cluster : String → String → Exec Db (List ClusterState)
  find_cluster name provider =
      on_db
        (t.find (λ s. s.name == name && (if is_set provider then s.provider == provider else true)))

  create_state : ClusterState → Exec Db Unit
  create_state s = do on_db (t.create s); effect (inc (get_labels_from_meta j.uuid s.metadata))

  update_cluster : Cluster → ClusterState → Exec Db Unit
  update_cluster c s = on_db (t.save (is_named c.name c.provider) (over_cluster s) s)

  -- A query that fails counts as one that finds nothing.
  unfoldable pub save_cluster : Cluster → Exec Db Unit
  unfolding create_state update_cluster
  save_cluster c = do
    found ← count_anyway (on_db (t.find (is_named c.name c.provider)))
    state ← lift (cluster_state j c)
    if null found then create_state state else update_cluster c state

  unfoldable pub save_cluster_state : ClusterState → Exec Db Unit
  save_cluster_state s = on_db (t.save (is_named s.name s.provider) (over_state s) s)

  count_out : ClusterState → Result (Unit {0}) × Db → Result (Unit {0}) × Db
  count_out s (ok u, d) = effect (dec (get_labels_from_meta j.uuid s.metadata)) d
  count_out s (err e, d) = (err e, d)
  count_out s (panic, d) = (panic, d)

  -- The event is sent whether or not the row could be deleted.
  announce : ClusterState → Result (Unit {0}) × Db → Result (Unit {0}) × Db
  announce s (r, d) =
      (r, record d { log = broadcast remove_api_event (cluster_object j s) ∷ d.log })

  delete_state : String → String → Option ClusterState → Exec Db Unit
  delete_state name provider none d = (ok tt, d)
  delete_state name provider (some s) d =
      count_out s (announce s (on_db (t.delete (is_named name provider)) d))

  unfoldable pub delete_cluster : String → String → Exec Db Unit
  unfolding delete_state announce count_out
  delete_cluster name provider = do
    found ← get_cluster name provider
    delete_state name provider found
