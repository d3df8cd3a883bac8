-- ===== src/Database/Clusters/Tests.antt =====
-- A database in memory: a cluster is saved, upgraded, read and deleted.
use autok3s.Base.{
  String, List, [], ◌∷◌, some, if◌then◌else◌, Result, ok, err, ◌≡◌, refl, join, split,
}
use autok3s.Base.Exec.{pure, lift, ◌>>=◌, continue}
use autok3s.Types.{Node, Cluster}
use autok3s.Types.Sample.{etcd_cluster, blank_status}
use autok3s.Cluster.World.{succeeded}
use autok3s.Database.Rows.{where_rows, has_row, overwrite, delete_rows, save_rows, row_at}
use autok3s.Database.Keys.{IsUnique}
use autok3s.Database.Table.{Table, in_memory}
use autok3s.Database.Store.{
  broadcast, remove_api_event, inc, dec, on_db, effect, get_labels_from_meta, incs, decs, Labels,
}
use autok3s.Database.ClusterState.{
  ClusterState, written, conflicts, is_named, over_cluster, Codec, cluster_state, cluster_object,
  row_of,
}
use autok3s.Database.Clusters.{
  Db, save_cluster, get_cluster, delete_cluster, count_anyway, rows_affected, create_state,
  update_cluster, delete_state, announce, count_out,
}
use autok3s.Database.Clusters.Contents.{rows, get_cluster-found}
use autok3s.Database.Clusters.Refinement.{saving, deleting, perform, apply, view, perform-refines}
use autok3s.Database.Clusters.Gauge.{IsCounted}
use autok3s.Database.Clusters.History.{perform_all, perform_all-IsCounted}

-- Only empty lists of nodes.
abbrev marshal : List Node → Result String
marshal [] = ok "[]"
marshal (n ∷ ns) = err "no nodes"

abbrev codec : Codec
codec = record {
  marshal_options = λ opt. ok opt;
  marshal_nodes = marshal;
  unmarshal_nodes = λ text. [];
  get_provider_options = λ provider opt. ok opt;
  uuid = "u";
}

abbrev table : Table written conflicts
table = in_memory written conflicts

abbrev old_version : Cluster
old_version = record etcd_cluster {
  metadata = record etcd_cluster.metadata {
    k3s_version = "v1";
    provider = "native";
    context_name = "c.native";
  };
  state = blank_status;
}

abbrev new_version : Cluster
new_version = record old_version {
  metadata = record old_version.metadata { k3s_version = "v2"; token = "t" };
}

abbrev empty : Db codec table
empty = record { db = []; log = [] }

abbrev saved : Db codec table
saved = (save_cluster codec table old_version empty).1

abbrev upgraded : Db codec table
upgraded = (save_cluster codec table new_version saved).1

abbrev deleted : Db codec table
deleted = (delete_cluster codec table "demo" "native" upgraded).1

abbrev labels : String → Labels
labels version = record { provider = "native"; k3s_version = version; install_uuid = "u" }

abbrev old_row : ClusterState
old_row = row_of codec old_version "" "[]" "[]"

abbrev new_row : ClusterState
new_row = row_of codec new_version "" "[]" "[]"

-- The gauge with the label of the old version stays, and that of the new one goes below zero.
upgraded_then_deleted : deleted ≡ record {
  db = [];
  log =
      dec (labels "v2")
      ∷ broadcast remove_api_event (cluster_object codec new_row)
      ∷ inc (labels "v1")
      ∷ [];
}
unfolding save_cluster count_anyway rows_affected on_db effect cluster_state create_state lift
    continue ◌>>=◌ get_labels_from_meta where_rows has_row written update_cluster over_cluster
    save_rows overwrite get_cluster delete_cluster delete_state announce count_out delete_rows pure
    join split
upgraded_then_deleted = refl

perform-refines_example : view codec table upgraded "demo" "native" ≡ (
    if succeeded (perform codec table (saving new_version) saved).0
    then apply codec (saving new_version) (view codec table saved) "demo" "native"
    else view codec table saved "demo" "native")
unfolding perform
perform-refines_example = perform-refines codec table (saving new_version) "demo" "native" saved

perform_all-IsCounted_example :
    IsCounted codec table
      (perform_all codec table (saving old_version ∷ deleting "demo" "native" ∷ []) empty)
unfolding IsUnique incs decs
perform_all-IsCounted_example =
    perform_all-IsCounted codec table (saving old_version ∷ deleting "demo" "native" ∷ []) empty tt
      (tt, (tt, tt)) refl

reads : (get_cluster codec table "demo" "native" saved).0 ≡ ok (some old_row)
unfolding save_cluster count_anyway rows_affected on_db effect cluster_state create_state lift
    continue ◌>>=◌ get_labels_from_meta where_rows has_row written get_cluster pure join split
reads = refl

get_cluster-found_example :
    some old_row ≡ row_at (is_named "demo" "native") (rows codec table saved)
get_cluster-found_example = get_cluster-found codec table "demo" "native" saved reads
