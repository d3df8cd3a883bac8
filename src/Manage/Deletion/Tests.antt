-- ===== src/Manage/Deletion/Tests.antt =====
-- A cluster with a kube-explorer is deleted.
use autok3s.Base.{true, false, [], ◌∷◌, ok, ◌≡◌, refl, ap, delete_key, contains}
use autok3s.Base.Exec.{pure, lift, continue, ◌>>=◌}
use autok3s.Database.Rows.{where_rows, has_row, overwrite, save_rows, delete_rows}
use autok3s.Database.Table.{Table, in_memory}
use autok3s.Database.Keyed.{find_one, save_or_create}
use autok3s.Database.Store.{on_db, effect}
use autok3s.Database.ClusterState.{written, conflicts, over_state}
use autok3s.Database.Clusters.{get_cluster, save_cluster_state, delete_cluster}
use autok3s.Database.Explorers.{
  same_context, Machine, get_explorer, delete_explorer, disable_explorer, save_explorer,
}
use autok3s.Manage.Sample.{codec, native, row}
use autok3s.Manage.Deletion.{
  Calls, World, in_store, in_explorers, remove_directory, finally, unless, clear_cfg_by_context,
  mark_removing, disable_if, release_explorer, delete_all, forget, confirmed, delete_whole_cluster,
}
use autok3s.Manage.Deletion.Gone.{IsGone, delete_whole_cluster-IsGone}

abbrev clusters : Table written conflicts
clusters = in_memory written conflicts

abbrev explorers : Table autok3s.Database.Explorers.written same_context
explorers = in_memory autok3s.Database.Explorers.written same_context

abbrev machine : Machine explorers.Db
machine = record {
  get_free_port = λ s. ok 40000;
  check_command_exist = λ s. ok tt;
  check_explorer_cmd = λ s. ok tt;
}

abbrev calls : Calls
calls = record {
  ask_for_confirmation = true;
  get_log_file = ok tt;
  delete = λ force. ok "demo.native";
  clear_cfg = ok tt;
}

abbrev before : World native codec clusters explorers machine calls
before = record {
  store = record { db = row ∷ []; log = [] };
  explorers = record {
    db = record { context_name = "demo.native"; enabled = true; port = 40000 } ∷ [];
    watchers = "demo.native" ∷ [];
  };
  contexts = "other" ∷ "demo.native" ∷ [];
  directory = true;
}

abbrev after : World native codec clusters explorers machine calls
after = (delete_whole_cluster native codec clusters explorers machine calls false before).1

succeeds :
    (delete_whole_cluster native codec clusters explorers machine calls false before).0 ≡ ok tt
unfolding delete_whole_cluster confirmed delete_all forget in_store in_explorers remove_directory
    finally unless clear_cfg_by_context mark_removing disable_if release_explorer get_cluster
    save_cluster_state delete_cluster get_explorer delete_explorer disable_explorer save_explorer
    find_one save_or_create on_db effect where_rows has_row overwrite save_rows delete_rows pure
    lift continue ◌>>=◌ delete_key contains written over_state
succeeds = refl

delete_whole_cluster-IsGone_example :
    IsGone native codec clusters explorers machine calls after × (after.directory ≡ false)
delete_whole_cluster-IsGone_example =
    delete_whole_cluster-IsGone native codec clusters explorers machine calls before after refl
      (ap (λ r. (r, after)) succeeds)
