-- ===== src/Manage/Join.antt =====
-- `JoinNodes`: which nodes are added, and what its deferred function does when the joining has failed or
-- some workers have failed.
pub mod Failed
mod Tests
use autok3s.Base.{
  String, Bool, true, false, not, ◌&&◌, ◌||◌, List, [], ◌∷◌, Option, none, some, if◌then◌else◌,
  ◌==◌, Result, ok, err, panic, null, length, ℕ, ◌+◌,
}
use autok3s.Base.Exec.{Exec, pure, crash, ◌>>=◌, ◌>>◌}
use autok3s.Types.{Node, Cluster, Status}
use autok3s.Cluster.World.{ProviderBase}
use autok3s.Cluster.Lifecycle.{itoa, without_errors, rollback_cluster}
use autok3s.Cluster.Lifecycle as Lifecycle
use autok3s.Database.Table.{Table}
use autok3s.Database.ClusterState.{ClusterState, written, conflicts, Codec, convert_to_cluster}
use autok3s.Database.Store.{Store}
use autok3s.Database.Clusters.{get_cluster, save_cluster_state}
use autok3s.Manage.Upgrade.{with_status}

-- The table of clusters, and `p.M`, `p.ErrM`, the instances handed to the rollback and the kubeconfig.
pub record Joining (Db : Type 0) : Type 0 where
  pub store : Store Db Cluster
  pub site : Lifecycle.Site

-- The nodes of `p.M` that the command has made, masters and workers.
pub added_masters : List (String × Node) → List Node
added_masters [] = []
added_masters ((key, n) ∷ m) =
    let rest = added_masters m in if n.current && n.master then n ∷ rest else rest

pub added_workers : List (String × Node) → List Node
added_workers [] = []
added_workers ((key, n) ∷ m) =
    let rest = added_workers m in if n.current && not n.master then n ∷ rest else rest

pub added_cluster : Cluster → List (String × Node) → Cluster
added_cluster c m = record c {
  ssh = record {
    ssh_port = "";
    ssh_user = "";
    ssh_password = "";
    ssh_key_path = "";
    ssh_cert_path = "";
    ssh_key_passphrase = "";
    ssh_agent_auth = false;
    ssh_key_name = "";
    ssh_key = "";
    ssh_cert = "";
  };
  state = record {
    status = "";
    master_nodes = added_masters m;
    worker_nodes = added_workers m;
    standalone = false;
  };
}

module _ (p : ProviderBase) (options : String) (a : Lifecycle.Answers) (j : Codec)
    (t : Table written conflicts) where
  -- The workers that are kept of a row, if they can be written.
  keep_workers : List (String × String) → ClusterState → ClusterState
  keep_workers err_m s =
      let workers = without_errors err_m (j.unmarshal_nodes s.worker_nodes) in
      record s {
        metadata = record s.metadata { worker = itoa (length workers) };
        worker_nodes = elim (j.marshal_nodes workers) [
          | ok text ↦ text
          | err e ↦ s.worker_nodes
          | panic ↦ s.worker_nodes
        ];
      }

  pub finished_state : List (String × String) → ClusterState → ClusterState
  unfolding keep_workers
  finished_state err_m s = with_status "Running" (if null err_m then s else keep_workers err_m s)

  -- `RollbackCluster`, whose error is not looked at.
  roll_back : Exec (Joining t.Db) Unit
  roll_back s =
      let row = (get_cluster j t p.name p.provider s.store).0 in
      let found : Option Cluster = elim row [
        | ok o ↦ elim o [ none ↦ none | some st ↦ some (convert_to_cluster j st true) ]
        | err e ↦ none
        | panic ↦ none
      ] in
      (ok tt, record s { site = (rollback_cluster p options a (record s.site { row = found })).1 })

  -- An error of the database is not looked at.
  save_finished : ClusterState → Exec (Joining t.Db) Unit
  save_finished st s = (
    ok tt,
    record s { store = (save_cluster_state j t (finished_state s.site.err_m st) s.store).1 },
  )

  -- What was read of the row. Of a row that is not there the code takes the fields of a nil pointer.
  finish_found : Result (Option ClusterState) → Exec (Joining t.Db) Unit
  finish_found (ok (some st)) = do save_finished st; roll_back
  finish_found (ok none) = crash
  finish_found (err e) = pure tt
  finish_found panic = crash

  read_row : Joining t.Db → Result (Option ClusterState) × Joining t.Db
  read_row s = let (r, d) = get_cluster j t p.name p.provider s.store in (r, record s { store = d })

  -- The deferred function, with whether `JoinNodes` returns an error.
  pub finish_join : Bool → Exec (Joining t.Db) Unit
  unfolding finish_found read_row save_finished roll_back
  finish_join failed s =
      if failed || not (null s.site.err_m)
      then (let (r, s') = read_row s in finish_found r s')
      else (ok tt, s)
