-- ===== src/Manage/Deletion.antt =====
-- `DeleteCluster`: the provider's deletion with the row, the kubeconfig, the kube-explorer and the
-- directory of the cluster.
pub mod Gone
mod Tests
use autok3s.Base.{
  String, Bool, true, false, not, ◌&&◌, List, [], ◌∷◌, Option, none, some, if◌then◌else◌, ◌==◌,
  ◌<>◌, Result, ok, err, panic, delete_key,
}
use autok3s.Base.Exec.{Exec, pure, raise, lift, ◌>>=◌, ◌>>◌}
use autok3s.Types.{Cluster}
use autok3s.Cluster.World.{ProviderBase}
use autok3s.Database.Table.{Table}
use autok3s.Database.Store.{Store}
use autok3s.Database.ClusterState.{ClusterState, written, conflicts, Codec}
use autok3s.Database.Clusters.{Db, get_cluster, save_cluster_state, delete_cluster}
use autok3s.Database.Explorers.{
  Explorer, same_context, Explorers, State, Machine, get_explorer, delete_explorer,
  disable_explorer, on_rows,
}
use autok3s.Manage.Upgrade.{with_status}

-- The contexts of the kubeconfig, and whether the cluster's directory is there.
pub record Local (Db De : Type 0) : Type 0 where
  pub store : Store Db Cluster
  pub explorers : Explorers De
  pub contexts : List String
  pub directory : Bool

module _ {Db De : Type 0} where
  unfoldable pub in_store : {A : Type 0} → Exec (Store Db Cluster) A → Exec (Local Db De) A
  in_store m s = let (r, d) = m s.store in (r, record s { store = d })

  unfoldable pub in_explorers : {A : Type 0} → Exec (Explorers De) A → Exec (Local Db De) A
  in_explorers m s = let (r, d) = m s.explorers in (r, record s { explorers = d })

  -- `os.RemoveAll` of the directory.
  unfoldable pub remove_directory : Exec (Local Db De) Unit
  remove_directory s = (ok tt, record s { directory = false })

  -- `defer`: done at every return behind it, and when the function panics.
  unfoldable pub finally :
      Exec (Local Db De) Unit → Exec (Local Db De) Unit → Exec (Local Db De) Unit
  finally cleanup m s = let (r, s') = m s in (r, (cleanup s').1)

-- An error counts only without `force`, and is reported with a message; with it there is a value.
abbrev pub tolerate : {A : Type 0} → Bool → String → A → Result A → Result A
tolerate force message value (ok a) = ok a
tolerate true message value (err e) = ok value
tolerate false message value (err e) = err (message <> e)
tolerate force message value panic = panic

unfoldable pub unless : {S A : Type 0} → Bool → String → A → Exec S A → Exec S A
unless force message value m s = let (r, s') = m s in (tolerate force message value r, s')

-- The user, the log file, the provider's deletion, which returns the context, and the kubeconfig.
pub record Calls : Type 0 where
  pub ask_for_confirmation : Bool
  pub get_log_file : Result (Unit {0})
  pub delete : Bool → Result String
  pub clear_cfg : Result (Unit {0})

module _ (p : ProviderBase) (j : Codec) (t : Table written conflicts)
    (te : Table autok3s.Database.Explorers.written same_context) (machine : Machine te.Db)
    (calls : Calls) where
  abbrev pub World : Type 0
  World = Local t.Db te.Db

  -- `FileManager.ClearCfgByContext`
  clear_cfg_by_context : String → Exec World Unit
  clear_cfg_by_context context = do
    lift calls.clear_cfg
    λ s. (ok tt, record s { contexts = delete_key context s.contexts })

  mark_removing : Bool → Option ClusterState → Exec World Unit
  mark_removing force none = pure tt
  mark_removing force (some st) =
      unless force
        ("[" <> p.provider <> "] failed to update cluster " <> p.name
          <> " status to removing, got error ")
        tt (in_store (save_cluster_state j t (with_status "Removing" st)))

  -- An error of `DisableExplorer` is not looked at.
  disable_if : Bool → Exec World Unit
  disable_if false = pure tt
  disable_if true = unless true "" tt (in_explorers (disable_explorer te machine p.context_name))

  release_explorer : Bool → Option Explorer → Exec World Unit
  release_explorer force none = pure tt
  release_explorer force (some exp) = do
    disable_if exp.enabled
    unless force
        ("[" <> p.provider <> "] failed to delete explorer setting for " <> p.context_name <> ": ")
        tt (in_explorers (on_rows te (delete_explorer te p.context_name)))

  -- What is kept of the cluster here, behind the provider's deletion.
  forget : Bool → String → Exec World Unit
  forget force context = do
    unless force ("[" <> p.provider <> "] merge kubeconfig error, msg: ") tt
        (clear_cfg_by_context context)
    unless force ("[" <> p.provider <> "] failed to delete cluster state, msg: ") tt
        (in_store (delete_cluster j t p.name p.provider))
    exp ←
        unless force
          ("[" <> p.provider <> "] failed to get kube-explorer config for cluster "
            <> p.context_name <> ": ")
          none (in_explorers (on_rows te (get_explorer te p.context_name)))
    release_explorer force exp

  delete_all : Bool → Exec World Unit
  delete_all force = do
    state ←
        unless force ("[" <> p.provider <> "] failed to get cluster " <> p.name <> ", got error ")
          none (in_store (get_cluster j t p.name p.provider))
    mark_removing force state
    context ← lift (calls.delete force)
    forget force context

  confirmed : Bool → Exec World Unit
  confirmed force = do lift calls.get_log_file; finally remove_directory (delete_all force)

  pub delete_whole_cluster : Bool → Exec World Unit
  unfolding confirmed
  delete_whole_cluster force s =
      if not force && not calls.ask_for_confirmation then (ok tt, s) else confirmed force s
