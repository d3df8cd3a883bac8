-- ===== src/Database/Explorers.antt =====
-- pkg/common/model.go: the kube-explorers of the `Store`, and pkg/common/explorer.go, which starts and
-- stops them.
pub mod Ports
mod Tests
use autok3s.Base.{
  String, Bool, true, false, not, List, [], ◌∷◌, Option, none, some, if◌then◌else◌, Result, ok, err,
  panic, ◌==◌, ◌<>◌, ℕ, contains, delete_key,
}
use autok3s.Base.Exec.{Exec, pure, raise, ◌>>=◌, ◌>>◌}
use autok3s.Database.Table.{Table}
use autok3s.Database.Keyed.{find_one, save_or_create}

pub record Explorer : Type 0 where
  pub context_name : String
  pub enabled : Bool
  pub port : ℕ

abbrev pub written : Explorer → Explorer
written e = e

-- The primary key.
abbrev pub same_context : Explorer → Explorer → Bool
same_context r e = e.context_name == r.context_name

abbrev pub is_explorer : String → Explorer → Bool
is_explorer context_name e = e.context_name == context_name

-- `Omit("context_name")`
abbrev pub over_explorer : Explorer → Explorer → Explorer
over_explorer new old = record new { context_name = old.context_name }

-- The database, and the keys of `ExplorerWatchers`: the processes that were started.
pub record Explorers (Db : Type 0) : Type 0 where
  pub db : Db
  pub watchers : List String

-- `k3dutil.GetFreePort`, and whether the command is there and runs, at the time of the call.
pub record Machine (Db : Type 0) : Type 0 where
  pub get_free_port : Explorers Db → Result ℕ
  pub check_command_exist : Explorers Db → Result (Unit {0})
  pub check_explorer_cmd : Explorers Db → Result (Unit {0})

module _ (t : Table written same_context) where
  unfoldable pub get_explorer : String → Exec t.Db (Option Explorer)
  get_explorer cluster_id = find_one t (is_explorer cluster_id)

  unfoldable pub save_explorer : Explorer → Exec t.Db Unit
  save_explorer exp = do
    found ← get_explorer exp.context_name
    save_or_create t (is_explorer exp.context_name) (over_explorer exp) exp found

  unfoldable pub delete_explorer : String → Exec t.Db Unit
  delete_explorer cluster_id = t.delete (is_explorer cluster_id)

  unfoldable pub list_explorer : Exec t.Db (List Explorer)
  list_explorer = t.find (λ e. true)

  abbrev pub State : Type 0
  State = Explorers t.Db

  abbrev pub on_rows : {A : Type 0} → Exec t.Db A → Exec State A
  on_rows m s = let (r, d) = m s.db in (r, record s { db = d })

  abbrev pub start : String → Exec State Unit
  start config s = (ok tt, record s { watchers = config ∷ s.watchers })

  -- `ExplorerWatchers[config]()` and `delete(ExplorerWatchers, config)`.
  abbrev pub stop : String → Exec State Unit
  stop config s = (ok tt, record s { watchers = delete_key config s.watchers })

  module _ (machine : Machine t.Db) where
    abbrev ask : {A : Type 0} → (State → Result A) → Exec State A
    ask f s = (f s, s)

    abbrev port_of : Option Explorer → Exec State ℕ
    port_of none = ask machine.get_free_port
    port_of (some exp) = pure exp.port

    abbrev is_enabled : Option Explorer → Bool
    is_enabled none = false
    is_enabled (some exp) = exp.enabled

    -- The row saved, with the port that it had.
    write_explorer : String → Bool → Option Explorer → Exec State ℕ
    write_explorer config enabled exp = do
      port ← port_of exp
      on_rows (save_explorer (record { context_name = config; enabled = enabled; port = port }))
      pure port

    enable_stopped : String → Exec State ℕ
    enable_stopped config = do
      ask machine.check_command_exist
      ask machine.check_explorer_cmd
      exp ← on_rows (get_explorer config)
      port ← if is_enabled exp then port_of exp else write_explorer config true exp
      start config
      pure port

    unfoldable pub enable_explorer : String → Exec State ℕ
    unfolding enable_stopped write_explorer
    enable_explorer config s =
        if contains s.watchers config
        then (err ("kube-explorer for cluster " <> config <> " has already started"), s)
        else enable_stopped config s

    abbrev is_disabled : Option Explorer → Bool
    is_disabled none = false
    is_disabled (some exp) = not exp.enabled

    disable_running : String → Exec State Unit
    disable_running config = do
      exp ← on_rows (get_explorer config)
      port ← if is_disabled exp then port_of exp else write_explorer config false exp
      stop config

    unfoldable pub disable_explorer : String → Exec State Unit
    unfolding disable_running write_explorer
    disable_explorer config s =
        if contains s.watchers config
        then disable_running config s
        else (err ("cann't disable unactive kube-explorer for cluster " <> config), s)
