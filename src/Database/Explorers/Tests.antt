-- ===== src/Database/Explorers/Tests.antt =====
-- A kube-explorer is started and stopped.
use autok3s.Base.{true, false, [], ◌∷◌, ok, ◌≡◌, refl, ℕ, contains, delete_key, some}
use autok3s.Base.Exec.{◌>>=◌, pure, continue}
use autok3s.Database.Rows.{where_rows, has_row, overwrite, save_rows}
use autok3s.Database.Table.{Table, in_memory}
use autok3s.Database.Keyed.{find_one, save_or_create}
use autok3s.Database.Explorers.{
  written, same_context, Machine, State, enable_explorer, disable_explorer, enable_stopped,
  disable_running, write_explorer, get_explorer, save_explorer,
}
use autok3s.Database.Explorers.Ports.{enable_explorer-row, disable_explorer-row, row_of}

abbrev table : Table written same_context
table = in_memory written same_context

abbrev machine : Machine table.Db
machine = record {
  get_free_port = λ s. ok 40000;
  check_command_exist = λ s. ok tt;
  check_explorer_cmd = λ s. ok tt;
}

abbrev before : State table
before = record { db = []; watchers = [] }

abbrev running : State table
running = record {
  db = record { context_name = "c"; enabled = true; port = 40000 } ∷ [];
  watchers = "c" ∷ [];
}

abbrev stopped : State table
stopped = record {
  db = record { context_name = "c"; enabled = false; port = 40000 } ∷ [];
  watchers = [];
}

starts : enable_explorer table machine "c" before ≡ (ok 40000, running)
unfolding enable_explorer enable_stopped write_explorer get_explorer save_explorer find_one
    save_or_create where_rows contains ◌>>=◌ pure continue has_row
starts = refl

stops : disable_explorer table machine "c" running ≡ (ok tt, stopped)
unfolding disable_explorer disable_running write_explorer get_explorer save_explorer find_one
    save_or_create where_rows contains ◌>>=◌ pure continue overwrite save_rows has_row delete_key
stops = refl

enable_explorer-row_example :
    (contains [] "c" ≡ false)
    × (running.watchers ≡ "c" ∷ [])
    × (row_of table running "c"
        ≡ some (record { context_name = "c"; enabled = true; port = 40000 }))
enable_explorer-row_example = enable_explorer-row table machine "c" before running starts

disable_explorer-row_example :
    (contains ("c" ∷ []) "c" ≡ true)
    × (stopped.watchers ≡ delete_key "c" ("c" ∷ []))
    × (port : ℕ) × (row_of table stopped "c"
        ≡ some (record { context_name = "c"; enabled = false; port = port }))
disable_explorer-row_example = disable_explorer-row table machine "c" running stopped stops
