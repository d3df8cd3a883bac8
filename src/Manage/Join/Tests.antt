-- ===== src/Manage/Join/Tests.antt =====
-- A joining fails.
use autok3s.Base.{true, false, [], ◌∷◌, none, some, panic, ◌≡◌, refl}
use autok3s.Base.Exec.{◌>>=◌, continue, pure, crash}
use autok3s.Database.Store.{on_db}
use autok3s.Database.Clusters.{get_cluster}
use autok3s.Cluster.Lifecycle as Lifecycle
use autok3s.Database.Rows.{row_at, where_rows}
use autok3s.Database.ClusterState.{written}
use autok3s.Database.Clusters.Refinement.{view}
use autok3s.Manage.Sample.{codec, table, table_answers, native, row}
use autok3s.Manage.Join.{Joining, finish_join, finish_found, read_row}
use autok3s.Manage.Join.Failed.{running_joined, finish_join-row}

abbrev answers : Lifecycle.Answers
answers = record { get_fails = none; save_fails = none; rollback = none; readable = true }

abbrev site : Lifecycle.Site
site = record {
  m = [];
  err_m = ("w2", "unreachable") ∷ [];
  row = none;
  rolled_back = [];
  context = true;
}

abbrev gone : Joining table.Db
gone = record { store = record { db = []; log = [] }; site = site }

abbrev there : Joining table.Db
there = record { store = record { db = row ∷ []; log = [] }; site = site }

-- The code panics in place of an error if the row has gone.
no_row : (finish_join native "" answers codec table true gone).0 ≡ panic
unfolding finish_join read_row finish_found crash get_cluster on_db where_rows ◌>>=◌ continue pure
no_row = refl

finish_join-row_example :
    view codec table (finish_join native "" answers codec table false there).1.store "demo" "native"
    ≡ some (written (running_joined codec site.err_m row))
unfolding row_at
finish_join-row_example =
    finish_join-row native "" answers codec table table_answers false there row refl refl
