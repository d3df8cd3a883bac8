-- ===== src/Database/Templates/Tests.antt =====
-- A template that is not there.
use autok3s.Base.{String, false, [], ok, panic, Result, ◌≡◌, refl}
use autok3s.Base.Exec.{◌>>=◌, pure, crash, continue}
use autok3s.Cluster.World.{succeeded}
use autok3s.Database.Rows.{where_rows, row_at, delete_rows}
use autok3s.Database.Table.{Table, in_memory}
use autok3s.Database.Keyed.{find_one}
use autok3s.Database.Store.{on_db}
use autok3s.Database.Templates.{written, same_key, Db, get_template, delete_template, announce}
use autok3s.Database.Templates.Missing.{delete_template-missing}

abbrev table : Table written same_key
table = in_memory written same_key

abbrev options : String → String → Result String
options provider text = ok text

abbrev before : Db options "u" table
before = record { db = []; log = [] }

panics : (delete_template options "u" table "t" "native" before).0 ≡ panic
unfolding delete_template get_template announce find_one on_db where_rows delete_rows ◌>>=◌ pure
    crash continue
panics = refl

delete_template-missing_example :
    succeeded (delete_template options "u" table "t" "native" before).0 ≡ false
unfolding row_at
delete_template-missing_example = delete_template-missing options "u" table "t" "native" before refl
