-- ===== src/Database/Settings/Tests.antt =====
-- The settings of a new database.
use autok3s.Base.{false, [], ◌∷◌, ok, ◌≡◌, refl, if◌then◌else◌, ◌==◌}
use autok3s.Base.Exec.{◌>>=◌, pure, continue}
use autok3s.Cluster.World.{succeeded}
use autok3s.Database.Rows.{where_rows, has_row, row_at, overwrite, save_rows}
use autok3s.Database.Table.{Table, in_memory}
use autok3s.Database.Keyed.{find_one, save_or_create}
use autok3s.Database.Settings.{
  stored, same_name, get_setting, save_setting, set_value, set_blank, set_if_unset, set_all,
}
use autok3s.Database.Settings.Values.{value_at}
use autok3s.Database.Settings.Defaults.{default_of, set_all-fills, set_all-keeps}
use autok3s.Database.Settings.Global.{Global, set, current, current-set}

abbrev table : Table stored same_name
table = in_memory stored same_name

abbrev some_set : table.Db
some_set = record { name = "install-uuid"; value = "u" } ∷ []

abbrev defaults_set : table.Db
defaults_set =
    record { name = "install-uuid"; value = "u" }
    ∷ record { name = "enable-metrics"; value = "promote" }
    ∷ []

fills :
    set_all table (("enable-metrics", "promote") ∷ ("install-uuid", "") ∷ []) some_set
    ≡ (ok tt, defaults_set)
unfolding set_all set_if_unset set_blank set_value save_setting get_setting find_one save_or_create
    where_rows has_row overwrite save_rows pure continue ◌>>=◌
fills = refl

set_all-fills_example : value_at table defaults_set "enable-metrics" ≡ (
    if value_at table some_set "enable-metrics" == ""
    then default_of "enable-metrics" (("enable-metrics", "promote") ∷ ("install-uuid", "") ∷ [])
    else value_at table some_set "enable-metrics")
set_all-fills_example =
    set_all-fills table (("enable-metrics", "promote") ∷ ("install-uuid", "") ∷ []) some_set
      defaults_set fills "enable-metrics"

set_all-keeps_example :
    value_at table (set_all table (("install-uuid", "w") ∷ []) some_set).1 "install-uuid"
    ≡ value_at table some_set "install-uuid"
unfolding row_at
set_all-keeps_example =
    set_all-keeps table (("install-uuid", "w") ∷ []) some_set "install-uuid" refl

abbrev unbound : Global table.Db
unbound = record {
  settings = ("install-uuid", record { name = "install-uuid"; default = "" }) ∷ [];
  bound = false;
  db = [];
}

current-set_example : current table (set table "install-uuid" "w" unbound).1 "install-uuid" ≡ (
    if succeeded (set table "install-uuid" "w" unbound).0
    then (if "install-uuid" == "install-uuid" then "w" else current table unbound "install-uuid")
    else current table unbound "install-uuid")
current-set_example = current-set table "install-uuid" "w" "install-uuid" unbound
