-- ===== src/Manage/Merge/Tests.antt =====
-- A command that gives only a version, and the script of a row.
use autok3s.Base.{[], ◌∷◌, ok, ◌≡◌, refl}
use autok3s.Database.Rows.{row_at}
use autok3s.Manage.Sample.{codec, table, table_answers, native, row}
use autok3s.Manage.Merge.{Merging, merge_config, overwrite_metadata}
use autok3s.Manage.Merge.Twice.{with_row_base, merge_config-with_row}

abbrev before : Merging table.Db
before = record { store = record { db = row ∷ []; log = [] }; base = native }

merge_config-with_row_example :
    let x = merge_config codec table (λ text. ok []) before in
    let y = merge_config codec table (λ text. ok []) x.1 in
    (x.0 ≡ ok row.options)
    × (x.1.base ≡ with_row_base row [] [] native)
    × (y.0 ≡ x.0)
    × (y.1.base ≡ x.1.base)
unfolding row_at
merge_config-with_row_example =
    merge_config-with_row codec table table_answers (λ text. ok []) row before refl refl refl

-- The script of a command is lost, its version is not.
old_script :
    (overwrite_metadata
      (record row { metadata = record row.metadata { install_script = "old" } })
      (record native.metadata { install_script = "new" })).install_script
    ≡ "old"
unfolding overwrite_metadata
old_script = refl

new_version :
    (overwrite_metadata row (record native.metadata { k3s_version = "v2" })).k3s_version ≡ "v2"
unfolding overwrite_metadata
new_version = refl
