-- ===== src/Database/Settings.antt =====
-- pkg/common/model.go: the settings of the `Store`, and pkg/common/setting_provider.go: the provider of
-- settings over them.
pub mod Values
mod Tests
pub mod Global
pub mod Defaults
use autok3s.Base.{
  String, Bool, true, false, List, [], ◌∷◌, Option, none, some, if◌then◌else◌, Result, ok, err,
  panic, ◌==◌,
}
use autok3s.Base.Exec.{Exec, pure, ◌>>=◌, ◌>>◌}
use autok3s.Database.Table.{Table}
use autok3s.Database.Keyed.{find_one, save_or_create}

pub record Setting : Type 0 where
  pub name : String
  pub value : String

abbrev pub stored : Setting → Setting
stored s = s

-- The primary key.
abbrev pub same_name : Setting → Setting → Bool
same_name r s = s.name == r.name

abbrev pub is_setting : String → Setting → Bool
is_setting name s = s.name == name

-- `Omit("name")`
abbrev pub over_setting : Setting → Setting → Setting
over_setting new old = record new { name = old.name }

module _ (t : Table stored same_name) where
  unfoldable pub get_setting : String → Exec t.Db (Option Setting)
  get_setting name = find_one t (is_setting name)

  unfoldable pub save_setting : Setting → Exec t.Db Unit
  unfolding get_setting
  save_setting s = do
    found ← get_setting s.name
    save_or_create t (is_setting s.name) (over_setting s) s found

  unfoldable pub list_settings : Exec t.Db (List Setting)
  list_settings = t.find (λ s. true)

  abbrev pub value_of : Option Setting → String
  value_of none = ""
  value_of (some s) = s.value

  value_or_blank : Result (Option Setting) × t.Db → Result String × t.Db
  value_or_blank (ok found, d) = (ok (value_of found), d)
  value_or_blank (err e, d) = (ok "", d)
  value_or_blank (panic, d) = (panic, d)

  -- `Get`: an error is logged, and the value is blank.
  unfoldable pub get_value : String → Exec t.Db String
  unfolding value_or_blank
  get_value name d = value_or_blank (get_setting name d)

  unfoldable pub set_value : String → String → Exec t.Db Unit
  set_value name value = save_setting (record { name = name; value = value })

  set_blank : String → String → Option Setting → Exec t.Db Unit
  set_blank name value found = if value_of found == "" then set_value name value else pure tt

  unfoldable pub set_if_unset : String → String → Exec t.Db Unit
  unfolding set_blank
  set_if_unset name value = do found ← get_setting name; set_blank name value found

  -- `SetAll` of names with defaults, in the order in which the map is walked.
  unfoldable pub set_all : List (String × String) → Exec t.Db Unit
  set_all [] = pure tt
  set_all ((name, default) ∷ rest) = do set_if_unset name default; set_all rest
