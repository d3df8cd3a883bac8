-- ===== src/Database/Addons.antt =====
-- pkg/common/addon.go: the add-ons of the `Store`.
use autok3s.Base.{String, Bool, true, List, [], ◌==◌}
use autok3s.Base.Exec.{Exec, ◌>>=◌, ◌>>◌}
use autok3s.Database.Table.{Table}
use autok3s.Database.Keyed.{first, if_any, save_or_create}
use autok3s.Database.Store.{Store, ApiObject, broadcast, remove_api_event, on_db, effect}

pub record Addon : Type 0 where
  pub name : String
  pub description : String
  pub manifest : String
  pub values : List (String × String)

abbrev pub written : Addon → Addon
written a = a

abbrev pub same_name : Addon → Addon → Bool
same_name r a = a.name == r.name

abbrev pub is_addon : String → Addon → Bool
is_addon name a = a.name == name

-- `Omit("name")`
abbrev pub over_addon : Addon → Addon → Addon
over_addon new old = record new { name = old.name }

-- The object of the event: an add-on with its name alone.
abbrev pub addon_object : String → ApiObject Addon
addon_object name = record {
  type_name = "addon";
  id = name;
  object = record { name = name; description = ""; manifest = ""; values = [] };
}

module _ (t : Table written same_name) where
  abbrev pub Db : Type 0
  Db = Store t.Db Addon

  unfoldable pub get_addon : String → Exec Db Addon
  get_addon name = on_db (first t (is_addon name))

  unfoldable pub save_addon : Addon → Exec Db Unit
  save_addon addon = do
    found ← if_any (get_addon addon.name)
    on_db (save_or_create t (is_addon addon.name) (over_addon addon) addon found)

  unfoldable pub list_addon : Exec Db (List Addon)
  list_addon = on_db (t.find (λ a. true))

  unfoldable pub delete_addon : String → Exec Db Unit
  delete_addon name = do
    found ← get_addon name
    on_db (t.delete (is_addon name))
    effect (broadcast remove_api_event (addon_object name))
