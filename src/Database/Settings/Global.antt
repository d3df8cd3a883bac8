-- ===== src/Database/Settings/Global.antt =====
-- pkg/settings/setting.go: the settings of the program, kept in a map until they have a provider.
use autok3s.Base.{
  String, Bool, true, false, List, [], ◌∷◌, Option, none, some, if◌then◌else◌, Result, ok, err,
  panic, ◌==◌, ◌≡◌, refl, ap, ◌∙◌, lookup, put, lookup-put, ap-if,
}
use autok3s.Base.Exec.{Exec}
use autok3s.Cluster.World.{succeeded}
use autok3s.Database.Table.{Table}
use autok3s.Database.Settings.{stored, same_name, set_value, set_all, get_value}
use autok3s.Database.Settings.Values.{value_at, value_at-set}

-- `Setting`, without its description.
pub record Definition : Type 0 where
  pub name : String
  pub default : String

-- `settings`, whether `provider` is set, and the database behind the provider.
pub record Global (Db : Type 0) : Type 0 where
  pub settings : List (String × Definition)
  pub bound : Bool
  pub db : Db

-- `settings[name]`, with Go's zero value for a name that is not there.
abbrev pub definition_of : Option Definition → Definition
definition_of none = record { name = ""; default = "" }
definition_of (some s) = s

abbrev pub definitions : List (String × Definition) → List (String × String)
definitions [] = []
definitions ((key, s) ∷ rest) = (s.name, s.default) ∷ definitions rest

module _ (t : Table stored same_name) where
  unfoldable pub new_setting : String → String → Global t.Db → Global t.Db
  new_setting name default g = record g {
    settings = put name (record { name = name; default = default }) g.settings;
  }

  in_database : {A : Type 0} → Result A × t.Db → Global t.Db → Result A × Global t.Db
  in_database (r, d) g = (r, record g { db = d })

  bind_provider : Result (Unit {0}) × t.Db → Global t.Db → Result (Unit {0}) × Global t.Db
  bind_provider (ok u, d) g = (ok tt, record g { db = d; bound = true })
  bind_provider (err e, d) g = (err e, record g { db = d })
  bind_provider (panic, d) g = (panic, record g { db = d })

  unfoldable pub set_provider : Exec (Global t.Db) Unit
  unfolding bind_provider
  set_provider g = bind_provider (set_all t (definitions g.settings) g.db) g

  unfoldable pub get : String → Exec (Global t.Db) String
  unfolding in_database
  get name g =
      if g.bound
      then in_database (get_value t name g.db) g
      else (ok (definition_of (lookup name g.settings)).default, g)

  unfoldable pub set : String → String → Exec (Global t.Db) Unit
  unfolding in_database
  set name value g = if g.bound then in_database (set_value t name value g.db) g else (
    ok tt,
    record g {
      settings =
          put name (record (definition_of (lookup name g.settings)) { default = value }) g.settings;
    },
  )

  -- The value that stands under a name.
  abbrev pub current : Global t.Db → String → String
  current g n = if g.bound then value_at t g.db n else (definition_of (lookup n g.settings)).default

  set_unbound :
      (name value n : String) (m : List (String × Definition))
      → (definition_of (
          lookup n
            (put name (record (definition_of (lookup name m)) { default = value }) m))).default
        ≡ (if n == name then value else (definition_of (lookup n m)).default)
  set_unbound name value n m =
      ap (λ o. (definition_of o).default) (lookup-put name n _ m)
      ∙ ap-if (λ o. (definition_of o).default) (n == name)
          (some (record (definition_of (lookup name m)) { default = value })) (lookup n m) refl

  Sets : String → String → String → Global t.Db → Type 0
  Sets name value n g = current (set name value g).1 n ≡ (
      if succeeded (set name value g).0
      then (if n == name then value else current g n)
      else current g n)

  by_bound :
      (name value n : String) (m : List (String × Definition)) (b : Bool) (d : t.Db)
      → Sets name value n (record { settings = m; bound = b; db = d })
  unfolding Sets set in_database
  by_bound name value n m true d = value_at-set t name value n d
  by_bound name value n m false d = set_unbound name value n m

  -- `Set` changes the value under its name and no other, with a provider and without one; a failure of
  -- the database leaves them all.
  pub current-set :
      (name value n : String) (g : Global t.Db)
      → current (set name value g).1 n ≡ (
          if succeeded (set name value g).0
          then (if n == name then value else current g n)
          else current g n)
  unfolding Sets
  current-set name value n g = by_bound name value n g.settings g.bound g.db
