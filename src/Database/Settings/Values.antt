-- ===== src/Database/Settings/Values.antt =====
-- The value under each name, after the methods on settings.
use autok3s.Base.{
  ap-if, String, Bool, true, false, List, Option, none, some, if◌then◌else◌, ok, ◌==◌, eq_iff, ◌≡◌,
  refl, ap, ◌∙◌, arith,
}
use autok3s.Base.Exec.{pure, >>=-cases}
use autok3s.Cluster.World.{succeeded}
use autok3s.Database.Rows.{row_at, save_rows}
use autok3s.Database.NameKey.{row_at-saved}
use autok3s.Database.Table.{Table}
use autok3s.Database.Keyed.{
  Writes, find_one, find_one-kept, find_one-found, save_or_create, save_or_create-Writes,
  then-Writes,
}
use autok3s.Database.Settings.{
  Setting, stored, same_name, is_setting, over_setting, get_setting, save_setting, value_of,
  set_value, set_if_unset, set_blank,
}

module _ (t : Table stored same_name) where
  -- What stands under a name, blank without a row.
  abbrev pub value_at : t.Db → String → String
  value_at d n = value_of t (row_at (is_setting n) (t.rows d))

  save_setting-Writes :
      (s : Setting) (d : t.Db)
      → Writes t (save_rows (is_setting s.name) (over_setting s) s) d (save_setting t s d)
  unfolding save_setting get_setting
  save_setting-Writes s d =
      then-Writes t (is_setting s.name) (save_rows (is_setting s.name) (over_setting s) s)
        (find_one t (is_setting s.name)) (save_or_create t (is_setting s.name) (over_setting s) s) d
        (find_one-kept t (is_setting s.name) d)
        (λ found.
          save_or_create-Writes t (is_setting s.name) (over_setting s) s found
            (find_one t (is_setting s.name) d).1 (λ x. refl))

  overwritten :
      (s : Setting) (b : Bool) (old other : Option Setting)
      → value_of t (if b then some (elim old [ none ↦ s | some x ↦ over_setting s x ]) else other)
        ≡ (if b then s.value else value_of t other)
  overwritten s true none other = refl
  overwritten s true (some x) other = refl
  overwritten s false old other = refl

  value_after :
      (s : Setting) (n : String) (rs : List Setting)
      → value_of t (row_at (is_setting n) (save_rows (is_setting s.name) (over_setting s) s rs))
        ≡ (if n == s.name then s.value else value_of t (row_at (is_setting n) rs))
  value_after s n rs =
      ap (value_of t) (row_at-saved (λ x. x.name) (over_setting s) (λ x. refl) s rs n)
      ∙ overwritten s (n == s.name) (row_at (is_setting n) rs) (row_at (is_setting n) rs)

  pub value_at-set :
      (name value : String) (n : String) (d : t.Db)
      → value_at (set_value t name value d).1 n ≡ (
          if succeeded (set_value t name value d).0
          then (if n == name then value else value_at d n)
          else value_at d n)
  unfolding set_value
  value_at-set name value n d =
      let s : Setting = record { name = name; value = value } in
      ap (λ rs. value_of t (row_at (is_setting n) rs)) (save_setting-Writes s d)
      ∙ ap-if (λ rs. value_of t (row_at (is_setting n) rs)) (succeeded (save_setting t s d).0)
          (save_rows (is_setting name) (over_setting s) s (t.rows d)) (t.rows d)
          (value_after s n (t.rows d))

  get_setting-kept : (name : String) (d : t.Db) → t.rows (get_setting t name d).1 ≡ t.rows d
  unfolding get_setting
  get_setting-kept name d = find_one-kept t (is_setting name) d

  get_setting-found :
      (name : String) (d : t.Db) {found : Option Setting}
      → (get_setting t name d).0 ≡ ok found
      → found ≡ row_at (is_setting name) (t.rows d)
  unfolding get_setting
  get_setting-found name d e = find_one-found t (is_setting name) d e

  blank_after :
      (name value : String) (n : String) (d d' : t.Db)
      → t.rows d' ≡ t.rows d
      → (b : Bool) → b ≡ (value_at d name == "")
      → let x = (if b then set_value t name value else pure tt) d' in
        value_at x.1 n ≡ (
          if succeeded x.0
          then (if n == name
              then (if value_at d n == "" then value else value_at d n)
              else value_at d n)
          else value_at d n)
  unfolding pure
  blank_after name value n d d' kept true h = ground (
    arith,
    eq_iff n name,
    value_at-set name value n d',
    ap (λ rs. value_of t (row_at (is_setting n) rs)) kept,
    λ (e : n ≡ name). ap (value_at d) e,
  )
  blank_after name value n d d' kept false h = ground (
    arith,
    eq_iff n name,
    ap (λ rs. value_of t (row_at (is_setting n) rs)) kept,
    λ (e : n ≡ name). ap (value_at d) e,
  )

  -- What `SetIfUnset` leaves under a name: it fills in a blank.
  pub value_at-set_if_unset :
      (name value : String) (n : String) (d : t.Db)
      → value_at (set_if_unset t name value d).1 n ≡ (
          if succeeded (set_if_unset t name value d).0
          then (if n == name
              then (if value_at d n == "" then value else value_at d n)
              else value_at d n)
          else value_at d n)
  unfolding set_if_unset set_blank
  value_at-set_if_unset name value n d =
      >>=-cases
        (λ x. value_at x.1 n ≡ (
          if succeeded x.0
          then (if n == name
              then (if value_at d n == "" then value else value_at d n)
              else value_at d n)
          else value_at d n))
        (get_setting t name) (set_blank t name value) d
        (λ found e.
          blank_after name value n d (get_setting t name d).1 (get_setting-kept name d)
            (value_of t found == "")
            (ap (λ v. v == "") (ap (value_of t) (get_setting-found name d e))))
        (λ x e. ap (λ rs. value_of t (row_at (is_setting n) rs)) (get_setting-kept name d))
        (λ e. ap (λ rs. value_of t (row_at (is_setting n) rs)) (get_setting-kept name d))
