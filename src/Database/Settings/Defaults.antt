-- ===== src/Database/Settings/Defaults.antt =====
-- What `SetAll` makes of the values.
use autok3s.Base.{
  String, true, ◌&&◌, List, [], ◌∷◌, if◌then◌else◌, ok, ◌==◌, ◌≡◌, refl, sym, ap, ◌∙◌, arith,
  is_set, eq_iff,
}
use autok3s.Base.Exec.{pure, >>=-cases, >>=-eq-ok}
use autok3s.Cluster.World.{succeeded}
use autok3s.Database.Table.{Table}
use autok3s.Database.Settings.{stored, same_name, set_if_unset, set_all}
use autok3s.Database.Settings.Values.{value_at, value_at-set_if_unset}

-- The default of a name, blank for a name that is no setting's.
unfoldable pub default_of : String → List (String × String) → String
default_of n [] = ""
default_of n ((name, value) ∷ rest) =
    let later = default_of n rest in if n == name && is_set value then value else later

module _ (t : Table stored same_name) where
  set_if_unset-ok :
      (name value : String) (n : String) (d d' : t.Db) {x : Unit {0}}
      → set_if_unset t name value d ≡ (ok x, d')
      → value_at t d' n ≡ (
          if n == name
          then (if value_at t d n == "" then value else value_at t d n)
          else value_at t d n)
  set_if_unset-ok name value n d d' e =
      ap (λ y. value_at t y.1 n) (sym e)
      ∙ value_at-set_if_unset t name value n d
      ∙ ap
          (λ y.
            if succeeded y.0
            then (if n == name
                then (if value_at t d n == "" then value else value_at t d n)
                else value_at t d n)
            else value_at t d n)
          e

  -- If `SetAll` succeeds, each blank value has become its default, and every other is as it was.
  pub set_all-fills :
      (ss : List (String × String)) (d u : t.Db)
      → set_all t ss d ≡ (ok tt, u)
      → (n : String)
      → value_at t u n ≡ (if value_at t d n == "" then default_of n ss else value_at t d n)
  unfolding set_all default_of pure
  set_all-fills [] d u h n =
      ap (λ x. value_at t x.1 n) (sym h) ∙ ground (arith, eq_iff (value_at t d n) "")
  set_all-fills ((name, value) ∷ rest) d u h n =
      let (x, d', e, k) = >>=-eq-ok (set_if_unset t name value) (λ x. set_all t rest) d h in
      ground (
        arith,
        set_if_unset-ok name value n d d' e,
        set_all-fills rest d' u k n,
        eq_iff (value_at t d n) "",
        eq_iff (value_at t d' n) "",
        eq_iff value "",
      )

  set_if_unset-keeps :
      (name value : String) (n : String) (d : t.Db)
      → is_set (value_at t d n) ≡ true
      → value_at t (set_if_unset t name value d).1 n ≡ value_at t d n
  set_if_unset-keeps name value n d h = ground (arith, value_at-set_if_unset t name value n d)

  -- A value that is not blank stays, wherever `SetAll` stops.
  pub set_all-keeps :
      (ss : List (String × String)) (d : t.Db) (n : String)
      → is_set (value_at t d n) ≡ true
      → value_at t (set_all t ss d).1 n ≡ value_at t d n
  unfolding set_all pure
  set_all-keeps [] d n h = refl
  set_all-keeps ((name, value) ∷ rest) d n h =
      let kept = set_if_unset-keeps name value n d h in
      >>=-cases (λ x. value_at t x.1 n ≡ value_at t d n) (set_if_unset t name value)
        (λ x. set_all t rest) d
        (λ x e. set_all-keeps rest (set_if_unset t name value d).1 n (ap is_set kept ∙ h) ∙ kept)
        (λ x e. kept) (λ e. kept)
