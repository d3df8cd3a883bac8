-- ===== src/Database/Templates/Missing.antt =====
-- `DeleteTemplate` of a template that is not there.
use autok3s.Base.{String, false, Option, none, some, Result, ◌≡◌, refl, ◌∙◌, arith}
use autok3s.Base.Exec.{Exec, crash, ◌>>◌, >>=-cases}
use autok3s.Cluster.World.{succeeded}
use autok3s.Database.Rows.{row_at}
use autok3s.Database.Table.{Table}
use autok3s.Database.Keyed.{find_one-found}
use autok3s.Database.Store.{on_db}
use autok3s.Database.Templates.{
  Template, written, same_key, is_template, Db, get_template, delete_template, announce,
}

module _ (get_provider_options : String → String → Result String) (uuid : String)
    (t : Table written same_key) where
  crashes :
      {A : Type 0} (m : Exec (Db get_provider_options uuid t) A) (found : Option Template)
      → found ≡ none
      → (s : Db get_provider_options uuid t)
      → succeeded ((m >> announce get_provider_options uuid t found) s).0 ≡ false
  unfolding announce crash
  crashes m none h s =
      >>=-cases (λ x. succeeded x.0 ≡ false) m _ s (λ a e. refl) (λ x e. refl) (λ e. refl)
  crashes m (some x) h s = ground arith

  -- The deletion of a template that is not there never returns without an error: it panics where the
  -- database has no error to return.
  pub delete_template-missing :
      (name provider : String) (s : Db get_provider_options uuid t)
      → row_at (is_template name provider) (t.rows s.db) ≡ none
      → succeeded (delete_template get_provider_options uuid t name provider s).0 ≡ false
  unfolding delete_template get_template on_db
  delete_template-missing name provider s h =
      let p = is_template name provider in
      >>=-cases (λ x. succeeded x.0 ≡ false)
        (get_template get_provider_options uuid t name provider) _ s
        (λ found e.
          crashes (on_db (t.delete p)) found (find_one-found t p s.db e ∙ h)
            (get_template get_provider_options uuid t name provider s).1)
        (λ x e. refl) (λ e. refl)
