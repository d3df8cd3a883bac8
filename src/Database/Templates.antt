-- ===== src/Database/Templates.antt =====
-- pkg/common/model.go: the templates of the `Store`.
pub mod Missing
mod Tests
use autok3s.Base.{
  String, Bool, true, false, ◌&&◌, List, [], ◌∷◌, Option, none, some, Result, ok, err, panic, ◌==◌,
}
use autok3s.Base.Exec.{Exec, pure, crash, ◌>>=◌, ◌>>◌}
use autok3s.Types.{Metadata, Ssh}
use autok3s.Database.Table.{Table}
use autok3s.Database.Keyed.{find_one}
use autok3s.Database.Store.{
  Store, ApiObject, Effect, broadcast, remove_api_event, inc, dec, on_db, effect,
  get_labels_from_meta,
}

pub record Template : Type 0 where
  pub metadata : Metadata
  pub open metadata use *
  pub options : String
  pub ssh : Ssh
  pub is_default : Bool

-- All but the columns of `SSH` that are marked `gorm:"-:all"`.
unfoldable pub written : Template → Template
written x = record x { ssh = record x.ssh { ssh_key = ""; ssh_cert = "" } }

abbrev pub is_template : String → String → Template → Bool
is_template name provider x = x.name == name && x.provider == provider

-- The table's `unique (name, provider)`.
abbrev pub same_key : Template → Template → Bool
same_key r x = is_template r.name r.provider x

-- `Omit("name", "provider", "context_name")`
abbrev pub over_template : Template → Template → Template
over_template new old = record new {
  metadata = record new.metadata {
    name = old.name;
    provider = old.provider;
    context_name = old.context_name;
  };
}

module _ (get_provider_options : String → String → Result String) where
  -- The options as the provider reads them, and none if it cannot.
  abbrev with_options : Template → Result String → Template
  with_options x (ok opt) = record x { options = opt }
  with_options x (err e) = record x { options = "" }
  with_options x panic = record x { options = "" }

  unfoldable pub to_template : Template → Template
  to_template x = with_options x (get_provider_options x.provider x.options)

  -- `ToAPIObject`
  unfoldable pub template_object : Template → ApiObject Template
  template_object x = record {
    type_name = "clusterTemplate";
    id = x.context_name;
    object = to_template x;
  }

  module _ (uuid : String) (t : Table written same_key) where
    abbrev pub Db : Type 0
    Db = Store t.Db Template

    unfoldable pub get_template : String → String → Exec Db (Option Template)
    get_template name provider = on_db (find_one t (is_template name provider))

    unfoldable pub create_template : Template → Exec Db Unit
    create_template x = do on_db (t.create x); effect (inc (get_labels_from_meta uuid x.metadata))

    unfoldable pub update_template : Template → Exec Db Unit
    update_template x = on_db (t.save (is_template x.name x.provider) (over_template x) x)

    unfoldable pub list_templates : Exec Db (List Template)
    list_templates = on_db (t.find (λ x. true))

    -- The object of a template that was not found is a nil pointer's.
    announce : Option Template → Exec Db Unit
    announce none = crash
    announce (some x) = do
      effect (broadcast remove_api_event (template_object x))
      effect (dec (get_labels_from_meta uuid x.metadata))

    unfoldable pub delete_template : String → String → Exec Db Unit
    unfolding announce
    delete_template name provider = do
      found ← get_template name provider
      on_db (t.delete (is_template name provider))
      announce found
