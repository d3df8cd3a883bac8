-- ===== src/Providers.antt =====
-- pkg/providers/provider.go: the registry of the providers.
mod Tests
use autok3s.Base.{
  String, List, [], ◌∷◌, Option, none, some, Result, ok, err, ◌<>◌, lookup, put, is_some, map,
}

-- `providers`, with what each factory answers.
abbrev pub Registry : Type 0 → Type 0
Registry P = List (String × Result P)

module _ {P : Type 0} where
  keep_first : Option (Result P) → String → Result P → Registry P → Registry P
  keep_first none name factory ps = put name factory ps
  keep_first (some old) name factory ps = ps

  unfoldable pub register_provider : String → Result P → Registry P → Registry P
  unfolding keep_first
  register_provider name factory ps = keep_first (lookup name ps) name factory ps

  abbrev pub made : String → Option (Result P) → Result P
  made name none = err ("provider " <> name <> " is not registered")
  made name (some factory) = factory

  unfoldable pub get_provider : String → Registry P → Result P
  get_provider name ps = made name (lookup name ps)

  unfoldable pub list_providers : Registry P → List String
  list_providers [] = []
  list_providers ((name, f) ∷ ps) = name ∷ list_providers ps

  -- The registrations of the packages, one after the other.
  unfoldable pub register_all : List (String × Result P) → Registry P → Registry P
  register_all [] ps = ps
  register_all ((name, f) ∷ rest) ps = register_all rest (register_provider name f ps)

  abbrev or_else : Option (Result P) → Option (Result P) → Option (Result P)
  or_else none o = o
  or_else (some f) o = some f
