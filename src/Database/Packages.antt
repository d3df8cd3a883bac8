-- ===== src/Database/Packages.antt =====
-- pkg/common/package.go: the packages of the `Store`.
use autok3s.Base.{String, Bool, true, List, [], ◌∷◌, Option, none, some, panic, ◌==◌, ◌<>◌}
use autok3s.Base.Exec.{Exec, pure, ◌>>=◌}
use autok3s.Types.{Package}
use autok3s.Types.Array.{read_back}
use autok3s.Database.Table.{Table}
use autok3s.Database.Keyed.{first}
use autok3s.Database.SshKeys.{not_found}

-- The architectures are a `StringArray`.
abbrev pub written : Package → Package
written p = record p { archs = read_back p.archs }

abbrev pub same_name : Package → Package → Bool
same_name r p = p.name == r.name

abbrev pub is_package : String → Package → Bool
is_package name p = p.name == name

-- The name is not written again (`gorm:"->;<-:create"`).
abbrev pub over_package : Package → Package → Package
over_package new old = record new { name = old.name }

module _ (t : Table written same_name) where
  unfoldable pub list_packages : Option String → Exec t.Db (List Package)
  list_packages none = t.find (λ p. true)
  list_packages (some name) = do pkg ← first t (is_package name); pure (pkg ∷ [])

  -- `Save` without a condition goes by the primary key.
  unfoldable pub save_package : Package → Exec t.Db Unit
  save_package pkg = t.save (is_package pkg.name) (over_package pkg) pkg

  delete_found : List Package → Exec t.Db Unit
  delete_found [] s = (panic, s)
  delete_found (p ∷ ps) s = t.delete (is_package p.name) s

  unfoldable pub delete_package : String → Exec t.Db Unit
  unfolding delete_found
  delete_package name = do
    pkgs ← not_found ("package name " <> name <> " not found") (list_packages (some name))
    delete_found pkgs

  unfoldable pub package_exists : String → Exec t.Db Unit
  package_exists name = do pkgs ← list_packages (some name); pure tt
