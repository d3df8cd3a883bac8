-- ===== src/Airgap/Disk.antt =====
-- The directory of one package on disk, its row in the database, and what lies outside the program:
-- the mirror that files are fetched from, sha256, cancellation, and whether the database takes a row.
-- Failures of the local file system are not modelled.
use autok3s.Base.{
  String, Bool, List, [], ◌∷◌, ◌++◌, Option, none, some, map, if◌then◌else◌, contains, sort, lookup,
  put, remove, Result, ok, err, ℕ, is_some,
}
use autok3s.Base.Exec.{Exec, modify}
use autok3s.Types.{Package}
use autok3s.Airgap.Archs.{Version, validated_arch}

abbrev pub Files : Type 0
Files = List (String × String)

-- What `os.Lstat` finds at the package's path.
pub data Place : Type 0 where
  absent file dir : Place

-- `version_file` is what `version.json` decodes to: `none` if it is missing or is no version. `done`
-- is the file `.done`. `dirs` has the files of each architecture by name. `pkg` is the downloader's
-- copy of the package, `row` the one in the database.
pub record Disk : Type 0 where
  pub place : Place
  pub version_file : Option Version
  pub done : Bool
  pub dirs : List (String × Files)
  pub pkg : Package
  pub row : Option Package
  pub image_list_content : String

-- The answer to a GET.
pub data Fetch : Type 0 where
  body : String → Fetch
  canceled : Fetch
  failed : String → Fetch

pub record Outside : Type 0 where
  pub image_list : Result String
  pub head : String → Bool
  pub get : String → Fetch
  -- the context has an error when the loop of `downloadPackage` comes to its n-th entry
  pub is_canceled : ℕ → Bool
  pub save : Package → Bool
  pub sha256 : String → String
  pub package_path : String

abbrev pub files_of : String → List (String × Files) → Files
files_of arch dirs = elim (lookup arch dirs) [ none ↦ [] | some fs ↦ fs ]

-- `isDone` of an architecture.
abbrev pub arch_done : String → List (String × Files) → Bool
arch_done arch dirs = is_some (lookup ".done" (files_of arch dirs))

unfoldable pub write_file : String → String → String → Exec Disk Unit
unfolding modify
write_file arch name content =
    modify (λ d. record d { dirs = put arch (put name content (files_of arch d.dirs)) d.dirs })

-- `os.MkdirAll`.
unfoldable pub make_dir : String → Exec Disk Unit
unfolding modify
make_dir arch = modify (λ d. record d { dirs = put arch (files_of arch d.dirs) d.dirs })

-- `os.RemoveAll`.
unfoldable pub remove_dir : String → Exec Disk Unit
unfolding modify
remove_dir arch = modify (λ d. record d { dirs = remove arch d.dirs })

-- `updatePackageState`, which sets the state of the downloader's copy before it saves it.
unfoldable pub update_package_state : Outside → String → Exec Disk Unit
update_package_state o state d =
    let p = record d.pkg { state = state } in
    if o.save p
    then (ok tt, record d { pkg = p; row = some p })
    else (err "failed to save package", record d { pkg = p })

abbrev names : List (String × Files) → List String
names dirs = map (λ e. e.0) dirs

unfoldable pub valid_names : List String → List String
valid_names [] = []
valid_names (n ∷ ns) =
    let rest = valid_names ns in if contains validated_arch n then n ∷ rest else rest

-- The validated directories that `ioutil.ReadDir` lists, in its order.
unfoldable pub arch_dirs : Disk → List String
unfolding valid_names
arch_dirs d = valid_names (sort (names d.dirs))

-- The branch of `versionAndBasePath` for a directory.
unfoldable pub found_version : Disk → Option Version
found_version d = elim d.version_file [
  | none ↦ some (record { version = ""; archs = arch_dirs d })
  | some v ↦ if d.done then some v else some (record v { archs = v.archs ++ arch_dirs d })
]

unfoldable pub version_and_base_path : Exec Disk (Option Version)
unfolding found_version
version_and_base_path d = elim d.place [
  | absent ↦ (ok none, record d { place = dir })
  | file ↦ (err "package path must be a directory", d)
  | dir ↦ (ok (found_version d), d)
]
