-- ===== src/Airgap/Verify.antt =====
-- pkg/airgap/utils.go: checking the files of a package against the checksums that came with them.
use mathlib.Core.Option
use autok3s.Base.{
  String, ◌&&◌, List, [], ◌∷◌, Option, none, some, ◌==◌, ◌<>◌, if◌then◌else◌, lookup, put, split,
  is_set, Result, ok, err, panic, same_code, code,
}
use autok3s.Base.Exec.{Exec, ◌>>=◌}
use autok3s.Types.{Package}
use autok3s.Airgap.Archs.{Version}
use autok3s.Airgap.Disk.{Files, Disk, Outside, files_of, arch_done, version_and_base_path}

abbrev pub checksum_base_name : String
checksum_base_name = "sha256sum"

-- `resourceSuffixes`, in one of the orders that Go may walk it.
abbrev pub Resources : Type 0
Resources = List (String × List String)

abbrev pub resource_suffixes : Resources
resource_suffixes =
    ("k3s", "" ∷ [])
    ∷ ("k3s-airgap-images", ".tar.gz" ∷ ".tar" ∷ [])
    ∷ (checksum_base_name, ".txt" ∷ [])
    ∷ []

-- The value that `getSuffixMapWithArchs` gives to a suffix.
unfoldable pub arch_suffix : String → String → String → String
arch_suffix arch base_name suffix =
    if base_name == "k3s" && arch == "amd64"
    then suffix
    else if base_name == "k3s" && arch == "arm"
    then "-armhf" <> suffix
    else "-" <> (arch <> suffix)

unfoldable pub drop_spaces : String → String
drop_spaces String.[] = String.[]
drop_spaces (String.◌∷◌ c s) =
    let rest = drop_spaces s in if same_code (code c) b' ' then rest else String.◌∷◌ c s

-- `separator.Split(line, 2)`, at the first run of spaces: `none` if there is no space.
unfoldable pub cut_line : String → Option (String × String)
unfolding drop_spaces
cut_line String.[] = none
cut_line (String.◌∷◌ c s) =
    let rest = Option.map (λ (p : String × String). (String.◌∷◌ c p.0, p.1)) (cut_line s) in
    if same_code (code c) b' ' then some (String.[], drop_spaces s) else rest

-- `filepath.Base`.
unfoldable pub last_set : List String → String → String
last_set [] found = found
last_set (p ∷ ps) found = last_set ps (if is_set p then p else found)

unfoldable pub file_base : String → String
unfolding last_set
file_base s = if s == "" then "." else last_set (split s b'/') "/"

unfoldable pub strip_return : String → String
strip_return String.[] = String.[]
strip_return (String.◌∷◌ c s) =
    let rest = strip_return s in
    if same_code (code c) 13 && s == "" then String.[] else String.◌∷◌ c rest

-- The lines that `ReadLine` gives before `io.EOF`.
unfoldable pub lines : List String → List String
lines [] = []
lines (l ∷ []) = if l == "" then [] else strip_return l ∷ []
lines (l ∷ m ∷ ls) = strip_return l ∷ lines (m ∷ ls)

-- `arr[1]` of a line with no space is out of range.
unfoldable pub hash_map : List String → Files → Result Files
unfolding cut_line file_base
hash_map [] m = ok m
hash_map (l ∷ ls) m = elim (cut_line l) [
  | none ↦ panic
  | some (sum, path) ↦ hash_map ls (put (file_base path) sum m)
]

unfoldable pub get_hash_map : String → Result Files
unfolding hash_map lines strip_return
get_hash_map content = hash_map (lines (split content b'\n')) []

-- The value of a missing key is the empty string.
abbrev pub hash_of : String → Files → String
hash_of name m = elim (lookup name m) [ none ↦ "" | some h ↦ h ]

module _ (o : Outside) where
  -- The inner loop of `verifyArchFiles`: the first file that exists decides.
  unfoldable pub verify_resource : String → String → Files → Files → List String → Result (Unit {0})
  verify_resource arch base files sums [] = err "resource check fail"
  verify_resource arch base files sums (origin ∷ suffixes) =
      let rest = verify_resource arch base files sums suffixes in
      elim (lookup (base <> origin) files) [
        | none ↦ rest
        | some content ↦
            if o.sha256 content == hash_of (base <> arch_suffix arch base origin) sums
            then ok tt
            else err "checksum mismatch"
      ]

  unfoldable pub verify_resources : String → Files → Files → Resources → Result (Unit {0})
  verify_resources arch files sums [] = ok tt
  verify_resources arch files sums ((base, suffixes) ∷ rs) =
      let rest = verify_resources arch files sums rs in
      if base == checksum_base_name
      then rest
      else elim (verify_resource arch base files sums suffixes) [
        | ok _ ↦ rest
        | err e ↦ err e
        | panic ↦ panic
      ]

  unfoldable pub verify_arch_files : Resources → String → Files → Result (Unit {0})
  verify_arch_files rs arch files = elim (lookup "sha256sum.txt" files) [
    | none ↦ err "failed to get file hash map"
    | some content ↦ elim (get_hash_map content) [
      | ok sums ↦ verify_resources arch files sums rs
      | err e ↦ err e
      | panic ↦ panic
    ]
  ]

  -- The loop of `VerifyFiles`.
  unfoldable pub verify_archs : Resources → List (String × Files) → List String → Result (Unit {0})
  verify_archs rs dirs [] = ok tt
  verify_archs rs dirs (arch ∷ archs) =
      let rest = verify_archs rs dirs archs in
      if arch_done arch dirs
      then (elim (verify_arch_files rs arch (files_of arch dirs)) [
        | ok _ ↦ rest
        | err e ↦ err e
        | panic ↦ panic
      ])
      else err "resources aren't available"

  -- `VerifyFiles` behind its call of `versionAndBasePath`, on the directories of the package.
  unfoldable pub verified : Resources → Option Version → List (String × Files) → Result Package
  verified rs none dirs = err "version.json is missing"
  verified rs (some v) dirs = elim (verify_archs rs dirs v.archs) [
    | ok _ ↦
        ok (record {
          name = "";
          k3s_version = v.version;
          archs = v.archs;
          file_path = "";
          state = "";
        })
    | err e ↦ err e
    | panic ↦ panic
  ]

  unfoldable pub verify_files : Resources → Exec Disk Package
  unfolding verified
  verify_files rs = do v ← version_and_base_path; λ d. (verified rs v d.dirs, d)
