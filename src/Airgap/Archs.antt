-- ===== src/Airgap/Archs.antt =====
-- pkg/airgap/archs.go, and `version.diff` of pkg/airgap/download.go: which architectures a package
-- has to gain and to lose. A Go set is the list of its keys; the order in which Go walks the keys of
-- `currentMap` is not fixed, so the theorems below say of `del` only which names it has.
pub mod Reconcile
use autok3s.Base.{
  String, Bool, true, false, not, ◌&&◌, List, [], ◌∷◌, ◌++◌, Option, none, some, ◌==◌,
  if◌then◌else◌, contains, add_key, delete_key, Result, ok, err, sort,
}
use autok3s.Types.{Package}

-- The keys of `ValidatedArch`.
abbrev pub validated_arch : List String
validated_arch = "arm64" ∷ "amd64" ∷ "arm" ∷ "s390s" ∷ []

pub validate_archs : List String → Result (Unit {0})
validate_archs [] = ok tt
validate_archs (arch ∷ archs) =
    let rest = validate_archs archs in
    if contains validated_arch arch then rest else err "arch is not validated"

pub get_validated_archs : List String
get_validated_archs = sort validated_arch

-- The first loop of `GetArchDiff`: the keys of `currentMap`.
mark : List String → List String → List String
mark [] keys = keys
mark (arch ∷ current) keys = mark current (add_key arch keys)

-- The second loop; what is left of the keys is `del`.
diff_loop : List String → List String → List String → List String × List String
diff_loop [] keys add = (add, keys)
diff_loop (arch ∷ target) keys add =
    diff_loop target (if contains keys arch then delete_key arch keys else keys)
      (if contains keys arch then add else add ++ arch ∷ [])

unfoldable pub get_arch_diff : List String → List String → List String × List String
unfolding mark diff_loop
get_arch_diff current target = diff_loop target (mark current []) []

pub record Version : Type 0 where
  pub version : String
  pub archs : List String

-- `version.diff`, whose receiver may be nil.
unfoldable pub diff : Option Version → Package → List String × List String
unfolding get_arch_diff
diff none pkg = (pkg.archs, [])
diff (some v) pkg =
    if v.version == pkg.k3s_version then get_arch_diff v.archs pkg.archs else (pkg.archs, v.archs)
