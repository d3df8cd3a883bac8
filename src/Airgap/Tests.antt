-- ===== src/Airgap/Tests.antt =====
-- Packages at concrete disks.
use autok3s.Base.{
  true, false, [], ◌∷◌, ◌++◌, Option, some, ◌≡◌, refl, arith, ◌<>◌, has_prefix, contains, join,
}
use autok3s.Types.Sample.{amd_package}
use autok3s.Airgap.Archs.{Version, get_arch_diff, diff}
use autok3s.Airgap.Archs.Reconcile.{get_arch_diff_exact, diff_reconciles, without, installed}
use autok3s.Airgap.DataPath.{get_data_path, get_data_path_lem, default_data_dir_path}

get_arch_diff_exact_example :
    (contains (get_arch_diff ("arm" ∷ "arm64" ∷ []) ("amd64" ∷ "arm64" ∷ [])).0 "amd64" ≡ true)
    × (contains (get_arch_diff ("arm" ∷ "arm64" ∷ []) ("amd64" ∷ "arm64" ∷ [])).1 "amd64" ≡ false)
unfolding contains
get_arch_diff_exact_example =
    get_arch_diff_exact ("arm" ∷ "arm64" ∷ []) ("amd64" ∷ "arm64" ∷ []) "amd64" (refl, (refl, tt))

abbrev old_version : Option Version
old_version = some (record { version = "v1.26"; archs = "arm" ∷ [] })

diff_reconciles_example :
    contains
      (without (diff old_version amd_package).1 (installed old_version)
        ++ (diff old_version amd_package).0)
      "amd64"
    ≡ contains amd_package.archs "amd64"
diff_reconciles_example = diff_reconciles old_version amd_package "amd64"

get_data_path_lem_example :
    (get_data_path (join ("--disable" ∷ ("--data-dir" <> ("=" <> "/data")) ∷ "-v" ∷ []) " ")
      ≡ "/data")
    × (get_data_path (join ("--disable" ∷ "--data-dir" ∷ "/data" ∷ "-v" ∷ []) " ") ≡ "/data")
    × (get_data_path (join ("--disable" ∷ []) " ") ≡ default_data_dir_path)
unfolding has_prefix
get_data_path_lem_example =
    get_data_path_lem ("--disable" ∷ []) ("-v" ∷ []) "/data" (refl, tt) (ground arith)
      (ground arith) (ground arith)
