-- ===== src/Airgap/Prepare/Tests.antt =====
-- A package in a directory, and a broken archive.
use autok3s.Base.{
  arith, [], ◌∷◌, none, some, ◌≡◌, refl, ok, err, lookup, put, split, split_once, has_infix,
  has_prefix, cut_prefix,
}
use autok3s.Base.Exec.{◌>>=◌, pure, lift, continue}
use autok3s.Airgap.Disk.{version_and_base_path, found_version}
use autok3s.Airgap.Verify.{
  verify_archs, verify_files, verified, verify_arch_files, verify_resources, verify_resource,
  get_hash_map, hash_map, arch_suffix, cut_line, file_base, drop_spaces, last_set, lines,
  strip_return,
}
use autok3s.Airgap.Prepare.{
  Local, tree_at, content_of, check_files, prepare_archive, prepare_package, prepare_path,
  prepare_item, mount, dirs_of,
}
use autok3s.Airgap.Prepare.Outcome.{Found, StaysInside, prepare_package_sound}
use autok3s.Airgap.Prepare.Leftovers.{prepare_after_broken_archive}
use autok3s.Airgap.Prepare.Sample.{package_files, machine, at_path, local, found_package}

pub finds_directory :
    prepare_package machine (at_path "/home/me/package") local ≡ (ok (some found_package), local)
unfolding prepare_package prepare_path prepare_item check_files mount dirs_of verify_files verified
    version_and_base_path found_version verify_archs verify_arch_files verify_resources
    verify_resource get_hash_map hash_map arch_suffix cut_line file_base drop_spaces last_set lines
    strip_return lookup put split split_once has_infix has_prefix ◌>>=◌ pure lift continue
    cut_prefix
finds_directory = refl

is_directory : StaysInside machine "/home/me/package" "demo" local
unfolding lookup
is_directory content m e u = ground arith

prepare_package_sound_example :
    Found machine "/home/me/package" "demo" local (some found_package) local
prepare_package_sound_example =
    prepare_package_sound machine (at_path "/home/me/package") local refl is_directory
      finds_directory

-- The binary of the second archive is written behind the part that the first one left.
prepare_after_broken_archive_example :
    (l' : Local) × (l'' : Local) × (prepare_package machine (at_path "/home/me/broken.tgz") local
      ≡ (err "unexpected EOF", l'))
    × (prepare_archive machine "whole" "demo" l'
        ≡ check_files machine "/package/.tmp/cluster-demo" "/package/.tmp/cluster-demo" l'')
    × (content_of "amd64/k3s" (tree_at machine "/package/.tmp/cluster-demo" l'') ≡ "halfK")
unfolding lookup
prepare_after_broken_archive_example =
    prepare_after_broken_archive machine (at_path "/home/me/broken.tgz") local "broken" "whole"
      "unexpected EOF"
      (record { files = ("amd64/k3s", "half") ∷ []; outside = []; failure = some "unexpected EOF" })
      (record { files = package_files; outside = []; failure = none }) "amd64/k3s" refl refl refl
      refl refl refl
