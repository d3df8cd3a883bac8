-- ===== src/Airgap/Download/Tests.antt =====
-- A download into an empty directory, and one of a package with a damaged file.
use autok3s.Base.{
  String, true, false, [], ◌∷◌, none, some, ◌≡◌, refl, ◌⊎◌, ◌==◌, ok, err, if◌then◌else◌, sort,
  contains, lookup, put, split,
}
use autok3s.Base.Exec.{◌>>=◌, modify}
use autok3s.Types.{Package}
use autok3s.Types.Sample.{amd_package}
use autok3s.Airgap.Archs.{diff}
use autok3s.Airgap.Disk.{
  Disk, Outside, absent, dir, body, failed, write_file, make_dir, update_package_state,
  version_and_base_path, found_version,
}
use autok3s.Airgap.Verify.{
  resource_suffixes, verify_archs, verify_files, verify_arch_files, verify_resources,
  verify_resource, get_hash_map, arch_suffix, cut_line, file_base, drop_spaces, last_set,
}
use autok3s.Airgap.Download.{
  download_package, package_active, package_out_of_sync, verify_all, run_entry, reconcile, is_ready,
  rebuild, remove_dirs, entries, run_entries, finish, enter, fall_back, validate_version,
  write_version, download_all, mark_done, download_archs, download_arch, fill_arch, fetch_all,
  fetch, arrive, verify_downloaded, save_image_list,
}
use autok3s.Airgap.Download.Outcome.{download_package_sound}
use autok3s.Airgap.Download.Retry.{fetching, download_after_failed_check}

-- A mirror that has the files of amd64, and a checksum that is the text itself.
abbrev mirror : Outside
mirror = record {
  image_list = ok "images";
  head = λ name. name == "sha256sum-amd64.txt";
  get = λ name.
      if name == "k3s"
      then body "K"
      else if name == "k3s-airgap-images-amd64.tar"
      then body "I"
      else if name == "sha256sum-amd64.txt"
      then body "K  k3s\nI  dist/k3s-airgap-images-amd64.tar\n"
      else failed "404";
  is_canceled = λ n. false;
  save = λ p. true;
  sha256 = λ content. content;
  package_path = "/package/edge";
}

abbrev sums : String
sums = "K  k3s\nI  dist/k3s-airgap-images-amd64.tar\n"

abbrev ready_package : Package
ready_package = record amd_package { state = "Verifying" }

-- The directory after a download, but that its binary has been damaged since.
abbrev damaged : Disk
damaged = record {
  place = dir;
  version_file = some (record { version = "v1.27"; archs = "amd64" ∷ [] });
  done = true;
  dirs =
      (
        "amd64",
        (".done", "")
            ∷ ("k3s", "damaged")
            ∷ ("k3s-airgap-images.tar", "I")
            ∷ ("sha256sum.txt", sums)
            ∷ [],
      )
      ∷ [];
  pkg = ready_package;
  row = none;
  image_list_content = "";
}

-- The same with a version file that does not have amd64 yet.
abbrev grown : Disk
grown = record damaged { version_file = some (record { version = "v1.27"; archs = [] }) }

abbrev passed : Disk
passed = fetching mirror resource_suffixes "images" amd_package grown

passes : download_archs mirror resource_suffixes (sort amd_package.archs) passed ≡ (ok tt, passed)
unfolding download_archs download_arch make_dir modify ◌>>=◌ lookup put sort
passes = refl

damaged_fails :
    verify_archs mirror resource_suffixes passed.dirs (sort amd_package.archs)
    ≡ err "checksum mismatch"
unfolding verify_archs verify_arch_files verify_resources verify_resource get_hash_map split lookup
    put arch_suffix cut_line file_base drop_spaces last_set sort
damaged_fails = refl

download_after_failed_check_example :
    (u : Disk) × (download_package mirror resource_suffixes amd_package grown
      ≡ (err "checksum mismatch", u))
    × (u.done ≡ true)
    × (u.pkg.state ≡ package_out_of_sync)
    × (e : Disk) × (download_package mirror resource_suffixes u.pkg u ≡ (ok tt, e))
    × (e.pkg.state ≡ package_active)
    × (e.dirs ≡ passed.dirs)
unfolding sort contains diff
download_after_failed_check_example =
    download_after_failed_check mirror mirror resource_suffixes resource_suffixes "images"
      "checksum mismatch" amd_package grown passed (record { version = "v1.27"; archs = [] })
      (λ p. refl) (λ p. refl) (λ n. refl) refl refl refl refl refl refl refl (refl, tt) passes
      damaged_fails

abbrev empty_disk : Disk
empty_disk = record damaged { place = absent; version_file = none; done = false; dirs = [] }

abbrev fetched : Disk
fetched = record damaged {
  dirs =
      (
        "amd64",
        ("k3s-images.txt", "images")
            ∷ ("k3s", "K")
            ∷ ("k3s-airgap-images.tar", "I")
            ∷ ("sha256sum.txt", sums)
            ∷ (".done", "")
            ∷ [],
      )
      ∷ [];
  pkg = record amd_package { state = "Active"; file_path = "/package/edge" };
  row = some (record amd_package { state = "Active"; file_path = "/package/edge" });
  image_list_content = "images";
}

fetches : download_package mirror resource_suffixes amd_package empty_disk ≡ (ok tt, fetched)
unfolding download_package reconcile is_ready rebuild remove_dirs entries run_entries finish diff
    run_entry enter fall_back validate_version write_version download_all mark_done download_archs
    download_arch fill_arch fetch_all fetch arrive verify_downloaded save_image_list write_file
    make_dir verify_all ◌>>=◌ update_package_state verify_files version_and_base_path found_version
    verify_archs verify_arch_files verify_resources verify_resource get_hash_map split lookup put
    arch_suffix cut_line file_base drop_spaces last_set sort modify
fetches = refl

download_package_sound_example :
    (fetched.pkg.state ≡ package_active)
    × ((empty_disk.done ≡ true) × (fetched.dirs ≡ empty_disk.dirs)
        ⊎ (fetched.done ≡ true)
          × (fetched.version_file
              ≡ some (record { version = fetched.pkg.k3s_version; archs = fetched.pkg.archs }))
          × (verify_archs mirror resource_suffixes fetched.dirs fetched.pkg.archs ≡ ok tt)
          × (fetched.row ≡ some fetched.pkg))
download_package_sound_example =
    download_package_sound mirror resource_suffixes amd_package empty_disk fetches
