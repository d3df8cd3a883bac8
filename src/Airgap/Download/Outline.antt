-- ===== src/Airgap/Download/Outline.antt =====
-- What removing and downloading architectures leaves alone.
use autok3s.Base.{
  is_some, lookup, String, Bool, true, false, not, List, [], ◌∷◌, Option, ◌≡◌, refl, ◌<>◌,
  if◌then◌else◌, Result,
}
use autok3s.Base.Exec.{pure, Preserves, >>=-Preserves}
use autok3s.Types.{Package}
use autok3s.Airgap.Archs.{Version}
use autok3s.Airgap.Disk.{
  Place, Disk, Outside, Fetch, body, canceled, failed, files_of, arch_done, write_file, make_dir,
  remove_dir,
}
use autok3s.Airgap.Verify.{Resources}
use autok3s.Airgap.Download.{
  arrive, fetch, fetch_all, fill_arch, verify_downloaded, save_image_list, download_arch,
  download_archs, remove_dirs,
}

-- All of the disk but the files of the architectures.
pub record Outline : Type 0 where
  pub place : Place
  pub version_file : Option Version
  pub done : Bool
  pub pkg : Package

abbrev pub outline : Disk → Outline
outline d = record { place = d.place; version_file = d.version_file; done = d.done; pkg = d.pkg }

write_file-outline : (arch name content : String) → Preserves outline (write_file arch name content)
unfolding write_file
write_file-outline arch name content d = refl

make_dir-outline : (arch : String) → Preserves outline (make_dir arch)
unfolding make_dir
make_dir-outline arch d = refl

remove_dir-outline : (arch : String) → Preserves outline (remove_dir arch)
unfolding remove_dir
remove_dir-outline arch d = refl

outline-if :
    (b : Bool) (x y : Result (Unit {0}) × Disk) {t : Outline}
    → outline x.1 ≡ t
    → outline y.1 ≡ t
    → outline (if b then x else y).1 ≡ t
outline-if true x y p q = p
outline-if false x y p q = q

module _ (o : Outside) (rs : Resources) where
  arrive-outline :
      (arch name : String) (x : Fetch) (rest : Result (Unit {0}) × Disk) (d : Disk)
      → outline rest.1 ≡ outline d
      → outline (arrive o rs arch name x rest d).1 ≡ outline d
  unfolding arrive
  arrive-outline arch name (body content) rest d h = write_file-outline arch name content d
  arrive-outline arch name canceled rest d h = refl
  arrive-outline arch name (failed e) rest d h = h

  fetch-outline :
      (arch base : String) (suffixes : List String)
      → Preserves outline (fetch o rs arch base suffixes)
  unfolding fetch
  fetch-outline arch base [] d = refl
  fetch-outline arch base (origin ∷ suffixes) d =
      outline-if (is_some (lookup (base <> origin) (files_of arch d.dirs))) _ _ refl
        (arrive-outline arch _ _ _ d (fetch-outline arch base suffixes d))

  fetch_all-outline :
      (arch : String) (resources : Resources) → Preserves outline (fetch_all o rs arch resources)
  unfolding fetch_all pure
  fetch_all-outline arch [] d = refl
  fetch_all-outline arch ((base, suffixes) ∷ resources) d =
      >>=-Preserves outline _ _ (fetch-outline arch base suffixes)
        (λ _. fetch_all-outline arch resources) d

  verify_downloaded-outline : (arch : String) → Preserves outline (verify_downloaded o rs arch)
  unfolding verify_downloaded
  verify_downloaded-outline arch d = refl

  save_image_list-outline : (arch : String) → Preserves outline (save_image_list o rs arch)
  unfolding save_image_list
  save_image_list-outline arch d = write_file-outline arch "k3s-images.txt" d.image_list_content d

  fill_arch-outline : (arch : String) → Preserves outline (fill_arch o rs arch)
  unfolding fill_arch
  fill_arch-outline arch = >>=-Preserves outline _ _ (save_image_list-outline arch) λ _.
      >>=-Preserves outline _ _ (fetch_all-outline arch rs) λ _.
        >>=-Preserves outline _ _ (verify_downloaded-outline arch)
          λ _. write_file-outline arch ".done" ""

  download_arch-outline : (arch : String) → Preserves outline (download_arch o rs arch)
  unfolding download_arch
  download_arch-outline arch d =
      outline-if (not (o.head ("sha256sum-" <> (arch <> ".txt")))) _ _ refl
        (outline-if (arch_done arch d.dirs) _ _ refl (fill_arch-outline arch d))

  pub download_archs-outline : (archs : List String) → Preserves outline (download_archs o rs archs)
  unfolding download_archs pure
  download_archs-outline [] d = refl
  download_archs-outline (arch ∷ archs) d =
      (>>=-Preserves outline (make_dir arch) _ (make_dir-outline arch) λ _.
          >>=-Preserves outline _ _ (download_arch-outline arch) λ _. download_archs-outline archs)
        d

  pub remove_dirs-outline : (archs : List String) → Preserves outline (remove_dirs o rs archs)
  unfolding remove_dirs pure
  remove_dirs-outline [] d = refl
  remove_dirs-outline (arch ∷ archs) d =
      >>=-Preserves outline (remove_dir arch) _ (remove_dir-outline arch)
        (λ _. remove_dirs-outline archs) d
