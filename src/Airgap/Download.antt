-- ===== src/Airgap/Download.antt =====
-- pkg/airgap/download.go: bringing a package's directory to what its row asks for.
pub mod Outline
pub mod Entries
pub mod Outcome
pub mod Retry
mod Tests
use autok3s.Base.{
  String, Bool, true, false, not, ◌&&◌, List, [], ◌∷◌, Option, none, some, ◌==◌, ◌<>◌,
  if◌then◌else◌, lookup, null, is_some, Result, ok, err, panic, ℕ, suc, sort,
}
use autok3s.Base.Exec.{Exec, ◌>>=◌, ◌>>◌, pure, raise, lift, gets, modify}
use autok3s.Types.{Package}
use autok3s.Airgap.Archs.{Version, diff}
use autok3s.Airgap.Disk.{
  Disk, Outside, Fetch, body, canceled, failed, files_of, arch_done, write_file, make_dir,
  remove_dir, update_package_state, version_and_base_path,
}
use autok3s.Airgap.Verify.{Resources, arch_suffix, verify_arch_files, verify_files}

abbrev pub package_active : String
package_active = "Active"

abbrev pub package_out_of_sync : String
package_out_of_sync = "OutOfSync"

-- An entry of the table in `downloadPackage`: a state to enter, or none, and what to run.
pub record Entry : Type 0 where
  pub state : String
  pub f : Exec Disk Unit

-- `len(toAddArchs) == 0 && len(toDelArchs) == 0 && isDone(d.basePath)`.
pub is_ready : Option Version → Disk → Bool
is_ready v d = null (diff v d.pkg).0 && null (diff v d.pkg).1 && d.done

-- The downloader that `DownloadPackage` makes, on the disk as it is.
abbrev pub start : Package → Disk → Disk
start pkg d = record d { pkg = record pkg { archs = sort pkg.archs }; image_list_content = "" }

module _ (o : Outside) (rs : Resources) where
  -- What follows a request for a file; `rest` is the run of the remaining suffixes.
  arrive : String → String → Fetch → Result (Unit {0}) × Disk → Exec Disk Unit
  arrive arch name (body content) rest d = write_file arch name content d
  arrive arch name canceled rest d = (err "context canceled", d)
  arrive arch name (failed e) rest d = rest

  -- The inner loop of `downloadArch`: a file that exists or arrives ends it, a failure goes on to the
  -- next suffix, and a cancelled request is an error.
  fetch : String → String → List String → Exec Disk Unit
  fetch arch base [] d = (ok tt, d)
  fetch arch base (origin ∷ suffixes) d =
      let rest = fetch arch base suffixes d in
      if is_some (lookup (base <> origin) (files_of arch d.dirs))
      then (ok tt, d)
      else arrive arch (base <> origin) (o.get (base <> arch_suffix arch base origin)) rest d

  fetch_all : String → Resources → Exec Disk Unit
  fetch_all arch [] = pure tt
  fetch_all arch ((base, suffixes) ∷ resources) = do
    fetch arch base suffixes
    fetch_all arch resources

  verify_downloaded : String → Exec Disk Unit
  verify_downloaded arch d = (verify_arch_files o rs arch (files_of arch d.dirs), d)

  save_image_list : String → Exec Disk Unit
  save_image_list arch d = write_file arch "k3s-images.txt" d.image_list_content d

  -- The body of `downloadArch` behind its two early returns.
  fill_arch : String → Exec Disk Unit
  fill_arch arch = do
    save_image_list arch
    fetch_all arch rs
    verify_downloaded arch
    write_file arch ".done" ""

  pub download_arch : String → Exec Disk Unit
  download_arch arch d =
      if not (o.head ("sha256sum-" <> (arch <> ".txt")))
      then (err "arch may not exist", d)
      else if arch_done arch d.dirs
      then (ok tt, d)
      else fill_arch arch d

  pub download_archs : List String → Exec Disk Unit
  download_archs [] = pure tt
  download_archs (arch ∷ archs) = do make_dir arch; download_arch arch; download_archs archs

  -- `validateVersion`, which keeps the image list for the architectures.
  pub validate_version : Exec Disk Unit
  validate_version = do
    content ← lift o.image_list
    modify (λ d. record d { image_list_content = content })

  -- `writeVersion`, which also takes `.done` away.
  pub write_version : Exec Disk Unit
  write_version = modify (λ d. record d {
    version_file = some (record { version = d.pkg.k3s_version; archs = d.pkg.archs });
    done = false;
  })

  pub mark_done : Exec Disk Unit
  mark_done = modify (λ d. record d { done = true })

  pub download_all : Exec Disk Unit
  download_all d = download_archs d.pkg.archs d

  pub verify_all : Exec Disk Unit
  verify_all = do verify_files o rs; pure tt

  entries : List Entry
  entries =
      record { state = "Validating"; f = validate_version }
      ∷ record { state = ""; f = write_version }
      ∷ record { state = "Downloading"; f = download_all }
      ∷ record { state = ""; f = mark_done }
      ∷ record { state = "Verifying"; f = verify_all }
      ∷ []

  enter : String → Exec Disk Unit
  enter state = if state == "" then pure tt else update_package_state o state

  -- A failure sets the row to `OutOfSync`, as far as the database takes it.
  fall_back : Result (Unit {0}) × Disk → Result (Unit {0}) × Disk
  fall_back (ok u, d) = (ok u, d)
  fall_back (err e, d) = (err e, (update_package_state o package_out_of_sync d).1)
  fall_back (panic, d) = (panic, d)

  pub run_entry : Entry → Exec Disk Unit
  run_entry entry = do enter entry.state; λ d. fall_back (entry.f d)

  -- The loop, from its n-th entry on.
  pub run_entries : ℕ → List Entry → Exec Disk Unit
  run_entries n [] = pure tt
  run_entries n (entry ∷ rest) =
      if o.is_canceled n
      then raise "context canceled"
      else (do run_entry entry; run_entries (suc n) rest)

  pub remove_dirs : List String → Exec Disk Unit
  remove_dirs [] = pure tt
  remove_dirs (arch ∷ archs) = do remove_dir arch; remove_dirs archs

  finish : Exec Disk Unit
  finish d =
      update_package_state o package_active
        (record d { pkg = record d.pkg { file_path = o.package_path } })

  skip : Exec Disk Unit
  skip d =
      if d.pkg.state == package_active then (ok tt, d) else update_package_state o package_active d

  rebuild : Option Version → Exec Disk Unit
  rebuild v = do
    to_del ← gets (λ d. (diff v d.pkg).1)
    remove_dirs to_del
    run_entries 0 entries
    finish

  -- The method `downloadPackage`.
  reconcile : Exec Disk Unit
  reconcile = do v ← version_and_base_path; λ d. if is_ready v d then skip d else rebuild v d

  -- `DownloadPackage`, on the disk and the row as they are.
  pub download_package : Package → Exec Disk Unit
  download_package pkg d = reconcile (start pkg d)
