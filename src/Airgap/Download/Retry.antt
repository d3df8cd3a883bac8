-- ===== src/Airgap/Download/Retry.antt =====
-- A call whose check of the files fails, and the next one.
use autok3s.Base.{
  if◌then◌else◌, String, true, false, null, List, [], ◌∷◌, ℕ, suc, ◌==◌, some, ◌≡◌, refl, ap, ◌∙◌,
  sym, arith, Result, ok, err, panic, Distinct, sort,
}
use autok3s.Base.Exec.{Exec, lift, modify, gets, >>=-ok, ◌>>=◌, pure, continue}
use autok3s.Types.{Package}
use autok3s.Airgap.Archs.Reconcile.{diff_same}
use autok3s.Airgap.Disk.{
  Files, dir, Disk, Outside, update_package_state, version_and_base_path, found_version,
}
use autok3s.Airgap.Verify.{verify_archs, Resources, verify_files, verified}
use autok3s.Airgap.Archs.{Version, diff}
use autok3s.Airgap.Download.Outline.{outline, download_archs-outline}
use autok3s.Airgap.Download.{
  validate_version, write_version, download_all, mark_done, finish, rebuild, remove_dirs, Entry,
  run_entries, entries, download_archs, verify_all, enter, fall_back, run_entry, skip, reconcile,
  download_package, is_ready, package_active, package_out_of_sync, start,
}

-- The disk with the package, here and in its row, in another state.
in_state : String → Disk → Disk
in_state state d = record d {
  pkg = record d.pkg { state = state };
  row = some (record d.pkg { state = state });
}

continue-pure-state : (r : Result Package) (d : Disk) → (continue r (λ _. pure tt) d).1 ≡ d
unfolding continue pure
continue-pure-state (ok a) d = refl
continue-pure-state (err e) d = refl
continue-pure-state panic d = refl

module _ (o : Outside) (rs : Resources) where
  -- A directory that is marked done and has the asked version is taken for ready.
  skip_ready :
      (pkg : Package) (d : Disk)
      → d.place ≡ dir
      → d.done ≡ true
      → d.version_file ≡ some (record { version = pkg.k3s_version; archs = pkg.archs })
      → sort pkg.archs ≡ pkg.archs
      → Distinct pkg.archs
      → download_package o rs pkg d ≡ skip o rs (start pkg d)
  unfolding download_package reconcile version_and_base_path found_version is_ready ◌>>=◌
  skip_ready pkg d p q v s h = rw (p, v, q, s) (rw (diff_same pkg h))

  verify_all-state : (d : Disk) → d.place ≡ dir → (verify_all o rs d).1 ≡ d
  unfolding verify_all verify_files version_and_base_path ◌>>=◌
  verify_all-state d p =
      rw p (continue-pure-state (verified o rs (found_version (record d { place = dir })) d.dirs) _)

  next_entry :
      (n : ℕ) (entry : Entry) (rest : List Entry) (d d' : Disk)
      → o.is_canceled n ≡ false
      → run_entry o rs entry d ≡ (ok tt, d')
      → run_entries o rs n (entry ∷ rest) d ≡ run_entries o rs (suc n) rest d'
  unfolding run_entries
  next_entry n entry rest d d' c h = rw c (
      >>=-ok (run_entry o rs entry) (λ _. run_entries o rs (suc n) rest) d (ap (λ x. x.0) h)
      ∙ ap (λ x. run_entries o rs (suc n) rest x.1) h)

  failed_entry :
      (n : ℕ) (entry : Entry) (rest : List Entry) (d d' : Disk) {m : String}
      → o.is_canceled n ≡ false
      → run_entry o rs entry d ≡ (err m, d')
      → run_entries o rs n (entry ∷ rest) d ≡ (err m, d')
  unfolding run_entries ◌>>=◌ continue
  failed_entry n entry rest d d' c h =
      rw c (ap (λ x. continue x.0 (λ _. run_entries o rs (suc n) rest) x.1) h)

  -- An entry with a state.
  entered :
      (state : String) (f : Exec Disk Unit) (d : Disk)
      → ((p : Package) → o.save p ≡ true)
      → (state == "") ≡ false
      → run_entry o rs (record { state = state; f = f }) d ≡ fall_back o rs (f (in_state state d))
  unfolding run_entry enter update_package_state in_state ◌>>=◌ continue
  entered state f d save b = rw (b, save)

  -- The disk in which the architectures are fetched.
  abbrev pub fetching : String → Package → Disk → Disk
  fetching images pkg d =
      let p = record pkg { archs = sort pkg.archs; state = "Downloading" } in
      record d {
        version_file = some (record { version = pkg.k3s_version; archs = sort pkg.archs });
        done = false;
        pkg = p;
        row = some p;
        image_list_content = images;
      }

  abbrev pub left : Package → Disk → Disk
  left pkg d =
      let p = record pkg { archs = sort pkg.archs; state = package_out_of_sync } in
      record d { done = true; pkg = p; row = some p }

  stateless :
      (f : Exec Disk Unit) (d : Disk)
      → run_entry o rs (record { state = ""; f = f }) d ≡ fall_back o rs (f d)
  unfolding run_entry enter ◌>>=◌ continue pure
  stateless f d = refl

  based_done :
      (d : Disk) {v : Version}
      → d.place ≡ dir
      → d.done ≡ true
      → d.version_file ≡ some v
      → version_and_base_path d ≡ (ok (some v), d)
  unfolding version_and_base_path found_version
  based_done d p q f = ground arith

  verified_fails :
      (dirs : List (String × Files)) (v : Version) {m : String}
      → verify_archs o rs dirs v.archs ≡ err m
      → verified o rs (some v) dirs ≡ err m
  unfolding verified
  verified_fails dirs v wrong =
      ap
        (λ r. elim r [
          | ok _ ↦ ok (record {
            name = "";
            k3s_version = v.version;
            archs = v.archs;
            file_path = "";
            state = "";
          })
          | err e ↦ err e
          | panic ↦ panic
        ])
        wrong

  check_fails :
      (d : Disk) {v : Version} {m : String}
      → d.place ≡ dir
      → d.done ≡ true
      → d.version_file ≡ some v
      → verify_archs o rs d.dirs v.archs ≡ err m
      → verify_all o rs d ≡ (err m, d)
  unfolding verify_all verify_files ◌>>=◌ continue
  check_fails d p q f wrong =
      ap
        (λ x.
          continue (continue x.0 (λ v d. (verified o rs v d.dirs, d)) x.1).0 (λ _. pure tt)
            (continue x.0 (λ v d. (verified o rs v d.dirs, d)) x.1).1)
        (based_done d p q f)
      ∙ ap (λ r. continue r (λ _. pure tt) d) (verified_fails d.dirs _ wrong)

  updated :
      (d : Disk) (state : String)
      → ((p : Package) → o.save p ≡ true)
      → update_package_state o state d ≡ (ok tt, in_state state d)
  unfolding update_package_state in_state
  updated d state save = rw save refl

  check_entry :
      (d : Disk) {v : Version} {m : String}
      → ((p : Package) → o.save p ≡ true)
      → d.place ≡ dir
      → d.done ≡ true
      → d.version_file ≡ some v
      → verify_archs o rs d.dirs v.archs ≡ err m
      → run_entry o rs (record { state = "Verifying"; f = verify_all o rs }) d
        ≡ (err m, in_state package_out_of_sync d)
  unfolding in_state fall_back update_package_state
  check_entry d {m = m} save p q v wrong =
      entered "Verifying" (verify_all o rs) d save refl
      ∙ ap (fall_back o rs) (check_fails (in_state "Verifying" d) p q v wrong)
      ∙ ap (λ x. (err m, x.1)) (updated (in_state "Verifying" d) package_out_of_sync save)

  left_by_check :
      (images : String) (pkg : Package) (d d' : Disk)
      → d'.pkg ≡ (fetching images pkg d).pkg
      → in_state package_out_of_sync (record d' { done = true }) ≡ left pkg d'
  unfolding in_state
  left_by_check images pkg d d' q =
      ap
        (λ p. record d' {
          done = true;
          pkg = record p { state = package_out_of_sync };
          row = some (record p { state = package_out_of_sync });
        })
        q

  failed_entries :
      (images m : String) (pkg : Package) (d d' : Disk)
      → ((p : Package) → o.save p ≡ true)
      → ((n : ℕ) → o.is_canceled n ≡ false)
      → o.image_list ≡ ok images
      → d.place ≡ dir
      → download_archs o rs (sort pkg.archs) (fetching images pkg d) ≡ (ok tt, d')
      → verify_archs o rs d'.dirs (sort pkg.archs) ≡ err m
      → run_entries o rs 0 (entries o rs) (start pkg d) ≡ (err m, left pkg d')
  unfolding entries validate_version write_version download_all mark_done fall_back in_state ◌>>=◌
      continue lift modify
  failed_entries images m pkg d d' save going listed p ran wrong =
      let d1 = record (in_state "Validating" (start pkg d)) { image_list_content = images } in
      let d2 = record d1 {
        version_file = some (record { version = pkg.k3s_version; archs = sort pkg.archs });
        done = false;
      } in
      let kept : outline d' ≡ outline (fetching images pkg d) =
        sym (ap (λ x. outline x.1) ran)
        ∙ download_archs-outline o rs (sort pkg.archs) (fetching images pkg d) in
      next_entry 0 _ _ (start pkg d) d1 (going 0)
        (entered "Validating" (validate_version o rs) (start pkg d) save refl ∙ rw listed refl)
      ∙ next_entry 1 _ _ d1 d2 (going 1) (stateless (write_version o rs) d1)
      ∙ next_entry 2 _ _ d2 d' (going 2)
          (entered "Downloading" (download_all o rs) d2 save refl ∙ ap (fall_back o rs) ran)
      ∙ next_entry 3 _ _ d' (record d' { done = true }) (going 3) (stateless (mark_done o rs) d')
      ∙ failed_entry 4 _ _ (record d' { done = true }) (left pkg d') (going 4)
          (check_entry (record d' { done = true }) save (ap (λ x. x.place) kept ∙ p) refl
              (ap (λ x. x.version_file) kept) wrong
            ∙ ap (λ x. (err m, x)) (left_by_check images pkg d d' (ap (λ x. x.pkg) kept)))

  not_ready :
      (v : Version) (d : Disk) → null (diff (some v) d.pkg).0 ≡ false → is_ready (some v) d ≡ false
  unfolding is_ready
  not_ready v d adds = rw adds refl

  failed_rebuild :
      (images m : String) (pkg : Package) (d d' : Disk) (v : Version)
      → (diff (some v) (start pkg d).pkg).1 ≡ []
      → run_entries o rs 0 (entries o rs) (start pkg d) ≡ (err m, left pkg d')
      → rebuild o rs (some v) (start pkg d) ≡ (err m, left pkg d')
  unfolding rebuild remove_dirs gets pure ◌>>=◌ continue
  failed_rebuild images m pkg d d' v none_removed ran =
      ap
        (λ archs.
          (remove_dirs o rs archs >>= λ _. run_entries o rs 0 (entries o rs) >>= λ _. finish o rs)
            (start pkg d))
        none_removed
      ∙ ap (λ x. continue x.0 (λ _. finish o rs) x.1) ran

  -- Where architectures are to be added to a directory that is done, and none is to be removed.
  failed_download :
      (images m : String) (pkg : Package) (d d' : Disk) (v : Version)
      → ((p : Package) → o.save p ≡ true)
      → ((n : ℕ) → o.is_canceled n ≡ false)
      → o.image_list ≡ ok images
      → d.place ≡ dir
      → d.done ≡ true
      → d.version_file ≡ some v
      → null (diff (some v) (start pkg d).pkg).0 ≡ false
      → (diff (some v) (start pkg d).pkg).1 ≡ []
      → download_archs o rs (sort pkg.archs) (fetching images pkg d) ≡ (ok tt, d')
      → verify_archs o rs d'.dirs (sort pkg.archs) ≡ err m
      → download_package o rs pkg d ≡ (err m, left pkg d')
  unfolding download_package reconcile ◌>>=◌ continue
  failed_download images m pkg d d' v save going listed p q f adds none_removed ran wrong =
      ap (λ x. continue x.0 (λ v d. if is_ready v d then skip o rs d else rebuild o rs v d) x.1)
        (based_done (start pkg d) p q f)
      ∙ ap (λ b. if b then skip o rs (start pkg d) else rebuild o rs (some v) (start pkg d))
          (not_ready v (start pkg d) adds)
      ∙ failed_rebuild images m pkg d d' v none_removed
          (failed_entries images m pkg d d' save going listed p ran wrong)

module _ (o : Outside) (rs : Resources) where
  active_again :
      (d : Disk)
      → ((p : Package) → o.save p ≡ true)
      → d.place ≡ dir
      → d.done ≡ true
      → d.version_file ≡ some (record { version = d.pkg.k3s_version; archs = d.pkg.archs })
      → sort d.pkg.archs ≡ d.pkg.archs
      → Distinct d.pkg.archs
      → d.pkg.state ≡ package_out_of_sync
      → download_package o rs d.pkg d ≡ (ok tt, in_state package_active (start d.pkg d))
  unfolding skip update_package_state in_state
  active_again d save p q f s h out =
      skip_ready o rs d.pkg d p q f s h
      ∙ ap
          (λ state.
            if state == package_active
            then (ok tt, start d.pkg d)
            else update_package_state o package_active (start d.pkg d))
          out
      ∙ updated o rs (start d.pkg d) package_active save

module _ (o o' : Outside) (rs rs' : Resources) where
  -- Let a directory be marked done, and let the package ask for more architectures than its version file
  -- has, and for all that it has. When the database and the mirror answer, the download of the new
  -- architectures succeeds, and the check behind it finds a wrong file, `DownloadPackage` fails and the
  -- package is out of sync; but the directory stays marked done. So the next download, whatever sha256 and
  -- the mirror say of the files then, takes the package for ready and sets it active with the same files.
  -- The sorted architectures of the package are distinct, and sorting them again leaves them.
  pub download_after_failed_check :
      (images m : String) (pkg : Package) (d d' : Disk) (v : Version)
      → ((p : Package) → o.save p ≡ true)
      → ((p : Package) → o'.save p ≡ true)
      → ((n : ℕ) → o.is_canceled n ≡ false)
      → o.image_list ≡ ok images
      → d.place ≡ dir
      → d.done ≡ true
      → d.version_file ≡ some v
      → null (diff (some v) (start pkg d).pkg).0 ≡ false
      → (diff (some v) (start pkg d).pkg).1 ≡ []
      → sort (sort pkg.archs) ≡ sort pkg.archs
      → Distinct (sort pkg.archs)
      → download_archs o rs (sort pkg.archs) (fetching o rs images pkg d) ≡ (ok tt, d')
      → verify_archs o rs d'.dirs (sort pkg.archs) ≡ err m
      → (u : Disk) × (download_package o rs pkg d ≡ (err m, u))
        × (u.done ≡ true)
        × (u.pkg.state ≡ package_out_of_sync)
        × (e : Disk) × (download_package o' rs' u.pkg u ≡ (ok tt, e))
        × (e.pkg.state ≡ package_active)
        × (e.dirs ≡ d'.dirs)
  unfolding in_state
  download_after_failed_check images m pkg d d' v save save' going listed p q f adds none_removed s
        h ran wrong =
      let kept : outline d' ≡ outline (fetching o rs images pkg d) =
        sym (ap (λ x. outline x.1) ran)
        ∙ download_archs-outline o rs (sort pkg.archs) (fetching o rs images pkg d) in
      let u = left o rs pkg d' in
      (
        u,
        failed_download o rs images m pkg d d' v save going listed p q f adds none_removed ran
            wrong,
        refl,
        refl,
        in_state package_active (start u.pkg u),
        active_again o' rs' u save' (ap (λ x. x.place) kept ∙ p) refl
            (ap (λ x. x.version_file) kept) s h refl,
        refl,
        refl,
      )
