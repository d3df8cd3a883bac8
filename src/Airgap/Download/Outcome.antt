-- ===== src/Airgap/Download/Outcome.antt =====
-- What a download that succeeds, or fails, leaves behind.
use autok3s.Base.{
  ◌⊎◌, eq_iff, true, Option, some, ◌≡◌, ap, ◌∙◌, sym, subst, arith, ok, Bool-cases, inl, inr,
}
use autok3s.Base.Exec.{gets, >>=-eq-ok}
use autok3s.Types.{Package}
use autok3s.Airgap.Archs.{Version}
use autok3s.Airgap.Disk.{dir, Disk, Outside, update_package_state, version_and_base_path}
use autok3s.Airgap.Verify.{Resources, verify_archs}
use autok3s.Airgap.Download.{
  entries, run_entries, finish, rebuild, reconcile, download_package, is_ready, skip, start,
  package_active,
}
use autok3s.Airgap.Download.Outline.{remove_dirs-outline}
use autok3s.Airgap.Download.Entries.{
  run_entries-eq-ok, done_entry, download_entry, write_entry, validate_entry, run_entries-nil,
  verify_entry, IsVerified,
}

module _ (o : Outside) (rs : Resources) where
  entries_sound :
      (d : Disk) {e : Disk}
      → d.place ≡ dir
      → run_entries o rs 0 (entries o rs) d ≡ (ok tt, e)
      → IsVerified o rs e
  unfolding entries
  entries_sound d {e} p h =
      let (d1, ran1, h1) = run_entries-eq-ok o rs 0 _ _ d h in
      let (d2, ran2, h2) = run_entries-eq-ok o rs 1 _ _ d1 h1 in
      let (d3, ran3, h3) = run_entries-eq-ok o rs 2 _ _ d2 h2 in
      let (d4, ran4, h4) = run_entries-eq-ok o rs 3 _ _ d3 h3 in
      let (d5, ran5, h5) = run_entries-eq-ok o rs 4 _ _ d4 h4 in
      let (w, q) =
        done_entry o rs d3
          (download_entry o rs d2 (write_entry o rs d1 (validate_entry o rs d p ran1) ran2) ran3)
          ran4 in
      subst (IsVerified o rs) (run_entries-nil o rs 5 d5 h5)
        (verify_entry o rs d4 w.place q w.version_file ran5)

  finish_ok :
      (d : Disk) {e : Disk}
      → IsVerified o rs d
      → finish o rs d ≡ (ok tt, e)
      → IsVerified o rs e × (e.pkg.state ≡ package_active) × (e.row ≡ some e.pkg)
  unfolding finish update_package_state
  finish_ok d {e} v h = ground arith

  rebuild_sound :
      (v : Option Version) (d : Disk) {e : Disk}
      → d.place ≡ dir
      → rebuild o rs v d ≡ (ok tt, e)
      → IsVerified o rs e × (e.pkg.state ≡ package_active) × (e.row ≡ some e.pkg)
  unfolding rebuild
  rebuild_sound v d {e} p h =
      let (to_del, d0, got, h0) = >>=-eq-ok _ _ d h in
      let (_, d1, removed, h1) = >>=-eq-ok _ _ d0 h0 in
      let (_, d2, ran, h2) = >>=-eq-ok _ _ d1 h1 in
      let p0 : d0.place ≡ dir = unfold gets in sym (ap (λ x. x.1.place) got) ∙ p in
      let p1 : d1.place ≡ dir =
        sym (ap (λ x. x.1.place) removed)
        ∙ ap (λ l. l.place) (remove_dirs-outline o rs to_del d0)
        ∙ p0 in
      finish_ok d2 (entries_sound d1 p1 ran) h2

  based :
      (d : Disk) {v : Option Version} {u : Disk}
      → version_and_base_path d ≡ (ok v, u)
      → u ≡ record d { place = dir }
  unfolding version_and_base_path
  based d h = ground arith

  skip_ok :
      (d : Disk) {e : Disk}
      → skip o rs d ≡ (ok tt, e)
      → (e.pkg.state ≡ package_active) × (e.dirs ≡ d.dirs)
  unfolding skip update_package_state
  skip_ok d h = ground (arith, eq_iff d.pkg.state package_active)

  is_ready_done : (v : Option Version) (d : Disk) → is_ready v d ≡ true → d.done ≡ true
  unfolding is_ready
  is_ready_done v d h = ground arith

  -- When `DownloadPackage` succeeds the package is active, and either its directory was marked done
  -- before and no file of it has changed, or the directory is marked done, its version file says what
  -- the package asks for, every architecture has passed the check of its checksums, and the row says
  -- what the downloader has.
  pub download_package_sound :
      (pkg : Package) (d : Disk) {e : Disk}
      → download_package o rs pkg d ≡ (ok tt, e)
      → (e.pkg.state ≡ package_active)
        × ((d.done ≡ true) × (e.dirs ≡ d.dirs)
            ⊎ (e.done ≡ true)
              × (e.version_file
                  ≡ some (record { version = e.pkg.k3s_version; archs = e.pkg.archs }))
              × (verify_archs o rs e.dirs e.pkg.archs ≡ ok tt)
              × (e.row ≡ some e.pkg))
  unfolding download_package reconcile
  download_package_sound pkg d {e} h =
      let (v, u, found, ran) = >>=-eq-ok _ _ (start pkg d) h in
      let at = based (start pkg d) found in
      elim (Bool-cases (is_ready v u)) [
        | inl ready ↦
            let (active, kept) = skip_ok u (rw ready at ran) in
            (
              active,
              inl (sym (ap (λ x. x.done) at) ∙ is_ready_done v u ready, kept ∙ ap (λ x. x.dirs) at),
            )
        | inr stale ↦
            let (ok_now, active, saved) =
              rebuild_sound v u (ap (λ x. x.place) at) (rw stale at ran) in
            (active, inr (ok_now.done, ok_now.version_file, ok_now.files, saved))
      ]
