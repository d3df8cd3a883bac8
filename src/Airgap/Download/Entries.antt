-- ===== src/Airgap/Download/Entries.antt =====
-- The entries of the table of `downloadPackage`, one by one.
use autok3s.Base.{
  String, Bool, true, List, [], ◌∷◌, Option, some, ◌≡◌, refl, ap, ◌∙◌, sym, subst, arith, Result,
  ok, err, panic, ℕ, suc, Bool-cases, inl, inr,
}
use autok3s.Base.Exec.{◌>>=◌, pure, raise, lift, modify, >>=-eq-ok, Preserves, >>=-Preserves}
use autok3s.Airgap.Archs.{Version}
use autok3s.Airgap.Disk.{
  Place, dir, Files, Disk, Outside, update_package_state, version_and_base_path, found_version,
}
use autok3s.Airgap.Verify.{Resources, verify_archs, verify_files, verified}
use autok3s.Airgap.Download.{
  validate_version, write_version, mark_done, download_all, verify_all, Entry, enter, fall_back,
  run_entry, run_entries,
}
use autok3s.Airgap.Download.Outline.{outline, download_archs-outline}

-- What the row of the package asks for is what the version file says.
abbrev pub asked : Disk → Option Version
asked d = some (record { version = d.pkg.k3s_version; archs = d.pkg.archs })

-- The parts of the disk that entering a state leaves alone.
record Core : Type 0 where
  place : Place
  version_file : Option Version
  done : Bool
  dirs : List (String × Files)
  asks : Option Version

abbrev core : Disk → Core
core d = record {
  place = d.place;
  version_file = d.version_file;
  done = d.done;
  dirs = d.dirs;
  asks = asked d;
}

module _ (o : Outside) (rs : Resources) where
  enter-core :
      (state : String) (d : Disk) {u : Disk} → enter o rs state d ≡ (ok tt, u) → core u ≡ core d
  unfolding enter update_package_state pure
  enter-core state d h = ground arith

  fall_back-eq-ok :
      (x : Result (Unit {0}) × Disk) {e : Disk} → fall_back o rs x ≡ (ok tt, e) → x ≡ (ok tt, e)
  unfolding fall_back
  fall_back-eq-ok (ok u, d) h = h
  fall_back-eq-ok (err e, d) h = ground arith
  fall_back-eq-ok (panic, d) h = ground arith

  run_entry-eq-ok :
      (entry : Entry) (d : Disk) {e : Disk}
      → run_entry o rs entry d ≡ (ok tt, e)
      → (u : Disk) × (enter o rs entry.state d ≡ (ok tt, u)) × (entry.f u ≡ (ok tt, e))
  unfolding run_entry
  run_entry-eq-ok entry d h =
      let (_, u, entered, ran) = >>=-eq-ok _ _ d h in (u, entered, fall_back-eq-ok _ ran)

  pub run_entries-eq-ok :
      (n : ℕ) (entry : Entry) (rest : List Entry) (d : Disk) {e : Disk}
      → run_entries o rs n (entry ∷ rest) d ≡ (ok tt, e)
      → (u : Disk) × (run_entry o rs entry d ≡ (ok tt, u))
        × (run_entries o rs (suc n) rest u ≡ (ok tt, e))
  unfolding run_entries
  run_entries-eq-ok n entry rest d h = elim (Bool-cases (o.is_canceled n)) [
    | inl stop ↦ absurd (raise_ne_ok (rw stop at h))
    | inr go ↦ let (_, u, a, b) = >>=-eq-ok _ _ d (rw go at h) in (u, a, b)
  ]
    where
      raise_ne_ok :
          {e : Disk} → raise {S = Disk} {A = Unit {0}} "context canceled" d ≡ (ok tt, e) → ⊥
      raise_ne_ok k = unfold raise in ground arith

  validate_version-core : Preserves core (validate_version o rs)
  unfolding validate_version ◌>>=◌ modify
  validate_version-core =
      >>=-Preserves core (lift o.image_list)
        (λ content. modify (λ d. record d { image_list_content = content })) (λ d. refl)
        (λ content d. refl)

  download_all-outline : Preserves outline (download_all o rs)
  unfolding download_all
  download_all-outline d = download_archs-outline o rs d.pkg.archs d

  verify_all-eq-ok :
      (d : Disk) {e : Disk}
      → d.place ≡ dir
      → d.done ≡ true
      → d.version_file ≡ asked d
      → verify_all o rs d ≡ (ok tt, e)
      → (d ≡ e) × (verify_archs o rs d.dirs d.pkg.archs ≡ ok tt)
  unfolding verify_all verify_files verified version_and_base_path found_version ◌>>=◌
  verify_all-eq-ok d p q v h = ground arith

  -- The last two entries of the table.
  pub record IsVerified (e : Disk) : Type 0 where
    pub place : e.place ≡ dir
    pub done : e.done ≡ true
    pub version_file : e.version_file ≡ asked e
    pub files : verify_archs o rs e.dirs e.pkg.archs ≡ ok tt

  pub verify_entry :
      (d : Disk) {e : Disk}
      → d.place ≡ dir
      → d.done ≡ true
      → d.version_file ≡ asked d
      → run_entry o rs (record { state = "Verifying"; f = verify_all o rs }) d ≡ (ok tt, e)
      → IsVerified e
  verify_entry d {e} p q v h =
      let (u, entered, ran) = run_entry-eq-ok _ d h in
      let same = enter-core _ d entered in
      let up : u.place ≡ dir = ap (λ c. c.place) same ∙ p in
      let uq : u.done ≡ true = ap (λ c. c.done) same ∙ q in
      let uv : u.version_file ≡ asked u =
        ap (λ c. c.version_file) same ∙ v ∙ sym (ap (λ c. c.asks) same) in
      let (same', files) = verify_all-eq-ok u up uq uv ran in
      subst IsVerified same' (record { place = up; done = uq; version_file = uv; files = files })

  -- The version file is there and says what is asked for.
  pub record IsWritten (e : Disk) : Type 0 where
    pub place : e.place ≡ dir
    pub version_file : e.version_file ≡ asked e

  pub validate_entry :
      (d : Disk) {e : Disk}
      → d.place ≡ dir
      → run_entry o rs (record { state = "Validating"; f = validate_version o rs }) d ≡ (ok tt, e)
      → e.place ≡ dir
  validate_entry d {e} p h =
      let (u, entered, ran) = run_entry-eq-ok _ d h in
      sym (ap (λ x. x.1.place) ran)
      ∙ ap (λ c. c.place) (validate_version-core u ∙ enter-core _ d entered)
      ∙ p

  pub write_entry :
      (d : Disk) {e : Disk}
      → d.place ≡ dir
      → run_entry o rs (record { state = ""; f = write_version o rs }) d ≡ (ok tt, e)
      → IsWritten e
  unfolding write_version modify
  write_entry d {e} p h =
      let (u, entered, ran) = run_entry-eq-ok _ d h in
      let up : u.place ≡ dir = ap (λ c. c.place) (enter-core _ d entered) ∙ p in
      subst IsWritten (ap (λ x. x.1) ran) (record { place = up; version_file = refl })

  pub download_entry :
      (d : Disk) {e : Disk}
      → IsWritten d
      → run_entry o rs (record { state = "Downloading"; f = download_all o rs }) d ≡ (ok tt, e)
      → IsWritten e
  download_entry d {e} w h =
      let (u, entered, ran) = run_entry-eq-ok _ d h in
      let same = enter-core _ d entered in
      let kept : outline e ≡ outline u = sym (ap (λ x. outline x.1) ran) ∙ download_all-outline u in
      record {
        place = ap (λ l. l.place) kept ∙ ap (λ c. c.place) same ∙ w.place;
        version_file =
            ap (λ l. l.version_file) kept
            ∙ ap (λ c. c.version_file) same
            ∙ w.version_file
            ∙ sym (ap (λ c. c.asks) same)
            ∙ sym
                (ap (λ l. some (record { version = l.pkg.k3s_version; archs = l.pkg.archs })) kept);
      }

  pub done_entry :
      (d : Disk) {e : Disk}
      → IsWritten d
      → run_entry o rs (record { state = ""; f = mark_done o rs }) d ≡ (ok tt, e)
      → IsWritten e × (e.done ≡ true)
  unfolding mark_done modify
  done_entry d {e} w h =
      let (u, entered, ran) = run_entry-eq-ok _ d h in
      let same = enter-core _ d entered in
      subst (λ x. IsWritten x × (x.done ≡ true)) (ap (λ x. x.1) ran)
        (
          record {
            place = ap (λ c. c.place) same ∙ w.place;
            version_file =
                ap (λ c. c.version_file) same ∙ w.version_file ∙ sym (ap (λ c. c.asks) same);
          },
          refl,
        )

  pub run_entries-nil : (n : ℕ) (d : Disk) {e : Disk} → run_entries o rs n [] d ≡ (ok tt, e) → d ≡ e
  unfolding run_entries pure
  run_entries-nil n d h = ap (λ x. x.1) h
