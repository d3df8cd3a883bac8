-- ===== src/Airgap/Prepare/Outcome.antt =====
-- What `PreparePackage` gives for the path of a package, and what it leaves on this machine.
use autok3s.Base.{
  String, Bool, true, false, ◌&&◌, List, [], Option, none, some, ◌≡◌, ◌≢◌, refl, sym, ap, ◌∙◌,
  subst, arith, eq_iff, ◌⊎◌, inl, inr, ◌==◌, ◌<>◌, if◌then◌else◌, Result, ok, err, panic, is_set,
  lookup, put, lookup-put,
}
use autok3s.Base.Exec.{◌>>=◌}
use autok3s.Airgap.Archs.{Version}
use autok3s.Types.{Cluster, Package}
use autok3s.Airgap.Disk.{Files, version_and_base_path, found_version}
use autok3s.Airgap.Verify.{verify_archs, verified, verify_files}
use autok3s.Airgap.Prepare.{
  Item, archive, tree, Local, Members, Machine, mount, temp_dir, tree_at, read_to_tmp, read_result,
  append_all_outside, read_members, after_read, prepare_item, settle, check_files, prepare_archive,
  prepare_path, prepare_package, dirs_of, append_files,
}

take_else :
    {A : Type 0} (a b : Bool) (x y z : A)
    → b ≡ false
    → (if a && b then x else if b then y else z) ≡ z
take_else a b x y z h = ground arith

not_empty : (s : String) → is_set s ≡ true → (s == "") ≡ false
not_empty s h = ground arith

some_inj : {A : Type 0} {a b : A} → some a ≡ some b → a ≡ b
some_inj h = ground arith

ok_inj : {A : Type 0} {a b : A} → Result.ok a ≡ ok b → a ≡ b
ok_inj h = ground arith

module _ (o : Machine) where
  -- The package that is found at a path: its files pass the check.
  abbrev pub IsChecked : Package → String → Local → Type 0
  IsChecked pkg path l =
      (pkg.name ≡ "")
      × (pkg.file_path ≡ path)
      × (verify_archs o.outside o.resources (dirs_of (tree_at o path l)) pkg.archs ≡ ok tt)

  verified-eq-ok :
      (v : Option Version) (dirs : List (String × Files)) {pkg : Package}
      → verified o.outside o.resources v dirs ≡ ok pkg
      → (pkg.name ≡ "") × (verify_archs o.outside o.resources dirs pkg.archs ≡ ok tt)
  unfolding verified
  verified-eq-ok none dirs h = ground arith
  verified-eq-ok (some v) dirs h = ground arith

  mounted-eq-ok :
      (t : Files) {pkg : Package}
      → (verify_files o.outside o.resources (mount o t)).0 ≡ ok pkg
      → (pkg.name ≡ "") × (verify_archs o.outside o.resources (dirs_of t) pkg.archs ≡ ok tt)
  unfolding mount verify_files version_and_base_path ◌>>=◌
  mounted-eq-ok t h = verified-eq-ok (found_version (mount o t)) (dirs_of t) h

  IsChecked-eq-ok :
      (x : Result Package) (tmp path : String) (l : Local) {r : Option Package} {l' : Local}
      → ((pkg : Package)
          → x ≡ ok pkg
          → (pkg.name ≡ "")
            × (verify_archs o.outside o.resources (dirs_of (tree_at o path l)) pkg.archs ≡ ok tt))
      → settle o tmp path x l ≡ (ok r, l')
      → (l' ≡ l) × (pkg : Package) × (r ≡ some pkg) × IsChecked pkg path l
  IsChecked-eq-ok (ok pkg) tmp path l {r} {l'} k h =
      let (named, sound) = k pkg refl in
      (
        sym (ap (λ x. x.1) h),
        record pkg { file_path = path },
        sym (ok_inj (ap (λ x. x.0) h)),
        (named, refl, sound),
      )
  IsChecked-eq-ok (err e) tmp path l k h = ground arith
  IsChecked-eq-ok panic tmp path l k h = ground arith

  check_files-eq-ok :
      (tmp path : String) (l : Local) {r : Option Package} {l' : Local}
      → check_files o tmp path l ≡ (ok r, l')
      → (l' ≡ l) × (pkg : Package) × (r ≡ some pkg) × IsChecked pkg path l
  unfolding check_files
  check_files-eq-ok tmp path l {r} {l'} h =
      IsChecked-eq-ok _ tmp path l (λ pkg e. mounted-eq-ok (tree_at o path l) e) h

  abbrev temp_of : String → String
  temp_of cluster_name = temp_dir o ("cluster-" <> cluster_name)

  -- Nothing else is changed on this machine.
  abbrev pub Elsewhere : String → Local → Local → Type 0
  Elsewhere temp l l' = (j : String) → j ≢ temp → lookup j l' ≡ lookup j l

  put-Elsewhere : (temp : String) (i : Item) (l : Local) → Elsewhere temp l (put temp i l)
  put-Elsewhere temp i l j n = ground (arith, lookup-put temp j i l, eq_iff j temp)

  -- The packages that `PreparePackage` finds at a path, in one of its two places.
  abbrev pub Found : String → String → Local → Option Package → Local → Type 0
  Found path cluster_name l r l' =
      (pkg : Package) × (r ≡ some pkg)
      × ((IsChecked pkg path l' × (l' ≡ l)) ⊎ IsChecked pkg (temp_of cluster_name) l')
      × Elsewhere (temp_of cluster_name) l l'

  read_ok :
      (failure : Option String) (path cluster_name : String) (l u : Local) {r : Option Package}
      {l' : Local}
      → Elsewhere (temp_of cluster_name) l u
      → after_read o (read_result o failure (temp_of cluster_name)) u ≡ (ok r, l')
      → Found path cluster_name l r l'
  read_ok none path cluster_name l u k h =
      let (same, pkg, e, checked) =
        check_files-eq-ok (temp_of cluster_name) (temp_of cluster_name) u h in
      (
        pkg,
        e,
        inr (subst (IsChecked pkg (temp_of cluster_name)) (sym same) checked),
        λ j n. ap (lookup j) same ∙ k j n,
      )
  read_ok (some e) path cluster_name l u k h = ground arith

  -- No member of the archive is placed outside of the temporary directory.
  abbrev pub StaysInside : String → String → Local → Type 0
  StaysInside path cluster_name l =
      (content : String) (m : Members)
      → lookup path l ≡ some (archive content)
      → o.unpack (temp_of cluster_name) content ≡ some m
      → m.outside ≡ []

  archive-eq-ok :
      (m : Option Members) (path cluster_name : String) (l : Local) {r : Option Package}
      {l' : Local}
      → ((found : Members) → m ≡ some found → found.outside ≡ [])
      → (let (x, u) = read_members o m (temp_of cluster_name) l in after_read o x u) ≡ (ok r, l')
      → Found path cluster_name l r l'
  unfolding append_all_outside
  archive-eq-ok none path cluster_name l inside h = ground arith
  archive-eq-ok (some m) path cluster_name l {r} {l'} inside h =
      read_ok m.failure path cluster_name l _
        (put-Elsewhere (temp_of cluster_name)
          (tree (append_files m.files (tree_at o (temp_of cluster_name) l))) l)
        (subst
          (λ fs.
            after_read o (read_result o m.failure (temp_of cluster_name)) (
              append_all_outside (temp_of cluster_name) fs (
                put (temp_of cluster_name)
                  (tree (append_files m.files (tree_at o (temp_of cluster_name) l))) l))
            ≡ (ok r, l'))
          (inside m refl) h)

  item-eq-ok :
      (i : Option Item) (path cluster_name : String) (l : Local) {r : Option Package} {l' : Local}
      → ((content : String) (m : Members)
          → i ≡ some (archive content)
          → o.unpack (temp_of cluster_name) content ≡ some m
          → m.outside ≡ [])
      → prepare_item o i path cluster_name l ≡ (ok r, l')
      → Found path cluster_name l r l'
  unfolding prepare_item prepare_archive read_to_tmp
  item-eq-ok none path cluster_name l inside h = ground arith
  item-eq-ok (some (archive content)) path cluster_name l inside h =
      archive-eq-ok (o.unpack (temp_of cluster_name) content) path cluster_name l
        (λ m e. inside content m refl e) h
  item-eq-ok (some (tree t)) path cluster_name l inside h =
      let (same, pkg, e, checked) = check_files-eq-ok "" path l h in
      (pkg, e, inl (subst (IsChecked pkg path) (sym same) checked, same), λ j n. ap (lookup j) same)

  -- For a cluster with the path of a package, which is not an archive with members that lie outside of the
  -- directory that it is unpacked into, a call that succeeds gives a package without a name whose
  -- files have passed the check. It stands at that path, and nothing has changed, or in the temporary
  -- directory of the cluster, and nothing else has changed.
  pub prepare_package_sound :
      (c : Cluster) (l : Local) {r : Option Package} {l' : Local}
      → is_set c.package_path ≡ true
      → StaysInside c.package_path c.name l
      → prepare_package o c l ≡ (ok r, l')
      → Found c.package_path c.name l r l'
  unfolding prepare_package prepare_path
  prepare_package_sound c l set inside h =
      item-eq-ok (lookup c.package_path l) c.package_path c.name l inside (
        sym (
          take_else (c.package_name == "") (c.package_path == "") _ _ _
            (not_empty c.package_path set))
        ∙ h)

  -- A directory is used where it stands.
  pub prepare_directory :
      (c : Cluster) (l : Local) (t : Files) {pkg : Package} {l' : Local}
      → is_set c.package_path ≡ true
      → lookup c.package_path l ≡ some (tree t)
      → prepare_package o c l ≡ (ok (some pkg), l')
      → (pkg.name ≡ "") × (pkg.file_path ≡ c.package_path)
  unfolding prepare_package prepare_path prepare_item
  prepare_directory c l t {pkg} {l'} set at h =
      let path = c.package_path in
      let taken =
        sym (take_else (c.package_name == "") (path == "") _ _ _ (not_empty path set)) ∙ h in
      let (_, pkg', e, (named, placed, _)) = check_files-eq-ok "" path l (rw at at taken) in
      let same = some_inj e in (ap (λ x. x.name) same ∙ named, ap (λ x. x.file_path) same ∙ placed)
