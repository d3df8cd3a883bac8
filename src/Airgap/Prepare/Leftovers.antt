-- ===== src/Airgap/Prepare/Leftovers.antt =====
-- What a failed `SaveToTmp` leaves in the temporary directory, and what the next call makes of it.
use text.Mathlib.TextLemmas.{append-nil, append_assoc}
use autok3s.Base.{
  String, Bool, false, Bool-cases, inl, inr, Option, [], ◌∷◌, none, some, ◌≡◌, refl, sym, ap, ◌∙◌,
  arith, eq_iff, eq_refl, ◌==◌, ◌<>◌, if◌then◌else◌, err, lookup, put, lookup-put, ◌&&◌,
}
use autok3s.Types.{Cluster}
use autok3s.Airgap.Disk.{Files}
use autok3s.Airgap.Prepare.{
  Item, archive, tree, append_outside, append_all_outside, Local, Members, Machine, temp_dir,
  tree_of, tree_at, read_to_tmp, append_files, append_file, content_of, text_of, check_files,
  prepare_archive, prepare_item, prepare_path, prepare_package,
}

-- All that an archive has under a name, in its order.
abbrev pub contents : String → Files → String
contents f [] = ""
contents f ((path, content) ∷ fs) = if f == path then content <> contents f fs else contents f fs

append_file-content :
    (f path content : String) (t : Files)
    → content_of f (append_file path content t)
      ≡ (if f == path then content_of f t <> content else content_of f t)
unfolding append_file
append_file-content f path content t =
    ap text_of (lookup-put path f (content_of path t <> content) t) ∙ ground (arith, eq_iff f path)

append_files-content :
    (f : String) (fs t : Files)
    → content_of f (append_files fs t) ≡ (content_of f t <> contents f fs)
unfolding append_files
append_files-content f [] t = sym (append-nil (content_of f t))
append_files-content f ((path, content) ∷ fs) t =
    append_files-content f fs (append_file path content t)
    ∙ ap (λ s. s <> contents f fs) (append_file-content f path content t)
    ∙ ground (arith, append_assoc (content_of f t) content (contents f fs))

take_else :
    {A : Type 0} (a b : Bool) (x y z : A)
    → b ≡ false
    → (if a && b then x else if b then y else z) ≡ z
take_else a b x y z h = ground arith

kept_item :
    (base key : String) (i : Item) (x : Option Item) (l rest : Local) {d : Item}
    → (base == key) ≡ false
    → lookup base l ≡ some d
    → lookup base rest ≡ some d
    → lookup base (elim x [ some i' ↦ (key, i') ∷ l | none ↦ (key, i) ∷ rest ]) ≡ some d
unfolding lookup
kept_item base key i none l rest b h k = rw b k
kept_item base key i (some i') l rest b h k = rw b h

-- What is written outside of a directory that is there leaves it as it is.
lookup-append_outside :
    (base path content : String) (l : Local) {d : Item}
    → lookup base l ≡ some d
    → lookup base (append_outside base path content l) ≡ some d
unfolding append_outside lookup
lookup-append_outside base path content [] h = ground arith
lookup-append_outside base path content ((key, i) ∷ l) h = elim (Bool-cases (base == key)) [
  | inl b ↦ rw b (rw b (rw b at h))
  | inr b ↦
      let k = rw b at h in
      rw b (kept_item base key i _ l _ b k (lookup-append_outside base path content l k))
]

lookup-append_all_outside :
    (base : String) (fs : Files) (l : Local) {d : Item}
    → lookup base l ≡ some d
    → lookup base (append_all_outside base fs l) ≡ some d
unfolding append_all_outside
lookup-append_all_outside base [] l h = h
lookup-append_all_outside base ((path, content) ∷ fs) l h =
    lookup-append_all_outside base fs (append_outside base path content l)
      (lookup-append_outside base path content l h)

module _ (o : Machine) where
  put-found :
      (path : String) (t : Files) (l : Local) → lookup path (put path (tree t) l) ≡ some (tree t)
  put-found path t l = lookup-put path path (tree t) l ∙ ground (arith, eq_refl path)

  -- The machine when the files of an archive have been written to a directory.
  abbrev pub unpacked : String → Members → Local → Local
  unpacked path m l =
      append_all_outside path m.outside
        (put path (tree (append_files m.files (tree_at o path l))) l)

  unpacked-content :
      (path f : String) (m : Members) (l : Local)
      → content_of f (tree_at o path (unpacked path m l))
        ≡ (content_of f (tree_at o path l) <> contents f m.files)
  unpacked-content path f m l =
      let t = append_files m.files (tree_at o path l) in
      ap (λ i. content_of f (tree_of o i))
        (lookup-append_all_outside path m.outside (put path (tree t) l) (put-found path t l))
      ∙ append_files-content f m.files (tree_at o path l)

  archive_fails :
      (s name e : String) (m : Members) (l : Local)
      → o.unpack (temp_dir o ("cluster-" <> name)) s ≡ some m
      → m.failure ≡ some e
      → prepare_archive o s name l ≡ (err e, unpacked (temp_dir o ("cluster-" <> name)) m l)
  unfolding prepare_archive read_to_tmp
  archive_fails s name e m l u f = rw u (rw f refl)

  archive_checks :
      (s name : String) (m : Members) (l : Local)
      → o.unpack (temp_dir o ("cluster-" <> name)) s ≡ some m
      → m.failure ≡ none
      → let temp = temp_dir o ("cluster-" <> name) in
        prepare_archive o s name l ≡ check_files o temp temp (unpacked temp m l)
  unfolding prepare_archive read_to_tmp
  archive_checks s name m l u f = rw u (rw f refl)

  -- When the reading of an archive fails, the call fails too and the temporary directory of the cluster
  -- stays, with the files read so far. When the user then gives a whole archive, its files are written
  -- behind what is there: each file that is checked has first what an earlier call left, then what the
  -- broken archive had, and then its content.
  pub prepare_after_broken_archive :
      (c : Cluster) (l : Local) (s s' e : String) (m m' : Members) (f : String)
      → (c.package_path == "") ≡ false
      → lookup c.package_path l ≡ some (archive s)
      → o.unpack (temp_dir o ("cluster-" <> c.name)) s ≡ some m
      → m.failure ≡ some e
      → o.unpack (temp_dir o ("cluster-" <> c.name)) s' ≡ some m'
      → m'.failure ≡ none
      → let temp = temp_dir o ("cluster-" <> c.name) in
        (l' : Local) × (l'' : Local) × (prepare_package o c l ≡ (err e, l'))
        × (prepare_archive o s' c.name l' ≡ check_files o temp temp l'')
        × (content_of f (tree_at o temp l'')
            ≡ ((content_of f (tree_at o temp l) <> contents f m.files) <> contents f m'.files))
  unfolding prepare_package prepare_path prepare_item
  prepare_after_broken_archive c l s s' e m m' f set at u b u' b' =
      let temp = temp_dir o ("cluster-" <> c.name) in
      let l' = unpacked temp m l in
      (
        l',
        unpacked temp m' l',
        take_else (c.package_name == "") (c.package_path == "") _ _ _ set
            ∙ rw at (archive_fails s c.name e m l u b),
        archive_checks s' c.name m' l' u' b',
        unpacked-content temp f m' l'
            ∙ ap (λ t. t <> contents f m'.files) (unpacked-content temp f m l),
      )
