-- ===== src/Airgap/Prepare.antt =====
-- pkg/airgap/file_scp.go and tarfiles.go: `PreparePackage`, which finds the package of a cluster, and
-- `SaveToTmp`, which unpacks one. A file or directory of this machine is kept under its path, and the
-- regular files of a directory under their paths in it. Failures of the file system are not modelled.
pub mod Outcome
pub mod Leftovers
pub mod Sample
pub mod Tests
use autok3s.Base.{
  String, Bool, true, false, ◌&&◌, List, [], ◌∷◌, Option, none, some, ◌==◌, ◌<>◌, if◌then◌else◌,
  Result, ok, err, panic, is_set, is_some, has_infix, split_once, lookup, put, remove, cut_prefix,
}
use autok3s.Base.Exec.{Exec, ◌>>=◌}
use autok3s.Types.{Cluster, Package}
use autok3s.Airgap.Archs.{Version}
use autok3s.Airgap.Disk.{Files, Disk, Outside, dir, files_of}
use autok3s.Airgap.Verify.{Resources, verify_files}

pub data Item : Type 0 where
  archive : String → Item
  tree : Files → Item

abbrev pub Local : Type 0
Local = List (String × Item)

-- The regular files of an archive until it ends or its reading fails. Each name is joined to the directory
-- by `filepath.Join`, which resolves `..`: what comes to lie in the directory stands under its path in it,
-- and all else under its whole path.
pub record Members : Type 0 where
  pub files : Files
  pub outside : Files
  pub failure : Option String

pub record Machine : Type 0 where
  pub outside : Outside
  pub resources : Resources
  -- the folder of the temporary packages
  pub tmp_base : String
  -- the members of a text for a directory; `none` is a text that gzip does not take
  pub unpack : String → String → Option Members
  pub decode_version : String → Option Version
  pub list_packages : String → Result (List Package)

-- Of a file that is not there, the empty text.
abbrev pub text_of : Option String → String
text_of none = ""
text_of (some s) = s

abbrev pub content_of : String → Files → String
content_of f t = text_of (lookup f t)

-- `os.OpenFile` with `O_APPEND`, and `io.Copy`.
unfoldable pub append_file : String → String → Files → Files
append_file path content t = put path (content_of path t <> content) t

unfoldable pub append_files : Files → Files → Files
append_files [] t = t
append_files ((path, content) ∷ fs) t = append_files fs (append_file path content t)

-- The directories in a tree, with the files right below each.
unfoldable pub dirs_of : Files → List (String × Files)
dirs_of [] = []
dirs_of ((path, content) ∷ t) =
    let (d, name) = split_once path b'/' in
    let rest = dirs_of t in
    if has_infix path "/" then put d (put name content (files_of d rest)) rest else rest

abbrev no_package : Package
no_package = record { name = ""; k3s_version = ""; archs = []; file_path = ""; state = "" }

-- The item with a text written behind the file at the path, if that is in it.
pub append_item : String → String → String → Item → Option Item
append_item path content key (archive s) =
    if key == path then some (archive (s <> content)) else none
append_item path content key (tree t) = elim (cut_prefix path (key <> "/")) [
  | some rest ↦ some (tree (append_file rest content t))
  | none ↦ none
]

-- The same where this machine has the path outside of `base`, and else a new file.
unfoldable pub append_outside : String → String → String → Local → Local
unfolding append_item
append_outside base path content [] = (path, archive content) ∷ []
append_outside base path content ((key, i) ∷ l) =
    let rest = append_outside base path content l in
    if base == key
    then (key, i) ∷ rest
    else elim (append_item path content key i) [ some i' ↦ (key, i') ∷ l | none ↦ (key, i) ∷ rest ]

unfoldable pub append_all_outside : String → Files → Local → Local
append_all_outside base [] l = l
append_all_outside base ((path, content) ∷ fs) l =
    append_all_outside base fs (append_outside base path content l)

module _ (o : Machine) where
  -- What `VerifyFiles` sees at the path of a directory.
  unfoldable pub mount : Files → Disk
  unfolding dirs_of
  mount t = record {
    place = dir;
    version_file = elim (lookup "version.json" t) [ none ↦ none | some s ↦ o.decode_version s ];
    done = is_some (lookup ".done" t);
    dirs = dirs_of t;
    pkg = no_package;
    row = none;
    image_list_content = "";
  }

  abbrev pub temp_dir : String → String
  temp_dir name = o.tmp_base <> ("/" <> name)

  abbrev pub tree_of : Option Item → Files
  tree_of none = []
  tree_of (some (archive s)) = []
  tree_of (some (tree t)) = t

  abbrev pub tree_at : String → Local → Files
  tree_at path l = tree_of (lookup path l)

  -- What `ReadToTmp` returns for a directory: no path if its reading fails.
  abbrev pub read_result : Option String → String → String × Option String
  read_result none path = (path, none)
  read_result (some e) path = ("", some e)

  abbrev pub read_members : Option Members → String → Local → (String × Option String) × Local
  read_members none path l = (("", some "gzip: invalid header"), put path (tree (tree_at path l)) l)
  read_members (some m) path l = (
    read_result m.failure path,
    append_all_outside path m.outside (put path (tree (append_files m.files (tree_at path l))) l),
  )

  -- `ReadToTmp`: a path and an error.
  unfoldable pub read_to_tmp : String → String → Local → (String × Option String) × Local
  unfolding append_files append_all_outside
  read_to_tmp content name l = read_members (o.unpack (temp_dir name) content) (temp_dir name) l

  -- `os.RemoveAll`, which does nothing for the empty path.
  abbrev pub remove_all : String → Local → Local
  remove_all path l = if path == "" then l else remove path l

  -- The end of `PreparePackage`, where `tmp` is empty if nothing was unpacked.
  abbrev pub settle : String → String → Result Package → Exec Local (Option Package)
  settle tmp path (ok pkg) l = (ok (some (record pkg { file_path = path })), l)
  settle tmp path (err e) l = (err e, if is_set tmp then remove_all path l else l)
  settle tmp path panic l = (panic, l)

  unfoldable pub check_files : String → String → Exec Local (Option Package)
  check_files tmp path l =
      settle tmp path (verify_files o.outside o.resources (mount (tree_at path l))).0 l

  abbrev pub after_read : String × Option String → Exec Local (Option Package)
  after_read (path, none) l = check_files path path l
  after_read (path, some e) l = (err e, remove_all path l)

  -- The branch of `PreparePackage` for a file.
  unfoldable pub prepare_archive : String → String → Exec Local (Option Package)
  prepare_archive content cluster_name l =
      let (r, l') = read_to_tmp content ("cluster-" <> cluster_name) l in after_read r l'

  -- By what `os.Lstat` finds.
  unfoldable pub prepare_item : Option Item → String → String → Exec Local (Option Package)
  prepare_item none path cluster_name l = (err "no such file or directory", l)
  prepare_item (some (archive content)) path cluster_name l = prepare_archive content cluster_name l
  prepare_item (some (tree t)) path cluster_name l = check_files "" path l

  unfoldable pub prepare_path : String → String → Exec Local (Option Package)
  prepare_path path cluster_name l = prepare_item (lookup path l) path cluster_name l

  -- `&pkgs[0]`.
  pub first_package : Result (List Package) → Result (Option Package)
  first_package (ok []) = panic
  first_package (ok (pkg ∷ pkgs)) = ok (some pkg)
  first_package (err e) = err e
  first_package panic = panic

  unfoldable pub prepare_package : Cluster → Exec Local (Option Package)
  unfolding first_package
  prepare_package c l =
      if c.package_name == "" && c.package_path == ""
      then (ok none, l)
      else if c.package_path == ""
      then (first_package (o.list_packages c.package_name), l)
      else prepare_path c.package_path c.name l
