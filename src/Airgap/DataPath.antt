-- ===== src/Airgap/DataPath.antt =====
-- `getDataPath` of pkg/airgap/file_scp.go: the k3s data directory, read off the extra arguments.
use text.Mathlib.TextLemmas.{nil-append, cons-append}
use mathlib.Core.List.{cons-ne-nil}
use autok3s.Base.{
  ◌∙◌, ap, ◌≢◌, clash, has_prefix_of_clash, has_prefix-append, split-join, join, Lacks, AllLack,
  AllLack-append, Lacks-append, String, Bool, false, ◌||◌, List, [], ◌∷◌, ◌++◌, Option, none, some,
  ◌≡◌, refl, arith, ◌<>◌, if◌then◌else◌, has_prefix, cut_prefix, split, code, same_code, is_set,
}

abbrev pub default_data_dir_path : String
default_data_dir_path = "/var/lib/rancher/k3s"

-- The prefix that the two tests of the loop leave in `prefix`, empty if neither fits.
arg_prefix : String → String
arg_prefix arg =
    if has_prefix arg "-d" then "-d" else if has_prefix arg "--data-dir" then "--data-dir" else ""

-- The rest of the loop on an argument that has the prefix; `rest` is what follows the prefix in the
-- argument, and `next` the arguments behind it.
take_value : Option String → List String → String
take_value none next = default_data_dir_path
take_value (some String.[]) [] = default_data_dir_path
take_value (some String.[]) (arg ∷ args) = arg
take_value (some (String.◌∷◌ c s)) next =
    if same_code (code c) b'=' then s else default_data_dir_path

data_path_of : List String → String
data_path_of [] = default_data_dir_path
data_path_of (arg ∷ args) =
    let rest = data_path_of args in
    let found = take_value (cut_prefix arg (arg_prefix arg)) args in
    if is_set (arg_prefix arg) then found else rest

pub get_data_path : String → String
unfolding data_path_of arg_prefix take_value cut_prefix has_prefix
get_data_path extra_args = data_path_of (split extra_args b' ')

abbrev pub is_data_dir : String → Bool
is_data_dir arg = has_prefix arg "-d" || has_prefix arg "--data-dir"

-- An argument list in which none has one of the prefixes.
abbrev pub NoDataDir : List String → Type 0
NoDataDir [] = Unit
NoDataDir (arg ∷ args) = (is_data_dir arg ≡ false) × NoDataDir args

arg_prefix_unset : (arg : String) → is_data_dir arg ≡ false → arg_prefix arg ≡ ""
unfolding arg_prefix
arg_prefix_unset arg h = ground (arith)

skip_others :
    (before args : List String)
    → NoDataDir before
    → data_path_of (before ++ args) ≡ data_path_of args
unfolding data_path_of
skip_others [] args h = refl
skip_others (arg ∷ before) args (n, h) = rw (arg_prefix_unset arg n) (skip_others before args h)

-- `--data-dir` followed by anything: the first test fails and the second passes.
data_dir_prefix : (s : String) → arg_prefix ("--data-dir" <> s) ≡ "--data-dir"
unfolding arg_prefix has_prefix clash
data_dir_prefix s =
    ground (arith, has_prefix_of_clash "--data-dir" s "-d" refl, has_prefix-append "--data-dir" s)

cut_prefix-append : (p s : String) → cut_prefix (p <> s) p ≡ some s
unfolding cut_prefix
cut_prefix-append String.[] s = rw nil-append
cut_prefix-append (String.◌∷◌ c p) s = rw cons-append (ground (arith, cut_prefix-append p s))

take_equals : (v : String) (args : List String) → take_value (some ("=" <> v)) args ≡ v
unfolding take_value
take_equals v args = rw (cons-append, nil-append)

data_path_step :
    (s : String) (args : List String)
    → data_path_of (("--data-dir" <> s) ∷ args) ≡ take_value (some s) args
unfolding data_path_of
data_path_step s args = rw (data_dir_prefix s, cut_prefix-append "--data-dir" s)

take_word : (v : String) (args : List String) → take_value (some "") (v ∷ args) ≡ v
unfolding take_value
take_word v args = refl

module _ (before after : List String) (v : String) (none_before : NoDataDir before) where
  data_path_equals : data_path_of (before ++ ("--data-dir" <> ("=" <> v)) ∷ after) ≡ v
  data_path_equals =
      skip_others before _ none_before ∙ data_path_step ("=" <> v) after ∙ take_equals v after

  data_path_word : data_path_of (before ++ "--data-dir" ∷ v ∷ after) ≡ v
  data_path_word =
      skip_others before _ none_before ∙ data_path_step "" (v ∷ after) ∙ take_word v after

data_path_absent : (args : List String) → NoDataDir args → data_path_of args ≡ default_data_dir_path
unfolding data_path_of
data_path_absent [] h = refl
data_path_absent (arg ∷ args) (n, h) = rw (arg_prefix_unset arg n) (data_path_absent args h)

append-ne-nil : {A : Type 0} (xs : List A) (y : A) (ys : List A) → xs ++ y ∷ ys ≢ []
append-ne-nil [] y ys = cons-ne-nil y ys
append-ne-nil (x ∷ xs) y ys = cons-ne-nil x (xs ++ y ∷ ys)

get_data_path-join :
    (args : List String)
    → args ≢ []
    → AllLack " " args
    → get_data_path (join args " ") ≡ data_path_of args
unfolding get_data_path
get_data_path-join args n h = ap data_path_of (split-join " " args n h)

get_data_path_empty : get_data_path "" ≡ default_data_dir_path
unfolding get_data_path split
get_data_path_empty = refl

get_data_path_absent :
    (args : List String)
    → NoDataDir args
    → AllLack " " args
    → get_data_path (join args " ") ≡ default_data_dir_path
get_data_path_absent [] n h = unfold join in get_data_path_empty
get_data_path_absent (x ∷ args) n h =
    get_data_path-join (x ∷ args) (cons-ne-nil x args) h ∙ data_path_absent (x ∷ args) n

-- For arguments joined by single spaces, none of which holds a space, where none before it looks like
-- the option: `--data-dir=v` and `--data-dir v` both give `v`, and without the option the path is k3s's
-- default.
pub get_data_path_lem :
    (before after : List String) (v : String)
    → NoDataDir before
    → AllLack " " before
    → AllLack " " after
    → Lacks " " v
    → (get_data_path (join (before ++ ("--data-dir" <> ("=" <> v)) ∷ after) " ") ≡ v)
      × (get_data_path (join (before ++ "--data-dir" ∷ v ∷ after) " ") ≡ v)
      × (get_data_path (join before " ") ≡ default_data_dir_path)
get_data_path_lem before after v n hb ha hv =
    let option : Lacks " " "--data-dir" = ground arith in
    let value = Lacks-append " " "=" v (ground arith) hv in
    (
      get_data_path-join _ (append-ne-nil before _ after) (
            AllLack-append " " before _ hb
              (Lacks-append " " "--data-dir" ("=" <> v) option value, ha))
          ∙ data_path_equals before after v n,
      get_data_path-join _ (append-ne-nil before _ (v ∷ after))
            (AllLack-append " " before _ hb (option, (hv, ha)))
          ∙ data_path_word before after v n,
      get_data_path_absent before n hb,
    )
