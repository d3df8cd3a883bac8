-- ===== src/Cluster/Checks.antt =====
-- pkg/cluster/base.go: `CheckCreateArgs` and `CheckJoinArgs`, the checks of the options before a cluster
-- is created or gets nodes. What the database, the provider and the file system know is a parameter.
pub mod Masters
mod Tests
use autok3s.Base.{
  String, Bool, true, false, not, ◌&&◌, ◌||◌, ℕ, zero, suc, ◌+◌, ◌-◌, ◌*◌, Option, none, some, ◌==◌,
  if◌then◌else◌, Result, ok, err, panic, ◌>>=◌, ◌>>◌, leb, ltb, code, Char, is_set, has_infix,
}
use autok3s.Cluster.World.{ProviderBase}

-- The digits behind `n`.
digits : ℕ → String → Option ℕ
digits n String.[] = some n
digits n (String.◌∷◌ c s) =
    let rest = digits (10 * n + (code c - 48)) s in
    if leb 48 (code c) && leb (code c) 57 then rest else none

pub data ℤ : Type 0 where
  pos negsuc : ℕ → ℤ

unsigned : String → Option ℕ
unfolding digits
unsigned String.[] = none
unsigned (String.◌∷◌ c s) = digits 0 (String.◌∷◌ c s)

negate : ℕ → ℤ
negate zero = pos zero
negate (suc n) = negsuc n

-- The number with its sign, if it is an `int` of 64 bits.
signed : Bool → Option ℕ → Option ℤ
unfolding negate
signed negative none = none
signed true (some n) = if leb n 9223372036854775808 then some (negate n) else none
signed false (some n) = if leb n 9223372036854775807 then some (pos n) else none

-- `strconv.Atoi`, with `none` for its errors.
pub atoi : String → Option ℤ
unfolding unsigned signed
atoi String.[] = none
atoi (String.◌∷◌ c s) =
    if String.◌∷◌ c String.[] == "-"
    then signed true (unsigned s)
    else if String.◌∷◌ c String.[] == "+"
    then signed false (unsigned s)
    else signed false (unsigned (String.◌∷◌ c s))

-- `k < n`.
abbrev pub above : ℕ → ℤ → Bool
above k (pos n) = ltb k n
above k (negsuc n) = false

pub record Facts : Type 0 where
  -- the status in the row of the cluster, if there is one
  pub get_cluster : Result (Option String)
  pub check_cluster_exist : Result Bool
  pub is_file_exists : String → Bool

-- `if test { return err }`.
abbrev pub refuse : Bool → String → Result (Unit {0})
refuse true e = err e
refuse false e = ok tt

pub number : String → String → Result ℤ
number s e = elim (atoi s) [ none ↦ err e | some n ↦ ok n ]

abbrev duplicated : ProviderBase → Bool
duplicated p = has_infix p.master_extra_args "--datastore-endpoint" && is_set p.data_store

-- The checks of the numbers, for every provider but native.
check_numbers : ProviderBase → Result (Unit {0})
unfolding number
check_numbers p = do
  masters ← number p.master "`--master` number must >= 1"
  refuse (not (above 0 masters)) "`--master` number must >= 1"
  refuse (not (p.provider == "k3d") && above 1 masters && not p.cluster && p.data_store == "")
      "need to set `--cluster` or `--datastore` when `--master` number > 1"
  refuse (not (p.provider == "k3d") && duplicated p)
      "`--masterExtraArgs='--datastore-endpoint'` is duplicated with `--datastore`"
  workers ← number p.worker "`--worker` must be number"
  ok tt

is_taken : Option String → Bool
is_taken none = false
is_taken (some status) = not (status == "Failed")

check_file : Facts → String → String → Result (Unit {0})
check_file facts path flag = refuse (is_set path && not (facts.is_file_exists path)) flag

pub check_create_args : Facts → ProviderBase → Result (Unit {0})
unfolding check_numbers is_taken check_file
check_create_args facts p = do
  (if p.provider == "native" then ok tt else check_numbers p)
  row ← facts.get_cluster
  refuse (is_taken row) "cluster is already exist"
  exist ← facts.check_cluster_exist
  refuse exist "cluster is already exist"
  check_file facts p.ssh.ssh_key_path "--ssh-key-path"
  check_file facts p.ssh.ssh_cert_path "--ssh-cert-path"
  check_file facts p.registry "--registry"
  check_file facts p.data_store_ca_file "--datastore-cafile"
  check_file facts p.data_store_cert_file "--datastore-certfile"
  check_file facts p.data_store_key_file "--datastore-keyfile"

join_numbers : ProviderBase → Result (Unit {0})
unfolding number
join_numbers p = do
  masters ← number p.master "`--master` must be number"
  refuse (above 0 masters && p.data_store == "" && not p.cluster)
      "can't join master nodes to single node cluster"
  workers ← number p.worker "`--worker` must be number"
  refuse (not (above 0 masters) && not (above 0 workers))
      "`--master` or `--worker` number must >= 1"

pub check_join_args : Facts → ProviderBase → Result (Unit {0})
unfolding join_numbers
check_join_args facts p = do
  exist ← facts.check_cluster_exist
  refuse (not exist) "cluster name do not exist"
  refuse (duplicated p)
      "`--masterExtraArgs='--datastore-endpoint'` is duplicated with `--datastore`"
  if p.provider == "native" then ok tt else join_numbers p
