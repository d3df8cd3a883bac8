-- ===== src/Cluster/Upgrade/Options.antt =====
-- Which package an upgrade uses, by the options of the command and the row of the cluster.
use autok3s.Base.{
  String, Bool, true, false, not, ◌||◌, ◌&&◌, Option, none, refl, Bool-cases, inl, inr, ◌≡◌, arith,
  ◌==◌, if◌then◌else◌, Result, ok, is_set,
}
use autok3s.Types.{Cluster, Package}
use autok3s.Airgap.Prepare.{Machine, Local, prepare_package, prepare_path, first_package}
use autok3s.Cluster.Upgrade.{Release, select, select_release}

module _ (machine : Machine) (name : String) (l : Local) where
  -- `prepare_package` of a cluster with this package.
  prepared : String → String → Result (Option Package) × Local
  prepared n path =
      if n == "" && path == ""
      then (ok none, l)
      else if path == ""
      then (first_package machine (machine.list_packages n), l)
      else prepare_path machine path name l

  prepared-path :
      (n path : String) → (path == "") ≡ false → prepared n path ≡ prepare_path machine path name l
  unfolding prepared
  prepared-path n path h = ground arith

  -- By the tests of the path and the name of the command, and of those in the row.
  prepared_lem :
      (a b d e : Bool) (path path₀ n n₀ : String)
      → (path == "") ≡ a
      → (path₀ == "") ≡ b
      → (n == "") ≡ d
      → (n₀ == "") ≡ e
      → prepared (if not d then n else n₀) (if not a then path else path₀) ≡ (
          if not a
          then prepare_path machine path name l
          else if not b
          then prepare_path machine path₀ name l
          else if not d
          then (first_package machine (machine.list_packages n), l)
          else if not e
          then (first_package machine (machine.list_packages n₀), l)
          else (ok none, l))
  unfolding prepared
  prepared_lem false b d e path path₀ n n₀ ha hb hd he = prepared-path _ path ha
  prepared_lem true false d e path path₀ n n₀ ha hb hd he = prepared-path _ path₀ hb
  prepared_lem true true false e path path₀ n n₀ ha hb hd he = rw (hb, hd) refl
  prepared_lem true true true false path path₀ n n₀ ha hb hd he = rw (hb, he) refl
  prepared_lem true true true true path path₀ n n₀ ha hb hd he = rw (hb, he) refl

-- An option for a release from the network means that no package is used. Else the path of the command
-- counts, then the path in the row, and only where there is no path the name of the command, and then
-- the name in the row.
pub select_package :
    (machine : Machine) (asked : Release) (c : Cluster) (l : Local)
    → prepare_package machine (select asked c) l ≡ (
        if is_set asked.install_script || is_set asked.k3s_channel || is_set asked.k3s_version
        then (ok none, l)
        else if is_set asked.package_path
        then prepare_path machine asked.package_path c.name l
        else if is_set c.package_path
        then prepare_path machine c.package_path c.name l
        else if is_set asked.package_name
        then (first_package machine (machine.list_packages asked.package_name), l)
        else if is_set c.package_name
        then (first_package machine (machine.list_packages c.package_name), l)
        else (ok none, l))
unfolding prepare_package select select_release prepared
select_package machine asked c l =
    elim (Bool-cases
      (is_set asked.install_script || is_set asked.k3s_channel || is_set asked.k3s_version)) [
        | inl online ↦ rw online refl
        | inr offline ↦ rw offline (
            prepared_lem machine c.name l (asked.package_path == "") (c.package_path == "")
              (asked.package_name == "") (c.package_name == "") asked.package_path c.package_path
              asked.package_name c.package_name refl refl refl refl)
      ]
