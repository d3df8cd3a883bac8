-- ===== src/Cluster/Checks/Masters.antt =====
-- What the checks mean for the masters of a new cluster.
use autok3s.Base.{
  String, true, false, ◌||◌, some, ◌≡◌, ap, ◌∙◌, arith, ◌==◌, ok, is_set, Bool-cases, inl, inr,
  any_prefix,
}
use autok3s.Types.{Node, Metadata, Cluster}
use autok3s.Cluster.Commands.{get_run_args}
use autok3s.Cluster.Commands.Mode.{get_run_args_mode}
use autok3s.Cluster.Commands.Store.{run_args-endpoint}
use autok3s.Cluster.World.{ProviderBase}
use autok3s.Cluster.Checks.{Facts, ℤ, atoi, above, refuse, number, check_numbers, check_create_args}

-- The numbers have been checked.
create-numbers :
    (facts : Facts) (p : ProviderBase)
    → (p.provider == "native") ≡ false
    → check_create_args facts p ≡ ok tt
    → check_numbers p ≡ ok tt
unfolding check_create_args refuse
create-numbers facts p native h = ground arith

numbers-store :
    (p : ProviderBase) (n : ℤ)
    → (p.provider == "k3d") ≡ false
    → atoi p.master ≡ some n
    → above 1 n ≡ true
    → check_numbers p ≡ ok tt
    → (p.cluster || is_set p.data_store) ≡ true
unfolding check_numbers number
numbers-store p n k3d masters many h = ground arith

-- When a cluster of several masters has passed the checks, of any provider but native and k3d, every
-- master but the first joins the first one or is pointed to an external datastore: none of them starts
-- a cluster of its own.
pub checked_masters_join :
    (facts : Facts) (p : ProviderBase) (k : ℤ) (c : Cluster) (n : Node) (ip : String)
    → (p.provider == "native") ≡ false
    → (p.provider == "k3d") ≡ false
    → atoi p.master ≡ some k
    → above 1 k ≡ true
    → check_create_args facts p ≡ ok tt
    → c.metadata ≡ p.metadata
    → n.master ≡ true
    → let args = get_run_args false ip c n in
      (any_prefix "--server=" args || any_prefix "--datastore-endpoint=" args) ≡ true
checked_masters_join facts p k c n ip native k3d masters many checked same is_master =
    let kept = numbers-store p k k3d masters many (create-numbers facts p native checked) in
    let here : (c.cluster || is_set c.data_store) ≡ true =
      ap (λ (d : Metadata). d.cluster || is_set d.data_store) same ∙ kept in
    elim (Bool-cases (is_set c.data_store)) [
      | inl stored ↦ ground (arith, run_args-endpoint false ip c n is_master stored)
      | inr plain ↦ ground (arith, (get_run_args_mode false ip c n).1)
    ]
