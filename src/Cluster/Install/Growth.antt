-- ===== src/Cluster/Install/Growth.antt =====
-- Single steps of the install flow that only add to the log.
use autok3s.Base.{
  Bool, true, false, [], ◌∷◌, Option, none, some, ◌≡◌, refl, ap, sym, arith, ◌==◌, Result, ok, err,
  panic, if◌then◌else◌,
}
use autok3s.Base.Exec.{◌>>=◌, Exec, pure, modify, Steps, >>=-Steps}
use autok3s.Types.{Cluster, Package}
use autok3s.Cluster.World.{World, Action, act, keep_row, finally, removed, remove_temporary}
use autok3s.Cluster.Nodes.Effects.{Grows, Grows-IsOrder}
use autok3s.Cluster.Install.{update}

pub Grows-then :
    {A B : Type 0} (m : Exec World A) (k : A → Exec World B)
    → Steps Grows m
    → ((a : A) → Steps Grows (k a))
    → Steps Grows (m >>= k)
Grows-then = >>=-Steps Grows Grows-IsOrder

pub update-Grows : (f : Cluster → Cluster) → Steps Grows (update f)
unfolding update modify
update-Grows f w = record { done = []; log = refl; errors = λ id h. h }

pub update-cluster :
    (f : Cluster → Cluster) (w : World) {r : Result (Unit {0})} {w' : World}
    → update f w ≡ (r, w')
    → w'.cluster ≡ f w.cluster
unfolding update modify
update-cluster f w h = sym (ap (λ x. x.1.cluster) h)

pub finally-eq-ok :
    (cleanup m : Exec World Unit) (w : World) {w' : World}
    → finally cleanup m w ≡ (ok tt, w')
    → (v : World) × (m w ≡ (ok tt, v)) × ((cleanup v).1 ≡ w')
unfolding finally
finally-eq-ok cleanup m w h = let (r, v) = m w in (v, ap (λ x. (x.0, v)) h, ap (λ x. x.1) h)

pub act-Grows : (a : Action) → Steps Grows (act a)
unfolding act
act-Grows a w = record { done = a ∷ []; log = refl; errors = λ id h. h }

pub if-Grows :
    (b : Bool) (m k : Exec World Unit)
    → Steps Grows m
    → Steps Grows k
    → Steps Grows (if b then m else k)
if-Grows true m k h h' = h
if-Grows false m k h h' = h'

pub run-Grows :
    (b : Bool) (x y : Result (Unit {0}) × World) (w : World)
    → Grows w x.1
    → Grows w y.1
    → Grows w (if b then x else y).1
run-Grows true x y w h h' = h
run-Grows false x y w h h' = h'

pub keep_row-Grows : (w : World) (r : Result (Unit {0})) → Grows w (keep_row w r).1
keep_row-Grows w (ok u) = record { done = []; log = refl; errors = λ id h. h }
keep_row-Grows w (err e) = Grows-IsOrder.reflexive w
keep_row-Grows w panic = Grows-IsOrder.reflexive w

pub cleanup-Grows : (pkg : Option Package) → Steps Grows (remove_temporary pkg)
unfolding remove_temporary pure act
cleanup-Grows none = Grows-IsOrder.reflexive
cleanup-Grows (some pkg) =
    if-Grows (pkg.name == "") _ _ (act-Grows (removed pkg.file_path)) Grows-IsOrder.reflexive

pub cleanup-cluster :
    (pkg : Option Package) (w : World) → (remove_temporary pkg w).1.cluster ≡ w.cluster
unfolding remove_temporary pure act
cleanup-cluster none w = refl
cleanup-cluster (some pkg) w = ground arith
