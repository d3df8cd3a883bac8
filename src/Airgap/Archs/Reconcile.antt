-- ===== src/Airgap/Archs/Reconcile.antt =====
-- What `GetArchDiff` and `version.diff` promise: taking `del` away and adding `add` gives the target.
use mathlib.Core.Bool.{or-false}
use autok3s.Base.{
  ◌∙◌, eq_refl, String, false, not, ◌&&◌, ◌||◌, List, [], ◌∷◌, ◌++◌, Option, none, some, ◌≡◌, refl,
  arith, ◌==◌, eq_iff, if◌then◌else◌, contains, contains-append, contains-add_key,
  contains-delete_key, delete_key, add_key, Distinct,
}
use autok3s.Types.{Package}
use autok3s.Airgap.Archs.{Version, mark, diff_loop, get_arch_diff, diff}

-- The directories that are left when those in `del` are removed.
unfoldable pub without : List String → List String → List String
without del [] = []
without del (x ∷ xs) = let rest = without del xs in if contains del x then rest else x ∷ rest

contains-without :
    (del xs : List String) (a : String)
    → contains (without del xs) a ≡ (contains xs a && not (contains del a))
unfolding contains without
contains-without del [] a = refl
contains-without del (x ∷ xs) a = ground (arith, contains-without del xs a, eq_iff a x)

contains-mark :
    (current keys : List String) (a : String)
    → contains (mark current keys) a ≡ (contains current a || contains keys a)
unfolding contains mark
contains-mark [] keys a = refl
contains-mark (x ∷ current) keys a =
    ground (arith, contains-mark current (add_key x keys) a, contains-add_key x keys a)

abbrev step_keys : String → List String → List String
step_keys arch keys = if contains keys arch then delete_key arch keys else keys

abbrev step_add : String → List String → List String → List String
step_add arch keys add = if contains keys arch then add else add ++ arch ∷ []

contains-step_keys :
    (arch : String) (keys : List String) (a : String)
    → contains (step_keys arch keys) a ≡ (contains keys a && not (a == arch))
contains-step_keys arch keys a = ground (arith, contains-delete_key arch keys a, eq_iff a arch)

contains-step_add :
    (arch : String) (keys add : List String) (a : String)
    → contains (step_add arch keys add) a
      ≡ (contains add a || a == arch && not (contains keys arch))
unfolding contains
contains-step_add arch keys add a = ground (arith, contains-append add (arch ∷ []) a)

del-diff_loop :
    (target keys add : List String) (a : String)
    → contains (diff_loop target keys add).1 a ≡ (contains keys a && not (contains target a))
unfolding contains diff_loop
del-diff_loop [] keys add a = ground arith
del-diff_loop (x ∷ target) keys add a = ground (
  arith,
  del-diff_loop target (step_keys x keys) (step_add x keys add) a,
  contains-step_keys x keys a,
)

add-diff_loop :
    (target keys add : List String) (a : String)
    → Distinct target
    → contains (diff_loop target keys add).0 a
      ≡ (contains add a || contains target a && not (contains keys a))
unfolding contains diff_loop
add-diff_loop [] keys add a h = ground arith
add-diff_loop (x ∷ target) keys add a (n, h) = ground (
  arith,
  add-diff_loop target (step_keys x keys) (step_add x keys add) a h,
  contains-step_keys x keys a,
  contains-step_add x keys add a,
  eq_iff a x,
)

-- Whatever repeats, nothing outside the target is added, and what the target has is added or kept.
reach-diff_loop :
    (target keys add : List String) (a : String)
    → ((contains (diff_loop target keys add).0 a || contains keys a && contains target a)
        ≡ (contains add a || contains target a))
unfolding contains diff_loop
reach-diff_loop [] keys add a = ground arith
reach-diff_loop (x ∷ target) keys add a = ground (
  arith,
  reach-diff_loop target (step_keys x keys) (step_add x keys add) a,
  contains-step_keys x keys a,
  contains-step_add x keys add a,
  eq_iff a x,
)

module _ (current target : List String) where
  contains-marked : (a : String) → contains (mark current []) a ≡ contains current a
  unfolding contains
  contains-marked a = contains-mark current [] a ∙ or-false (contains current a)

  -- For a target without repetitions, `add` has exactly the names that are new in it, and `del`
  -- exactly those that it no longer has.
  pub get_arch_diff_exact :
      (a : String)
      → Distinct target
      → (contains (get_arch_diff current target).0 a
          ≡ (contains target a && not (contains current a)))
        × (contains (get_arch_diff current target).1 a
            ≡ (contains current a && not (contains target a)))
  unfolding get_arch_diff contains
  get_arch_diff_exact a h = (
    ground (arith, add-diff_loop target (mark current []) [] a h, contains-marked a),
    ground (arith, del-diff_loop target (mark current []) [] a, contains-marked a),
  )

  reconcile_archs :
      (a : String)
      → contains
          (without (get_arch_diff current target).1 current ++ (get_arch_diff current target).0)
          a
        ≡ contains target a
  unfolding get_arch_diff
  reconcile_archs a =
      let d = diff_loop target (mark current []) [] in
      unfold contains in
      ground (
        arith,
        contains-append (without d.1 current) d.0 a,
        contains-without d.1 current a,
        del-diff_loop target (mark current []) [] a,
        reach-diff_loop target (mark current []) [] a,
        contains-marked a,
      )

contains-without_self : (xs : List String) (a : String) → contains (without xs xs) a ≡ false
contains-without_self xs a = ground (arith, contains-without xs xs a)

abbrev pub installed : Option Version → List String
installed none = []
installed (some v) = v.archs

-- Whatever is installed, and whatever repeats, removing `toDel` and adding `toAdd` leaves exactly the
-- architectures of the package.
pub diff_reconciles :
    (v : Option Version) (pkg : Package) (a : String)
    → contains (without (diff v pkg).1 (installed v) ++ (diff v pkg).0) a ≡ contains pkg.archs a
unfolding diff
diff_reconciles none pkg a = unfold without in refl
diff_reconciles (some v) pkg a = ground (
  arith,
  reconcile_archs v.archs pkg.archs a,
  contains-append (without v.archs v.archs) pkg.archs a,
  contains-without_self v.archs a,
)

nil_of_not-contains : (xs : List String) → ((a : String) → contains xs a ≡ false) → xs ≡ []
unfolding contains
nil_of_not-contains [] h = refl
nil_of_not-contains (x ∷ xs) h = ground (arith, h x, eq_refl x)

-- A package that has what its version file says has nothing to add or remove.
pub diff_same :
    (pkg : Package)
    → Distinct pkg.archs
    → diff (some (record { version = pkg.k3s_version; archs = pkg.archs })) pkg ≡ ([], [])
unfolding diff
diff_same pkg h =
    let d = get_arch_diff pkg.archs pkg.archs in
    let add_nil : d.0 ≡ [] =
      nil_of_not-contains d.0 (λ a. ground (arith, get_arch_diff_exact pkg.archs pkg.archs a h)) in
    let del_nil : d.1 ≡ [] =
      nil_of_not-contains d.1 (λ a. ground (arith, get_arch_diff_exact pkg.archs pkg.archs a h)) in
    rw eq_refl (λ i. (add_nil i, del_nil i))
