-- ===== src/Manage/Deletion/Gone.antt =====
-- What is left of a cluster after `DeleteCluster` without `force`.
use autok3s.Base.{
  String, Bool, true, false, not, List, Option, none, some, if◌then◌else◌, Result, ok, err, panic,
  ◌≡◌, refl, sym, ap, subst, ◌∙◌, arith, contains, contains-delete_key, eq_refl, ok_injective,
}
use autok3s.Base.Exec.{Exec, pure, lift, >>=-eq-ok, Preserves, >>=-Preserves}
use autok3s.Types.{Cluster}
use autok3s.Cluster.World.{ProviderBase, succeeded}
use autok3s.Database.Rows.{row_at, delete_rows, row_at-delete}
use autok3s.Database.Table.{Table}
use autok3s.Database.Store.{Store}
use autok3s.Database.Keyed.{find_one-found, find_one-kept}
use autok3s.Database.ClusterState.{written, conflicts, Codec}
use autok3s.Database.Clusters.{delete_cluster}
use autok3s.Database.Clusters.Refinement.{view, perform, perform-refines, deleting, apply}
use autok3s.Database.Explorers.{
  Explorer, same_context, Machine, get_explorer, delete_explorer, disable_explorer, on_rows,
  is_explorer,
}
use autok3s.Database.Explorers.Ports.{row_of}
use autok3s.Manage.Deletion.{
  in_store, in_explorers, remove_directory, finally, tolerate, unless, Calls, World,
  clear_cfg_by_context, mark_removing, disable_if, release_explorer, delete_all, forget, confirmed,
  delete_whole_cluster,
}

-- Without force each success is one of the call.
tolerated :
    {S A : Type 0} (message : String) (value : A) (r : Result A) (s u : S) {a : A}
    → ◌≡◌ {A = Result A × S} (tolerate false message value r, s) (ok a, u)
    → ◌≡◌ {A = Result A × S} (r, s) (ok a, u)
tolerated message value (ok b) s u h = h
tolerated message value (err e) s u h = ground arith
tolerated message value panic s u h = ground arith

unless-ok :
    {S A : Type 0} (message : String) (value : A) (m : Exec S A) (s u : S) {a : A}
    → unless false message value m s ≡ (ok a, u)
    → m s ≡ (ok a, u)
unfolding unless
unless-ok message value m s u h = tolerated message value (m s).0 (m s).1 u h

module _ (p : ProviderBase) (j : Codec) (t : Table written conflicts)
    (te : Table autok3s.Database.Explorers.written same_context) (machine : Machine te.Db)
    (calls : Calls) where
  abbrev W : Type 0
  W = World p j t te machine calls

  -- What the release of the explorer leaves.
  abbrev rest : W → Store t.Db Cluster × List String
  rest s = (s.store, s.contexts)

  disable-rest : (b : Bool) → Preserves rest (disable_if p j t te machine calls b)
  unfolding disable_if unless in_explorers pure
  disable-rest false s = refl
  disable-rest true s = refl

  delete-rest :
      (message : String)
      → Preserves rest
          (unless false message tt (in_explorers (on_rows te (delete_explorer te p.context_name))))
  unfolding unless in_explorers
  delete-rest message s = refl

  deleted :
      (s u : W)
      → in_explorers (on_rows te (delete_explorer te p.context_name)) s ≡ (ok tt, u)
      → row_of te u.explorers p.context_name ≡ none
  unfolding in_explorers delete_explorer
  deleted s u h =
      let q = is_explorer p.context_name in
      let rs = te.rows s.explorers.db in
      ap (λ x. row_of te x.1.explorers p.context_name) (sym h)
      ∙ ap (row_at q) (te.delete-rows q s.explorers.db)
      ∙ ap (λ x. row_at q (if succeeded x.0 then delete_rows q rs else rs)) h
      ∙ row_at-delete q rs

  release-rest :
      (exp : Option Explorer) → Preserves rest (release_explorer p j t te machine calls false exp)
  unfolding release_explorer pure
  release-rest none s = refl
  release-rest (some exp) s =
      >>=-Preserves rest (disable_if p j t te machine calls exp.enabled) _
        (disable-rest exp.enabled) (λ x. delete-rest _) s

  release-row :
      (exp : Option Explorer) (s u : W)
      → exp ≡ row_of te s.explorers p.context_name
      → release_explorer p j t te machine calls false exp s ≡ (ok tt, u)
      → row_of te u.explorers p.context_name ≡ none
  unfolding release_explorer pure
  release-row none s u e h = ap (λ x. row_of te x.1.explorers p.context_name) (sym h) ∙ sym e
  release-row (some exp) s u e h =
      let (x, s', f, k) = >>=-eq-ok (disable_if p j t te machine calls exp.enabled) _ s h in
      deleted s' u (unless-ok _ tt _ s' u k)

  state_gone :
      (s u : W)
      → in_store (delete_cluster j t p.name p.provider) s ≡ (ok tt, u)
      → view j t u.store p.name p.provider ≡ none
  unfolding in_store perform apply
  state_gone s u h =
      ap (λ x. view j t x.1.store p.name p.provider) (sym h)
      ∙ perform-refines j t (deleting p.name p.provider) p.name p.provider s.store
      ∙ rw (ap (λ x. succeeded x.0) h) (rw (eq_refl p.name) (rw (eq_refl p.provider) refl))

  explorer_found :
      (s u : W) {found : Option Explorer}
      → in_explorers (on_rows te (get_explorer te p.context_name)) s ≡ (ok found, u)
      → (found ≡ row_of te u.explorers p.context_name) × (rest u ≡ rest s)
  unfolding in_explorers get_explorer
  explorer_found s u h = (
    find_one-found te (is_explorer p.context_name) s.explorers.db (ap (λ x. x.0) h)
        ∙ ap (row_at (is_explorer p.context_name))
            (sym (find_one-kept te (is_explorer p.context_name) s.explorers.db))
        ∙ ap (λ x. row_of te x.1.explorers p.context_name) h,
    ap (λ x. rest x.1) (sym h),
  )

  cleared :
      (context : String) (s u : W)
      → clear_cfg_by_context p j t te machine calls context s ≡ (ok tt, u)
      → contains u.contexts context ≡ false
  unfolding clear_cfg_by_context lift
  cleared context s u h =
      let (x, s', e, k) = >>=-eq-ok (lift calls.clear_cfg) _ s h in
      ap (λ y. contains y.1.contexts context) (sym k)
      ∙ contains-delete_key context s'.contexts context
      ∙ rw (eq_refl context) refl

  -- The parts of a cluster that are gone.
  abbrev pub IsGone : W → Type 0
  IsGone u =
      (view j t u.store p.name p.provider ≡ none)
      × (row_of te u.explorers p.context_name ≡ none)
      × ((context : String) → calls.delete false ≡ ok context → contains u.contexts context ≡ false)

  forget-IsGone :
      (context : String) (s u : W)
      → calls.delete false ≡ ok context
      → forget p j t te machine calls false context s ≡ (ok tt, u)
      → IsGone u
  unfolding forget in_store
  forget-IsGone context s u d h =
      let (y, s', e, k) = >>=-eq-ok _ _ s h in
      let (z, s'', e', k') = >>=-eq-ok _ _ s' k in
      let (exp, v, e'', k'') = >>=-eq-ok _ _ s'' k' in
      let (row, same) = explorer_found s'' v (unless-ok _ none _ s'' v e'') in
      let f = unless-ok _ tt (in_store (delete_cluster j t p.name p.provider)) s' s'' e' in
      let same' = ap (λ x. rest x.1) (sym k'') ∙ release-rest exp v ∙ same in
      (
        ap (λ r. view j t r.0 p.name p.provider) same' ∙ state_gone s' s'' f,
        release-row exp v u row k'',
        λ c g.
            ap (λ r. contains r.1 c) same'
            ∙ ap (λ x. contains x.1.contexts c) (sym f)
            ∙ ap (contains s'.contexts) (ok_injective (sym g ∙ d))
            ∙ cleared context s s' (unless-ok _ tt _ s s' e),
      )

  all-IsGone : (s u : W) → delete_all p j t te machine calls false s ≡ (ok tt, u) → IsGone u
  unfolding delete_all lift
  all-IsGone s u h =
      let (found, s1, e1, k1) = >>=-eq-ok _ _ s h in
      let (x, s2, e2, k2) = >>=-eq-ok (mark_removing p j t te machine calls false found) _ s1 k1 in
      let (context, s3, e3, k3) = >>=-eq-ok (lift (calls.delete false)) _ s2 k2 in
      forget-IsGone context s3 u (ap (λ x. x.0) e3) k3

  removed :
      (m : Exec W Unit) (s u : W)
      → finally remove_directory m s ≡ (ok tt, u)
      → (m s ≡ (ok tt, (m s).1)) × (record (m s).1 { directory = false } ≡ u)
  unfolding finally remove_directory
  removed m s u h = (ap (λ x. (x.0, (m s).1)) h, ap (λ x. x.1) h)

  confirmed-IsGone :
      (s u : W)
      → confirmed p j t te machine calls false s ≡ (ok tt, u)
      → IsGone u × (u.directory ≡ false)
  unfolding confirmed lift in_store
  confirmed-IsGone s u h =
      let (x, s', e, k) = >>=-eq-ok (lift calls.get_log_file) _ s h in
      let (f, g) = removed (delete_all p j t te machine calls false) s' u k in
      let gone = all-IsGone s' (delete_all p j t te machine calls false s').1 f in
      (subst IsGone g gone, ap (λ x. x.directory) (sym g))

  -- A deletion that was confirmed and succeeds without force leaves no row of the cluster and none of
  -- its kube-explorer, not its context in the kubeconfig, and not its directory.
  pub delete_whole_cluster-IsGone :
      (s u : W)
      → calls.ask_for_confirmation ≡ true
      → delete_whole_cluster p j t te machine calls false s ≡ (ok tt, u)
      → IsGone u × (u.directory ≡ false)
  unfolding delete_whole_cluster
  delete_whole_cluster-IsGone s u c h =
      confirmed-IsGone s u (
        sym (ap (λ b. if not b then (ok tt, s) else confirmed p j t te machine calls false s) c)
        ∙ h)
