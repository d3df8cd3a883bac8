-- ===== src/Cluster/Lifecycle/Failed.antt =====
-- Which workers stay in the row of a cluster, and which instances are handed to the rollback.
use autok3s.Base.{
  String, Bool, true, false, not, ◌||◌, List, [], ◌∷◌, Option, none, some, ◌≡◌, refl, sym, ap, ◌∙◌,
  arith, if◌then◌else◌, map, null, contains, is_some, lookup, Bool-cases, inl, inr,
}
use autok3s.Types.{Node, Cluster}
use autok3s.Cluster.World.{ProviderBase}
use autok3s.Cluster.Lifecycle.{
  Site, Answers, without_errors, rollback_ids, rollback_cluster, after_rollback, clear_context,
  set_failed, saved_or_new, converted, remove_failed, save_row, save_status, finish_create,
}

-- The nodes whose IDs are not among these.
abbrev pub other_than : List String → List Node → List Node
other_than ids [] = []
other_than ids (n ∷ ns) =
    let rest = other_than ids ns in if contains ids n.instance_id then rest else n ∷ rest

keys-lookup :
    (id : String) (m : List (String × String))
    → contains (map (λ e. e.0) m) id ≡ is_some (lookup id m)
unfolding contains lookup
keys-lookup id [] = refl
keys-lookup id ((k, v) ∷ m) = ground (arith, keys-lookup id m)

pub without_errors-keys :
    (m : List (String × String)) (ns : List Node)
    → without_errors m ns ≡ other_than (map (λ e. e.0) m) ns
unfolding without_errors
without_errors-keys m [] = refl
without_errors-keys m (n ∷ ns) =
    rw (keys-lookup n.instance_id m) (rw (without_errors-keys m ns) refl)

take_then : {A : Type 0} (a b : Bool) (x y : A) → b ≡ true → (if a || b then x else y) ≡ x
take_then a b x y h = ground arith

null-nil : {A : Type 0} (xs : List A) → null xs ≡ true → xs ≡ []
null-nil [] h = refl
null-nil (x ∷ xs) h = ground arith

module _ (p : ProviderBase) (options : String) (a : Answers) where
  remove_failed-workers :
      (m : List (String × String)) (c : Cluster)
      → null m ≡ false
      → (remove_failed p options a m c).worker_nodes ≡ without_errors m c.worker_nodes
  unfolding remove_failed without_errors
  remove_failed-workers m c h = elim (Bool-cases (null c.worker_nodes)) [
    | inl e ↦
        rw (h, e)
          (null-nil c.worker_nodes e ∙ sym (ap (without_errors m) (null-nil c.worker_nodes e)))
    | inr e ↦ rw (h, e) refl
  ]

  remove_failed-masters :
      (m : List (String × String)) (c : Cluster)
      → ((remove_failed p options a m c).master_nodes ≡ c.master_nodes)
        × ((remove_failed p options a m c).status ≡ c.status)
  unfolding remove_failed
  remove_failed-masters m c = ground arith

  clear_context-row :
      (s : Site)
      → ((clear_context p options a s).1.row ≡ s.row)
        × ((clear_context p options a s).1.rolled_back ≡ s.rolled_back)
  unfolding clear_context
  clear_context-row s = ground arith

  after_rollback-row :
      (r : Option String) (s : Site)
      → ((after_rollback p options a r s).1.row ≡ s.row)
        × ((after_rollback p options a r s).1.rolled_back ≡ s.rolled_back)
  unfolding after_rollback
  after_rollback-row (some e) s = (refl, refl)
  after_rollback-row none s = clear_context-row s

  rollback-site :
      (s : Site) (f : List String → Option String)
      → a.rollback ≡ some f
      → p.rollback ≡ true
      → let s' = (rollback_cluster p options a s).1 in
        (s'.row ≡ s.row) × (s'.rolled_back ≡ rollback_ids s ∷ s.rolled_back)
  unfolding rollback_cluster
  rollback-site s f back asked =
      rw (asked, back)
        (after_rollback-row (f (rollback_ids s))
          (record s { rolled_back = rollback_ids s ∷ s.rolled_back }))

  save_status-eq :
      (failed : Bool) (s : Site) (c : Cluster)
      → a.get_fails ≡ none
      → a.save_fails ≡ none
      → s.row ≡ some c
      → save_status p options a failed s ≡ record s {
        row = some (remove_failed p options a s.err_m (set_failed failed (converted a.readable c)));
      }
  unfolding save_status save_row
  save_status-eq failed s c get save at =
      rw (get, save)
        (ap
            (λ r. record s {
              row = some (
                  remove_failed p options a s.err_m
                    (set_failed failed (saved_or_new p options a r)));
            })
            at
          ∙ (unfold saved_or_new in refl))

  finish_rolls :
      (failed : Bool) (s : Site)
      → null s.err_m ≡ false
      → finish_create p options a failed s
        ≡ (rollback_cluster p options a (save_status p options a failed s)).1
  unfolding finish_create
  finish_rolls failed s h = take_then failed (not (null s.err_m)) _ _ (ap not h)

  -- If some workers have failed, and the database and the rollback answer, then the row keeps exactly
  -- the workers whose instances are not handed to the rollback; it keeps its masters, and is marked as
  -- failed if the creation itself has failed. If the provider does not take the options of the row, it
  -- keeps no nodes at all.
  pub finish_create_splits_workers :
      (failed : Bool) (s : Site) (c : Cluster) (f : List String → Option String)
      → a.get_fails ≡ none
      → a.save_fails ≡ none
      → a.rollback ≡ some f
      → p.rollback ≡ true
      → s.row ≡ some c
      → null s.err_m ≡ false
      → let s' = finish_create p options a failed s in
        (ids : List String) × (c' : Cluster) × (s'.rolled_back ≡ ids ∷ s.rolled_back)
        × (s'.row ≡ some c')
        × (c'.worker_nodes ≡ other_than ids (if a.readable then c.worker_nodes else []))
        × (c'.master_nodes ≡ (if a.readable then c.master_nodes else []))
        × (c'.status ≡ (if failed then "Failed" else c.status))
  unfolding converted
  finish_create_splits_workers failed s c f get save back asked at some_failed =
      let read = converted a.readable c in
      let c' = remove_failed p options a s.err_m (set_failed failed read) in
      let saved = record s { row = some c' } in
      let ran : finish_create p options a failed s ≡ (rollback_cluster p options a saved).1 =
        finish_rolls failed s some_failed
        ∙ ap (λ x. (rollback_cluster p options a x).1) (save_status-eq failed s c get save at) in
      let (row, handed) = rollback-site saved f back asked in
      let ids : rollback_ids saved ≡ map (λ e. e.0) s.err_m =
        unfold rollback_ids in rw some_failed refl in
      let (masters, status) = remove_failed-masters s.err_m (set_failed failed read) in
      (
        rollback_ids saved,
        c',
        ap (λ x. x.rolled_back) ran ∙ handed,
        ap (λ x. x.row) ran ∙ row,
        remove_failed-workers s.err_m (set_failed failed read) some_failed
            ∙ without_errors-keys s.err_m read.worker_nodes
            ∙ ap (λ k. other_than k read.worker_nodes) (sym ids),
        masters,
        status,
      )
