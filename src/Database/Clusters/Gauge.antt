-- ===== src/Database/Clusters/Gauge.antt =====
-- The gauge of the clusters: over all its labels it counts the rows.
use autok3s.Base.{
  String, Bool, true, false, List, [], ◌∷◌, ◌++◌, Option, none, some, if◌then◌else◌, Result, ok,
  err, panic, null, eq_iff, ◌≡◌, refl, sym, ap, subst, ◌∙◌, arith, length, suc, ◌+◌, null,
}
use autok3s.Base.Exec.{pure, lift, >>=-cases}
use autok3s.Types.{Cluster}
use autok3s.Cluster.World.{succeeded}
use autok3s.Database.Rows.{first_row, has_row, row_at, save_rows, delete_rows, has_row-row_at}
use autok3s.Database.Keys.{IsUnique}
use autok3s.Database.Counts.{length-snoc, length-overwrite, delete_none, has_row-ext, has_row-where}
use autok3s.Database.Table.{Table}
use autok3s.Database.Store.{on_db, effect, incs, decs}
use autok3s.Database.ClusterState.{
  ClusterState, written, conflicts, is_named, over_cluster, over_state, Codec, cluster_state,
}
use autok3s.Database.Clusters.{
  Db, get_cluster, save_cluster, save_cluster_state, delete_cluster, create_state, update_cluster,
  delete_state, count_out, announce, count_anyway, rows_affected,
}
use autok3s.Database.Clusters.Contents.{
  rows, counted-kept, find-found, get_cluster-found, get_cluster-kept,
}

same_key :
    (n p : String) (x : ClusterState)
    → is_named n p x ≡ true
    → (y : ClusterState) → conflicts x y ≡ is_named n p y
same_key n p x h y = ground (arith, eq_iff x.name n, eq_iff x.provider p)

-- A row of a table without conflicts is the only one under its key.
length-delete :
    (n p : String) (rs : List ClusterState)
    → IsUnique conflicts rs
    → has_row (is_named n p) rs ≡ true
    → suc (length (delete_rows (is_named n p) rs)) ≡ length rs
unfolding IsUnique has_row delete_rows
length-delete n p [] u h = ground arith
length-delete n p (x ∷ rs) (a, u) h = ground (
  arith,
  length-delete n p rs u,
  delete_none (is_named n p) rs,
  λ (e : is_named n p x ≡ true). has_row-ext (conflicts x) (is_named n p) rs (same_key n p x e),
)

rows_affected-ok :
    {A : Type 0} (r : Result (List A)) {found : List A}
    → rows_affected r ≡ ok found
    → null found ≡ false
    → r ≡ ok found
unfolding rows_affected
rows_affected-ok (ok xs) e k = e
rows_affected-ok (err x) e k = ground arith
rows_affected-ok panic e k = ground arith

module _ {A B : Type 0} (x y : B) {r : Result A} where
  answer-ok : {a : A} → r ≡ ok a → (if succeeded r then x else y) ≡ x
  answer-ok e = ap (λ r. if succeeded r then x else y) e

  answer-err : {m : String} → r ≡ err m → (if succeeded r then x else y) ≡ y
  answer-err e = ap (λ r. if succeeded r then x else y) e

  answer-panic : r ≡ panic → (if succeeded r then x else y) ≡ y
  answer-panic e = ap (λ r. if succeeded r then x else y) e

module _ (j : Codec) (t : Table written conflicts) where
  abbrev pub IsCounted : Db j t → Type 0
  IsCounted s = incs s.log ≡ decs s.log + length (rows j t s)

  create_state-IsCounted :
      (st : ClusterState) (s : Db j t) → IsCounted s → IsCounted (create_state j t st s).1
  unfolding create_state on_db effect incs decs
  create_state-IsCounted st s h =
      let created = t.create-rows st s.db in
      >>=-cases (λ x. IsCounted x.1) (on_db (t.create st)) _ s
        (λ u e. ground (
          arith,
          created,
          answer-ok (rows j t s ++ (written st ∷ [])) (rows j t s) e,
          length-snoc (rows j t s) (written st),
        ))
        (λ x e.
          ground (arith, created, answer-err (rows j t s ++ (written st ∷ [])) (rows j t s) e))
        (λ e.
          ground (arith, created, answer-panic (rows j t s ++ (written st ∷ [])) (rows j t s) e))

  update_cluster-IsCounted :
      (c : Cluster) (st : ClusterState) (s : Db j t)
      → has_row (is_named c.name c.provider) (rows j t s) ≡ true
      → IsCounted s
      → IsCounted (update_cluster j t c st s).1
  unfolding update_cluster on_db save_rows
  update_cluster-IsCounted c st s k h =
      let p = is_named c.name c.provider in
      ground (
        arith,
        t.save-rows p (over_cluster st) st s.db,
        length-overwrite p (λ x. written (over_cluster st x)) (rows j t s),
      )

  pub save_cluster_state-IsCounted :
      (st : ClusterState) (s : Db j t)
      → has_row (is_named st.name st.provider) (rows j t s) ≡ true
      → IsCounted s
      → IsCounted (save_cluster_state j t st s).1
  unfolding save_cluster_state on_db save_rows
  save_cluster_state-IsCounted st s k h =
      let p = is_named st.name st.provider in
      ground (
        arith,
        t.save-rows p (over_state st) st s.db,
        length-overwrite p (λ x. written (over_state st x)) (rows j t s),
      )

  -- What was written, if the query before found no row, or failed.
  write_state-IsCounted :
      (found : List ClusterState) (c : Cluster) (st : ClusterState) (s : Db j t)
      → (null found ≡ false → has_row (is_named c.name c.provider) (rows j t s) ≡ true)
      → IsCounted s
      → IsCounted ((if null found then create_state j t st else update_cluster j t c st) s).1
  write_state-IsCounted [] c st s k h = create_state-IsCounted st s h
  write_state-IsCounted (x ∷ xs) c st s k h = update_cluster-IsCounted c st s (k refl) h

  counted_found :
      (p : ClusterState → Bool) (s : Db j t) {found : List ClusterState}
      → (count_anyway (on_db (t.find p)) s).0 ≡ ok found
      → null found ≡ false
      → has_row p (rows j t s) ≡ true
  unfolding count_anyway on_db rows_affected
  counted_found p s e k =
      has_row-where p (rows j t s)
        (ap null (sym (find-found j t p s (rows_affected-ok (t.find p s.db).0 e k))) ∙ k)

  count-kept :
      (p : ClusterState → Bool) (s : Db j t)
      → IsCounted s
      → IsCounted (count_anyway (on_db (t.find p)) s).1
  unfolding count_anyway on_db
  count-kept p s h = ground (arith, t.find-rows p s.db)

  pub save_cluster-IsCounted :
      (c : Cluster) (s : Db j t) → IsCounted s → IsCounted (save_cluster j t c s).1
  unfolding save_cluster lift
  save_cluster-IsCounted c s h =
      let p = is_named c.name c.provider in
      let find = count_anyway (on_db (t.find p)) in
      let kept = count-kept p s h in
      >>=-cases (λ x. IsCounted x.1) find _ s
        (λ found e.
          >>=-cases (λ x. IsCounted x.1) (lift (cluster_state j c)) _ (find s).1
            (λ st e'.
              write_state-IsCounted found c st (find s).1
                (λ k. ap (has_row p) (counted-kept j t p s) ∙ counted_found p s e k) kept)
            (λ x e'. kept) (λ e'. kept))
        (λ x e. kept) (λ e. kept)

  count_out-IsCounted :
      (st : ClusterState) (x : Result (Unit {0}) × Db j t)
      → incs x.1.log
        ≡ decs x.1.log
          + (if succeeded x.0 then suc (length (rows j t x.1)) else length (rows j t x.1))
      → IsCounted (count_out j t st x).1
  unfolding count_out effect incs decs
  count_out-IsCounted st (ok u, d) h = omega arith
  count_out-IsCounted st (err e, d) h = h
  count_out-IsCounted st (panic, d) h = h

  delete_state-IsCounted :
      (n p : String) (found : Option ClusterState) (s : Db j t)
      → found ≡ row_at (is_named n p) (rows j t s)
      → IsUnique conflicts (rows j t s)
      → IsCounted s
      → IsCounted (delete_state j t n p found s).1
  unfolding delete_state announce on_db incs decs
  delete_state-IsCounted n p none s e u h = h
  delete_state-IsCounted n p (some st) s e u h =
      let q = is_named n p in
      count_out-IsCounted st (announce j t st (on_db (t.delete q) s)) (
        ground (
          arith,
          t.delete-rows q s.db,
          length-delete n p (rows j t s) u,
          has_row-row_at q (rows j t s),
        ))

  get_cluster-log : (n p : String) (s : Db j t) → (get_cluster j t n p s).1.log ≡ s.log
  unfolding get_cluster pure on_db
  get_cluster-log n p s =
      >>=-cases (λ x. x.1.log ≡ s.log) (on_db (t.find (is_named n p)))
        (λ found. pure (first_row found)) s (λ found e. refl) (λ x e. refl) (λ e. refl)

  pub delete_cluster-IsCounted :
      (n p : String) (s : Db j t)
      → IsUnique conflicts (rows j t s)
      → IsCounted s
      → IsCounted (delete_cluster j t n p s).1
  unfolding delete_cluster
  delete_cluster-IsCounted n p s u h =
      let get = get_cluster j t n p in
      let kept = get_cluster-kept j t n p s in
      let same : IsCounted (get s).1 = ground (arith, kept, get_cluster-log n p s) in
      >>=-cases (λ x. IsCounted x.1) get (delete_state j t n p) s
        (λ found e.
          delete_state-IsCounted n p found (get s).1
            (get_cluster-found j t n p s e ∙ ap (row_at (is_named n p)) (sym kept))
            (subst (IsUnique conflicts) (sym kept) u) same)
        (λ x e. same) (λ e. same)
