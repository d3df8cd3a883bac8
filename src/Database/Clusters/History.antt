-- ===== src/Database/Clusters/History.antt =====
-- What holds after any sequence of saves and deletions of clusters, some of which may have failed.
use autok3s.Base.{
  Bool, true, false, List, [], ◌∷◌, if◌then◌else◌, Result, ok, err, panic, ◌≡◌, refl, sym, subst,
  arith, eq_iff,
}
use autok3s.Types.{Cluster}
use autok3s.Cluster.World.{succeeded}
use autok3s.Database.Rows.{has_row, save_rows, delete_rows}
use autok3s.Database.Keys.{IsUnique, save-IsUnique, delete-IsUnique}
use autok3s.Database.Table.{Table}
use autok3s.Database.ClusterState.{
  ClusterState, written, conflicts, is_named, over_cluster, over_state, Codec, cluster_state,
}
use autok3s.Database.Clusters.{Db, save_cluster, save_cluster_state, delete_cluster}
use autok3s.Database.Clusters.Contents.{
  rows, Writes, saved_as, saved_rows, cluster_state-metadata, save_cluster-Writes,
  save_cluster_state-Writes, delete_cluster-Writes,
}
use autok3s.Database.Clusters.Refinement.{Change, saving, saving_state, deleting, perform}
use autok3s.Database.Clusters.Gauge.{
  IsCounted, save_cluster-IsCounted, save_cluster_state-IsCounted, delete_cluster-IsCounted,
}

conflict_sym : (x st : ClusterState) → conflicts x (written st) ≡ is_named st.name st.provider x
unfolding written
conflict_sym x st = ground (
  arith,
  eq_iff st.name x.name,
  eq_iff x.name st.name,
  eq_iff st.provider x.provider,
  eq_iff x.provider st.provider,
)

saved-IsUnique :
    (st : ClusterState) (over : ClusterState → ClusterState) (rs : List ClusterState)
    → ((a b : ClusterState) → conflicts (written (over a)) b ≡ conflicts a b)
    → ((a b : ClusterState) → conflicts a (written (over b)) ≡ conflicts a b)
    → IsUnique conflicts rs
    → IsUnique conflicts
        (save_rows (is_named st.name st.provider) (λ x. written (over x)) (written st) rs)
saved-IsUnique st over rs h k u =
    save-IsUnique conflicts (is_named st.name st.provider) (λ x. written (over x)) (written st) h k
      rs (λ x. conflict_sym x st) u

module _ (j : Codec) (t : Table written conflicts) where
  saved_as-IsUnique :
      (c : Cluster) (r : Result ClusterState) (rs : List ClusterState)
      → cluster_state j c ≡ r
      → IsUnique conflicts rs
      → IsUnique conflicts (saved_as j t c r rs)
  unfolding saved_as written over_cluster
  saved_as-IsUnique c (ok st) rs h u =
      subst
        (λ m. IsUnique conflicts (
          save_rows (is_named m.name m.provider) (λ x. written (over_cluster st x)) (written st)
            rs))
        (cluster_state-metadata j t c h)
        (saved-IsUnique st (over_cluster st) rs (λ a b. refl) (λ a b. refl) u)
  saved_as-IsUnique c (err e) rs h u = u
  saved_as-IsUnique c panic rs h u = u

  settled-IsUnique :
      (b : Bool) (xs ys : List ClusterState)
      → (IsUnique conflicts ys → IsUnique conflicts xs)
      → IsUnique conflicts ys
      → IsUnique conflicts (if b then xs else ys)
  settled-IsUnique true xs ys h u = h u
  settled-IsUnique false xs ys h u = u

  Writes-IsUnique :
      (f : List ClusterState → List ClusterState) (s : Db j t) (x : Result (Unit {0}) × Db j t)
      → Writes j t f s x
      → (IsUnique conflicts (rows j t s) → IsUnique conflicts (f (rows j t s)))
      → IsUnique conflicts (rows j t s)
      → IsUnique conflicts (rows j t x.1)
  Writes-IsUnique f s x w h u =
      subst (IsUnique conflicts) (sym w)
        (settled-IsUnique (succeeded x.0) (f (rows j t s)) (rows j t s) h u)

  perform-IsUnique :
      (x : Change) (s : Db j t)
      → IsUnique conflicts (rows j t s)
      → IsUnique conflicts (rows j t (perform j t x s).1)
  unfolding perform written over_state
  perform-IsUnique (saving c) s u =
      Writes-IsUnique (saved_rows j t c) s (save_cluster j t c s) (save_cluster-Writes j t c s)
        (saved_as-IsUnique c (cluster_state j c) (rows j t s) refl) u
  perform-IsUnique (saving_state st) s u =
      Writes-IsUnique
        (save_rows (is_named st.name st.provider) (λ x. written (over_state st x)) (written st)) s
        (save_cluster_state j t st s) (save_cluster_state-Writes j t st s)
        (saved-IsUnique st (over_state st) (rows j t s) (λ a b. refl) (λ a b. refl)) u
  perform-IsUnique (deleting n p) s u =
      Writes-IsUnique (delete_rows (is_named n p)) s (delete_cluster j t n p s)
        (delete_cluster-Writes j t n p s) (delete-IsUnique conflicts (is_named n p) (rows j t s)) u

  -- One change after the other, each whether or not those before succeeded.
  unfoldable pub perform_all : List Change → Db j t → Db j t
  perform_all [] s = s
  perform_all (x ∷ xs) s = perform_all xs (perform j t x s).1

  -- `SaveClusterState` is given a row that was read before.
  abbrev pub IsKnown : Change → Db j t → Type 0
  IsKnown (saving c) s = Unit {0}
  IsKnown (saving_state st) s = has_row (is_named st.name st.provider) (rows j t s) ≡ true
  IsKnown (deleting n p) s = Unit {0}

  abbrev pub AreKnown : List Change → Db j t → Type 0
  AreKnown [] s = Unit {0}
  AreKnown (x ∷ xs) s = IsKnown x s × AreKnown xs (perform j t x s).1

  perform-IsCounted :
      (x : Change) (s : Db j t)
      → IsUnique conflicts (rows j t s)
      → IsKnown x s
      → IsCounted j t s
      → IsCounted j t (perform j t x s).1
  unfolding perform
  perform-IsCounted (saving c) s u k h = save_cluster-IsCounted j t c s h
  perform-IsCounted (saving_state st) s u k h = save_cluster_state-IsCounted j t st s k h
  perform-IsCounted (deleting n p) s u k h = delete_cluster-IsCounted j t n p s u h

  pub perform_all-IsCounted :
      (xs : List Change) (s : Db j t)
      → IsUnique conflicts (rows j t s)
      → AreKnown xs s
      → IsCounted j t s
      → IsCounted j t (perform_all xs s)
  unfolding perform_all
  perform_all-IsCounted [] s u k h = h
  perform_all-IsCounted (x ∷ xs) s u (k, ks) h =
      perform_all-IsCounted xs (perform j t x s).1 (perform-IsUnique x s u) ks
        (perform-IsCounted x s u k h)
