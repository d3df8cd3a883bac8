-- ===== src/Database/Clusters/Refinement.antt =====
-- The clusters of the `Store` as a map from names and providers to rows.
use autok3s.Base.{
  ap-if, String, Bool, true, false, Bool-cases, ◌&&◌, List, Option, none, some, if◌then◌else◌, ◌==◌,
  eq_iff, Result, ok, err, panic, ◌≡◌, refl, sym, ap, ◌∙◌, arith, inl, inr, eq_refl, subst,
}
use autok3s.Base.Exec.{Exec}
use autok3s.Types.{Cluster}
use autok3s.Cluster.World.{succeeded}
use autok3s.Database.Rows.{
  save_rows, delete_rows, row_at, row_at-delete, row_at-delete-apart, IsApart,
}
use autok3s.Database.Keys.{row_at-save, row_at-save-apart}
use autok3s.Database.Table.{Table}
use autok3s.Database.ClusterState.{
  ClusterState, written, conflicts, is_named, over_cluster, over_state, Codec, cluster_state,
}
use autok3s.Database.Clusters.{Db, save_cluster, save_cluster_state, delete_cluster}
use autok3s.Database.Clusters.Contents.{
  rows, saved_as, cluster_state-metadata, save_cluster-Writes, save_cluster_state-Writes,
  delete_cluster-Writes,
}

abbrev pub View : Type 0
View = String → String → Option ClusterState

pub data Change : Type 0 where
  saving : Cluster → Change
  saving_state : ClusterState → Change
  deleting : String → String → Change

abbrev pub replaced :
    ClusterState → (ClusterState → ClusterState) → Option ClusterState → Option ClusterState
replaced st over none = some (written st)
replaced st over (some old) = some (written (over old))

abbrev saved_row : Result ClusterState → Option ClusterState → Option ClusterState
saved_row (ok st) old = replaced st (over_cluster st) old
saved_row (err e) old = old
saved_row panic old = old

module _ (j : Codec) where
  -- What a change means for the map: it sets or removes what stands under one key.
  unfoldable pub apply : Change → View → View
  apply (saving c) v n p =
      if c.name == n && c.provider == p then saved_row (cluster_state j c) (v n p) else v n p
  apply (saving_state st) v n p =
      if st.name == n && st.provider == p then replaced st (over_state st) (v n p) else v n p
  apply (deleting name provider) v n p = if name == n && provider == p then none else v n p

  module _ (t : Table written conflicts) where
    abbrev pub view : Db j t → View
    view s n p = row_at (is_named n p) (rows j t s)

    unfoldable pub perform : Change → Exec (Db j t) Unit
    perform (saving c) = save_cluster j t c
    perform (saving_state st) = save_cluster_state j t st
    perform (deleting name provider) = delete_cluster j t name provider

is_named-IsApart :
    (n p n' p' : String) → (n == n' && p == p') ≡ false → IsApart (is_named n p) (is_named n' p')
is_named-IsApart n p n' p' h s e = ground (
  arith,
  eq_iff s.name n,
  eq_iff s.name n',
  eq_iff s.provider p,
  eq_iff s.provider p',
  eq_iff n n',
  eq_iff p p',
)

pub keys_equal : (n p n' p' : String) → (n == n' && p == p') ≡ true → (n ≡ n') × (p ≡ p')
keys_equal n p n' p' h = ground (arith, eq_iff n n', eq_iff p p')

is_named_self : (st : ClusterState) → is_named st.name st.provider st ≡ true
is_named_self st = ground (arith, eq_refl st.name, eq_refl st.provider)

replaced-some :
    (st : ClusterState) (over : ClusterState → ClusterState) (old : Option ClusterState)
    → some (elim old [ none ↦ written st | some x ↦ written (over x) ]) ≡ replaced st over old
replaced-some st over none = refl
replaced-some st over (some x) = refl

module _ (st : ClusterState) (over : ClusterState → ClusterState)
    (keys : (n p : String) (x : ClusterState) → is_named n p (over x) ≡ is_named n p x)
    (rs : List ClusterState) where
  abbrev saved : List ClusterState
  saved = save_rows (is_named st.name st.provider) (λ x. written (over x)) (written st) rs

  written-keys : (n p : String) (x : ClusterState) → is_named n p (written x) ≡ is_named n p x
  unfolding written
  written-keys n p x = refl

  saved_same :
      row_at (is_named st.name st.provider) saved
      ≡ replaced st over (row_at (is_named st.name st.provider) rs)
  saved_same =
      let p = is_named st.name st.provider in
      row_at-save p (λ x. written (over x)) (written st) rs
        (written-keys st.name st.provider st ∙ is_named_self st)
        (λ x h. written-keys st.name st.provider (over x) ∙ keys st.name st.provider x ∙ h)
      ∙ replaced-some st over (row_at p rs)

  saved_apart :
      (n p : String)
      → (st.name == n && st.provider == p) ≡ false
      → row_at (is_named n p) saved ≡ row_at (is_named n p) rs
  saved_apart n p h =
      row_at-save-apart (is_named st.name st.provider) (λ x. written (over x)) (written st)
        (is_named n p) rs (written-keys n p st ∙ h) (is_named-IsApart st.name st.provider n p h)
        (λ x e.
          written-keys n p (over x) ∙ keys n p x ∙ is_named-IsApart st.name st.provider n p h x e)

  saved_at :
      (n p : String)
      → row_at (is_named n p) saved ≡ (
          if st.name == n && st.provider == p
          then replaced st over (row_at (is_named n p) rs)
          else row_at (is_named n p) rs)
  saved_at n p =
      let pick = λ (b : Bool).
        if b then replaced st over (row_at (is_named n p) rs) else row_at (is_named n p) rs in
      elim (Bool-cases (st.name == n && st.provider == p)) [
        | inl h ↦
            let (e, e') = keys_equal st.name st.provider n p h in
            subst (λ n. row_at (is_named n p) saved ≡ replaced st over (row_at (is_named n p) rs)) e
              (subst
                (λ p.
                  row_at (is_named st.name p) saved
                  ≡ replaced st over (row_at (is_named st.name p) rs))
                e' saved_same)
            ∙ ap pick (sym h)
        | inr h ↦ saved_apart n p h ∙ ap pick (sym h)
      ]

deleted_at :
    (name provider n p : String) (rs : List ClusterState)
    → row_at (is_named n p) (delete_rows (is_named name provider) rs)
      ≡ (if name == n && provider == p then none else row_at (is_named n p) rs)
deleted_at name provider n p rs =
    let pick = λ (b : Bool). if b then none else row_at (is_named n p) rs in
    let deleted = delete_rows (is_named name provider) rs in
    elim (Bool-cases (name == n && provider == p)) [
      | inl h ↦
          let (e, e') = keys_equal name provider n p h in
          subst (λ n. row_at (is_named n p) deleted ≡ none) e
            (subst (λ p. row_at (is_named name p) deleted ≡ none) e'
              (row_at-delete (is_named name provider) rs))
          ∙ ap pick (sym h)
      | inr h ↦
          row_at-delete-apart (is_named name provider) (is_named n p) rs
            (is_named-IsApart name provider n p h)
          ∙ ap pick (sym h)
    ]

over_cluster-keys :
    (st : ClusterState) (n p : String) (x : ClusterState)
    → is_named n p (over_cluster st x) ≡ is_named n p x
unfolding over_cluster
over_cluster-keys st n p x = refl

over_state-keys :
    (st : ClusterState) (n p : String) (x : ClusterState)
    → is_named n p (over_state st x) ≡ is_named n p x
unfolding over_state
over_state-keys st n p x = refl

module _ (j : Codec) (t : Table written conflicts) where
  saved_as_at :
      (c : Cluster) (n p : String) (rs : List ClusterState) (r : Result ClusterState)
      → cluster_state j c ≡ r
      → row_at (is_named n p) (saved_as j t c r rs) ≡ (
          if c.name == n && c.provider == p
          then saved_row r (row_at (is_named n p) rs)
          else row_at (is_named n p) rs)
  unfolding saved_as
  saved_as_at c n p rs (ok st) h =
      subst
        (λ m.
          row_at (is_named n p) (
            save_rows (is_named m.name m.provider) (λ x. written (over_cluster st x)) (written st)
              rs)
          ≡ (if m.name == n && m.provider == p
              then replaced st (over_cluster st) (row_at (is_named n p) rs)
              else row_at (is_named n p) rs))
        (cluster_state-metadata j t c h)
        (saved_at st (over_cluster st) (over_cluster-keys st) rs n p)
  saved_as_at c n p rs (err e) h = ground arith
  saved_as_at c n p rs panic h = ground arith

  -- Each change sets or removes the row under its key and no other, and one that fails changes none.
  pub perform-refines :
      (x : Change) (n p : String) (s : Db j t)
      → view j t (perform j t x s).1 n p
        ≡ (if succeeded (perform j t x s).0 then apply j x (view j t s) n p else view j t s n p)
  unfolding perform apply
  perform-refines (saving c) n p s =
      ap (row_at (is_named n p)) (save_cluster-Writes j t c s)
      ∙ ap-if (row_at (is_named n p)) (succeeded (save_cluster j t c s).0) _ _
          (saved_as_at c n p (rows j t s) (cluster_state j c) refl)
  perform-refines (saving_state st) n p s =
      ap (row_at (is_named n p)) (save_cluster_state-Writes j t st s)
      ∙ ap-if (row_at (is_named n p)) (succeeded (save_cluster_state j t st s).0) _ _
          (saved_at st (over_state st) (over_state-keys st) (rows j t s) n p)
  perform-refines (deleting name provider) n p s =
      ap (row_at (is_named n p)) (delete_cluster-Writes j t name provider s)
      ∙ ap-if (row_at (is_named n p)) (succeeded (delete_cluster j t name provider s).0) _ _
          (deleted_at name provider n p (rows j t s))

  pub saved_view :
      (c : Cluster) (s : Db j t) {st : ClusterState}
      → cluster_state j c ≡ ok st
      → (save_cluster j t c s).0 ≡ ok tt
      → view j t (save_cluster j t c s).1 c.name c.provider
        ≡ replaced st (over_cluster st) (view j t s c.name c.provider)
  unfolding perform apply
  saved_view c s k e =
      perform-refines (saving c) c.name c.provider s
      ∙ rw e (
          rw (eq_refl c.name)
            (rw (eq_refl c.provider) (ap (λ r. saved_row r (view j t s c.name c.provider)) k)))
