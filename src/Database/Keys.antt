-- ===== src/Database/Keys.antt =====
-- Rows whose unique columns are pairwise different, and what a save does to the row under a key.
use autok3s.Base.{Bool, true, false, List, [], ◌∷◌, ◌++◌, none, some, ◌≡◌, refl, arith}
use autok3s.Database.Rows.{
  has_row, row_at, overwrite, save_rows, delete_rows, IsApart, row_at-append, row_at-overwrite,
  row_at-overwrite-apart, has_row-row_at,
}

module _ {Row : Type 0} where
  module _ (p : Row → Bool) (f : Row → Row) (r : Row) where
    pub row_at-save :
        (rs : List Row)
        → p r ≡ true
        → ((x : Row) → p x ≡ true → p (f x) ≡ true)
        → row_at p (save_rows p f r rs) ≡ some (elim (row_at p rs) [ none ↦ r | some x ↦ f x ])
    unfolding save_rows
    row_at-save rs h k =
        ground (arith, has_row-row_at p rs, row_at-overwrite p f rs k, row_at-append p p r rs)

    pub row_at-save-apart :
        (q : Row → Bool) (rs : List Row)
        → q r ≡ false
        → IsApart p q
        → ((x : Row) → p x ≡ true → q (f x) ≡ false)
        → row_at q (save_rows p f r rs) ≡ row_at q rs
    unfolding save_rows
    row_at-save-apart q rs h a k =
        ground (arith, row_at-overwrite-apart p q f rs a k, row_at-append p q r rs)

  module _ (conflicts : Row → Row → Bool) where
    unfoldable pub IsUnique : List Row → Type 0
    IsUnique [] = Unit {0}
    IsUnique (r ∷ rs) = (has_row (conflicts r) rs ≡ false) × IsUnique rs

    module _ (p : Row → Bool) where
      has_row-delete :
          (q : Row → Bool) (rs : List Row)
          → has_row q rs ≡ false
          → has_row q (delete_rows p rs) ≡ false
      unfolding has_row delete_rows
      has_row-delete q [] h = refl
      has_row-delete q (r ∷ rs) h = ground (arith, has_row-delete q rs)

      pub delete-IsUnique : (rs : List Row) → IsUnique rs → IsUnique (delete_rows p rs)
      unfolding IsUnique delete_rows
      delete-IsUnique [] u = u
      delete-IsUnique (r ∷ rs) (h, u) =
          ground (arith, has_row-delete (conflicts r) rs h, delete-IsUnique rs u)

    module _ (p : Row → Bool) (f : Row → Row) (r : Row)
        (left : (a b : Row) → conflicts (f a) b ≡ conflicts a b)
        (right : (a b : Row) → conflicts a (f b) ≡ conflicts a b) where
      has_row-overwrite :
          (a : Row) (rs : List Row)
          → has_row (conflicts a) (overwrite p f rs) ≡ has_row (conflicts a) rs
      unfolding has_row overwrite
      has_row-overwrite a [] = refl
      has_row-overwrite a (x ∷ rs) = ground (arith, right a x, has_row-overwrite a rs)

      has_row-left :
          (a : Row) (rs : List Row) → has_row (conflicts (f a)) rs ≡ has_row (conflicts a) rs
      unfolding has_row
      has_row-left a [] = refl
      has_row-left a (x ∷ rs) = ground (arith, left a x, has_row-left a rs)

      overwrite-IsUnique : (rs : List Row) → IsUnique rs → IsUnique (overwrite p f rs)
      unfolding IsUnique overwrite
      overwrite-IsUnique [] u = u
      overwrite-IsUnique (x ∷ rs) (h, u) = ground (
        arith,
        has_row-overwrite x rs,
        has_row-left x (overwrite p f rs),
        overwrite-IsUnique rs u,
      )

      has_row-append :
          (q : Row → Bool) (rs : List Row)
          → has_row q rs ≡ false
          → q r ≡ false
          → has_row q (rs ++ (r ∷ [])) ≡ false
      unfolding has_row
      has_row-append q [] h k = ground arith
      has_row-append q (x ∷ rs) h k = ground (arith, has_row-append q rs)

      append-IsUnique :
          (rs : List Row)
          → ((x : Row) → conflicts x r ≡ p x)
          → has_row p rs ≡ false
          → IsUnique rs
          → IsUnique (rs ++ (r ∷ []))
      unfolding IsUnique has_row
      append-IsUnique [] k h u = (refl, tt)
      append-IsUnique (x ∷ rs) k h (a, u) =
          ground (arith, k x, has_row-append (conflicts x) rs a, append-IsUnique rs k)

      pub save-IsUnique :
          (rs : List Row)
          → ((x : Row) → conflicts x r ≡ p x)
          → IsUnique rs
          → IsUnique (save_rows p f r rs)
      unfolding save_rows
      save-IsUnique rs k u = ground (arith, overwrite-IsUnique rs u, append-IsUnique rs k)
