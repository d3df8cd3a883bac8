-- ===== src/Database/Counts.antt =====
-- How many rows a write leaves, and whether one is left under a key.
use autok3s.Base.{
  Bool, true, false, List, [], ◌∷◌, ◌++◌, null, ◌≡◌, refl, ap, arith, length, suc, none,
}
use autok3s.Database.Rows.{where_rows, has_row, overwrite, delete_rows, row_at}

module _ {Row : Type 0} where
  pub length-snoc : (rs : List Row) (r : Row) → length (rs ++ (r ∷ [])) ≡ suc (length rs)
  length-snoc [] r = refl
  length-snoc (x ∷ rs) r = ap suc (length-snoc rs r)

  pub length-overwrite :
      (p : Row → Bool) (f : Row → Row) (rs : List Row) → length (overwrite p f rs) ≡ length rs
  unfolding overwrite
  length-overwrite p f [] = refl
  length-overwrite p f (r ∷ rs) = ap suc (length-overwrite p f rs)

  pub delete_none : (p : Row → Bool) (rs : List Row) → has_row p rs ≡ false → delete_rows p rs ≡ rs
  unfolding delete_rows has_row
  delete_none p [] h = refl
  delete_none p (r ∷ rs) h = ground (arith, delete_none p rs)

  pub has_row-ext :
      (p q : Row → Bool) (rs : List Row) → ((x : Row) → p x ≡ q x) → has_row p rs ≡ has_row q rs
  unfolding has_row
  has_row-ext p q [] h = refl
  has_row-ext p q (r ∷ rs) h = ground (arith, h r, has_row-ext p q rs)

pub has_row-where :
    {Row : Type 0} (p : Row → Bool) (rs : List Row)
    → null (where_rows p rs) ≡ false
    → has_row p rs ≡ true
unfolding where_rows has_row
has_row-where p [] h = ground arith
has_row-where p (r ∷ rs) h = ground (arith, has_row-where p rs)

pub delete_absent :
    {Row : Type 0} (p : Row → Bool) (rs : List Row) → row_at p rs ≡ none → delete_rows p rs ≡ rs
unfolding row_at delete_rows
delete_absent p [] h = refl
delete_absent p (r ∷ rs) h = ground (arith, delete_absent p rs)

pub has_row-none :
    {Row : Type 0} (p : Row → Bool) (rs : List Row)
    → null (where_rows p rs) ≡ true
    → has_row p rs ≡ false
unfolding where_rows has_row
has_row-none p [] h = refl
has_row-none p (r ∷ rs) h = ground (arith, has_row-none p rs)
