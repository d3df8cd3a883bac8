-- ===== src/Database/Rows.antt =====
-- The rows of one table as a list, the oldest first, and what SQL's WHERE, INSERT, UPDATE and DELETE
-- make of them. A condition is a test of a row.
use autok3s.Base.{
  subst, Bool, true, false, List, [], ◌∷◌, ◌++◌, Option, none, some, if◌then◌else◌, ◌≡◌, refl, ap,
  arith, length, ℕ,
}

-- The first row, as `Find` into one struct scans it.
abbrev pub first_row {ℓ} : {Row : Type ℓ} → List Row → Option Row
first_row [] = none
first_row (r ∷ rs) = some r

module _ {ℓ} {Row : Type ℓ} where
  unfoldable pub where_rows : (Row → Bool) → List Row → List Row
  where_rows p [] = []
  where_rows p (r ∷ rs) = let rest = where_rows p rs in if p r then r ∷ rest else rest

  -- The first row that meets the condition: what the table holds under a key.
  unfoldable pub row_at : (Row → Bool) → List Row → Option Row
  row_at p [] = none
  row_at p (r ∷ rs) = let rest = row_at p rs in if p r then some r else rest

  unfoldable pub has_row : (Row → Bool) → List Row → Bool
  has_row p [] = false
  has_row p (r ∷ rs) = let rest = has_row p rs in if p r then true else rest

  -- UPDATE: `f` writes over each row that meets the condition.
  unfoldable pub overwrite : (Row → Bool) → (Row → Row) → List Row → List Row
  overwrite p f [] = []
  overwrite p f (r ∷ rs) = (if p r then f r else r) ∷ overwrite p f rs

  -- DELETE.
  unfoldable pub delete_rows : (Row → Bool) → List Row → List Row
  delete_rows p [] = []
  delete_rows p (r ∷ rs) = let rest = delete_rows p rs in if p r then rest else r ∷ rest

  -- `Save`: an UPDATE, or an INSERT of `r` if there is no row to update.
  unfoldable pub save_rows : (Row → Bool) → (Row → Row) → Row → List Row → List Row
  save_rows p f r rs = if has_row p rs then overwrite p f rs else rs ++ (r ∷ [])

  unfoldable pub count_rows : (Row → Bool) → List Row → ℕ
  count_rows p rs = length (where_rows p rs)

  pub first-where : (p : Row → Bool) (rs : List Row) → first_row (where_rows p rs) ≡ row_at p rs
  unfolding where_rows row_at
  first-where p [] = refl
  first-where p (r ∷ rs) = ground (arith, first-where p rs)

  -- Keys that cannot hold together.
  abbrev pub IsApart : (Row → Bool) → (Row → Bool) → Type ℓ
  IsApart p q = (r : Row) → p r ≡ true → q r ≡ false

  abbrev pub IsSame : (Row → Bool) → (Row → Bool) → Type ℓ
  IsSame p q = (r : Row) → p r ≡ q r

  module _ (p q : Row → Bool) where
    pub row_at-same : (rs : List Row) → IsSame p q → row_at p rs ≡ row_at q rs
    unfolding row_at
    row_at-same [] h = refl
    row_at-same (r ∷ rs) h = ground (arith, h r, row_at-same rs h)

    pub row_at-append :
        (r : Row) (rs : List Row)
        → row_at q (rs ++ (r ∷ []))
          ≡ (elim (row_at q rs) [ some a ↦ some a | none ↦ if q r then some r else none ])
    unfolding row_at
    row_at-append r [] = ground arith
    row_at-append r (a ∷ rs) = ground (arith, row_at-append r rs)

    pub row_at-overwrite-apart :
        (f : Row → Row) (rs : List Row)
        → IsApart p q
        → ((r : Row) → p r ≡ true → q (f r) ≡ false)
        → row_at q (overwrite p f rs) ≡ row_at q rs
    unfolding row_at overwrite
    row_at-overwrite-apart f [] h k = refl
    row_at-overwrite-apart f (r ∷ rs) h k =
        ground (arith, h r, k r, row_at-overwrite-apart f rs h k)

    pub row_at-delete-apart :
        (rs : List Row) → IsApart p q → row_at q (delete_rows p rs) ≡ row_at q rs
    unfolding row_at delete_rows
    row_at-delete-apart [] h = refl
    row_at-delete-apart (r ∷ rs) h = ground (arith, h r, row_at-delete-apart rs h)

  module _ (p : Row → Bool) where
    pub row_at-overwrite :
        (f : Row → Row) (rs : List Row)
        → ((r : Row) → p r ≡ true → p (f r) ≡ true)
        → row_at p (overwrite p f rs) ≡ (elim (row_at p rs) [ none ↦ none | some r ↦ some (f r) ])
    unfolding row_at overwrite
    row_at-overwrite f [] h = refl
    row_at-overwrite f (r ∷ rs) h = ground (arith, h r, row_at-overwrite f rs h)

    pub row_at-delete : (rs : List Row) → row_at p (delete_rows p rs) ≡ none
    unfolding row_at delete_rows
    row_at-delete [] = refl
    row_at-delete (r ∷ rs) = ground (arith, row_at-delete rs)

    met :
        (b : Bool) (x r : Row) (rest : Option Row)
        → p x ≡ b
        → (rest ≡ some r → p r ≡ true)
        → (if b then some x else rest) ≡ some r
        → p r ≡ true
    met true x r rest e k h =
        subst (λ y. p y ≡ true) (ap (λ o. elim o [ some a ↦ a | none ↦ x ]) h) e
    met false x r rest e k h = k h

    pub row_at-meets : (rs : List Row) {r : Row} → row_at p rs ≡ some r → p r ≡ true
    unfolding row_at
    row_at-meets [] h = ground arith
    row_at-meets (x ∷ rs) {r = r} h = met (p x) x r (row_at p rs) refl (λ e. row_at-meets rs e) h

    pub has_row-row_at :
        (rs : List Row) → has_row p rs ≡ (elim (row_at p rs) [ none ↦ false | some r ↦ true ])
    unfolding row_at has_row
    has_row-row_at [] = refl
    has_row-row_at (r ∷ rs) = ground (arith, has_row-row_at rs)
