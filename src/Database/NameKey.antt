-- ===== src/Database/NameKey.antt =====
-- Tables whose key is one text.
use autok3s.Base.{
  String, Bool, true, false, Bool-cases, List, Option, none, some, if◌then◌else◌, ◌==◌, eq_iff,
  eq_refl, ◌≡◌, sym, ap, subst, ◌∙◌, arith, inl, inr,
}
use autok3s.Database.Rows.{row_at, save_rows, delete_rows, row_at-delete, row_at-delete-apart}
use autok3s.Database.Keys.{row_at-save, row_at-save-apart}

eq_sym : (a b : String) → (a == b) ≡ (b == a)
eq_sym a b = ground (arith, eq_iff a b, eq_iff b a)

eq_names : (a b : String) → (a == b) ≡ true → a ≡ b
eq_names a b h = ground (arith, eq_iff a b)

names_apart : (n m k : String) → (n == m) ≡ false → (k == m) ≡ true → (k == n) ≡ false
names_apart n m k h e = ground (arith, eq_iff n m, eq_iff k m, eq_iff k n)

module _ {Row : Type 0} (key : Row → String) where
  abbrev pub has_key : String → Row → Bool
  has_key n x = key x == n

  module _ (f : Row → Row) (same : (x : Row) → key (f x) ≡ key x) (r : Row) (rs : List Row) where
    pub row_at-saved :
        (n : String)
        → row_at (has_key n) (save_rows (has_key (key r)) f r rs) ≡ (
            if n == key r
            then some (elim (row_at (has_key n) rs) [ none ↦ r | some x ↦ f x ])
            else row_at (has_key n) rs)
    row_at-saved n =
        let saved = save_rows (has_key (key r)) f r rs in
        let here : Option Row = some (elim (row_at (has_key n) rs) [ none ↦ r | some x ↦ f x ]) in
        let pick = λ (b : Bool). if b then here else row_at (has_key n) rs in
        elim (Bool-cases (n == key r)) [
          | inl h ↦
              subst
                (λ n.
                  row_at (has_key n) saved
                  ≡ some (elim (row_at (has_key n) rs) [ none ↦ r | some x ↦ f x ]))
                (sym (eq_names n (key r) h))
                (row_at-save (has_key (key r)) f r rs (eq_refl (key r))
                  (λ x e. ap (λ k. k == key r) (same x) ∙ e))
              ∙ ap pick (sym h)
          | inr h ↦
              row_at-save-apart (has_key (key r)) f r (has_key n) rs (eq_sym (key r) n ∙ h)
                (λ x e. names_apart n (key r) (key x) h e)
                (λ x e. ap (λ k. k == n) (same x) ∙ names_apart n (key r) (key x) h e)
              ∙ ap pick (sym h)
        ]

  pub row_at-deleted :
      (m n : String) (rs : List Row)
      → row_at (has_key n) (delete_rows (has_key m) rs)
        ≡ (if n == m then none else row_at (has_key n) rs)
  row_at-deleted m n rs =
      let pick = λ (b : Bool). if b then none else row_at (has_key n) rs in
      elim (Bool-cases (n == m)) [
        | inl h ↦
            subst (λ n. row_at (has_key n) (delete_rows (has_key m) rs) ≡ none)
              (sym (eq_names n m h)) (row_at-delete (has_key m) rs)
            ∙ ap pick (sym h)
        | inr h ↦
            row_at-delete-apart (has_key m) (has_key n) rs (λ x e. names_apart n m (key x) h e)
            ∙ ap pick (sym h)
      ]
