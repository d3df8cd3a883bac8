-- ===== src/Database/Keyed.antt =====
-- pkg/common: what the methods on the smaller tables share, on one table alone.
use autok3s.Base.{
  String, Bool, List, [], ◌∷◌, Option, none, some, if◌then◌else◌, Result, ok, err, panic, ◌≡◌, refl,
  sym, ap, ◌∙◌, arith, ok_injective,
}
use autok3s.Base.Exec.{Exec, pure, raise, ◌>>=◌, >>=-cases, >>=-eq-ok}
use autok3s.Cluster.World.{succeeded}
use autok3s.Database.Rows.{save_rows, row_at, first_row, first-where}
use autok3s.Database.Counts.{has_row-ext}
use autok3s.Database.Table.{Table}

-- `gorm.ErrRecordNotFound`, the answer of `First` without a row.
abbrev pub record_not_found : String
record_not_found = "record not found"

abbrev pub first_or_error : {S Row : Type 0} → List Row → Exec S Row
first_or_error [] = raise record_not_found
first_or_error (r ∷ rs) = pure r

abbrev pub some_if_ok : {A : Type 0} → Result A → Result (Option A)
some_if_ok (ok a) = ok (some a)
some_if_ok (err e) = ok none
some_if_ok panic = panic

-- The answer alone, whatever the error.
unfoldable pub if_any : {S A : Type 0} → Exec S A → Exec S (Option A)
if_any m s = let (r, s') = m s in (some_if_ok r, s')

module _ {Row : Type 0} {written : Row → Row} {conflicts : Row → Row → Bool}
    (t : Table written conflicts) where
  -- `Where(p).Find(&row)`, with nil if no row is found.
  unfoldable pub find_one : (Row → Bool) → Exec t.Db (Option Row)
  find_one p = do found ← t.find p; pure (first_row found)

  unfoldable pub first : (Row → Bool) → Exec t.Db Row
  first p = do found ← t.find p; first_or_error found

  -- An existing row is saved over, without its key, and otherwise one is created.
  unfoldable pub save_or_create : (Row → Bool) → (Row → Row) → Row → Option Row → Exec t.Db Unit
  save_or_create p over r none = t.create r
  save_or_create p over r (some old) = t.save p over r

  -- What a write that succeeds makes of the rows; one that fails leaves them.
  abbrev pub Writes : (List Row → List Row) → t.Db → Result (Unit {0}) × t.Db → Type 0
  Writes f d (r, d') = t.rows d' ≡ (if succeeded r then f (t.rows d) else t.rows d)

  module _ (p : Row → Bool) where
    pub find_one-kept : (d : t.Db) → t.rows (find_one p d).1 ≡ t.rows d
    unfolding find_one pure
    find_one-kept d =
        let kept = t.find-rows p d in
        >>=-cases (λ x. t.rows x.1 ≡ t.rows d) (t.find p) (λ found. pure (first_row found)) d
          (λ found e. kept) (λ x e. kept) (λ e. kept)

    pub find_one-found :
        (d : t.Db) {found : Option Row} → (find_one p d).0 ≡ ok found → found ≡ row_at p (t.rows d)
    unfolding find_one pure
    find_one-found d h =
        let (list, u, e, k) =
          >>=-eq-ok (t.find p) (λ found. pure (first_row found)) d
            (ap (λ r. (r, (find_one p d).1)) h) in
        sym (ok_injective (ap (λ x. x.0) k))
        ∙ ap first_row (t.find-found p d (ap (λ x. x.0) e))
        ∙ first-where p (t.rows d)

    first_or_error-kept : (found : List Row) (d : t.Db) → (first_or_error found d).1 ≡ d
    unfolding raise pure
    first_or_error-kept [] d = refl
    first_or_error-kept (r ∷ rs) d = refl

    pub first-kept : (d : t.Db) → t.rows (first p d).1 ≡ t.rows d
    unfolding first
    first-kept d =
        let kept = t.find-rows p d in
        >>=-cases (λ x. t.rows x.1 ≡ t.rows d) (t.find p) first_or_error d
          (λ found e. ap t.rows (first_or_error-kept found (t.find p d).1) ∙ kept) (λ x e. kept)
          (λ e. kept)

    pub save_or_create-Writes :
        (over : Row → Row) (r : Row) (found : Option Row) (d : t.Db)
        → ((x : Row) → conflicts r x ≡ p x)
        → Writes
            (save_rows p (λ x. written (over x)) (written r))
            d
            (save_or_create p over r found d)
    unfolding save_or_create save_rows
    save_or_create-Writes over r none d h =
        ground
          (arith, t.create-rows r d, t.create-unique r d, has_row-ext (conflicts r) p (t.rows d) h)
    save_or_create-Writes over r (some old) d h = t.save-rows p over r d

    -- A query before a write changes nothing.
    pub then-Writes :
        {A : Type 0} (f : List Row → List Row) (m : Exec t.Db A) (k : A → Exec t.Db Unit) (d : t.Db)
        → t.rows (m d).1 ≡ t.rows d
        → ((a : A) → Writes f (m d).1 (k a (m d).1))
        → Writes f d ((m >>= k) d)
    then-Writes f m k d h w =
        >>=-cases (Writes f d) m k d
          (λ a e. w a ∙ ap (λ rs. if succeeded (k a (m d).1).0 then f rs else rs) h) (λ x e. h)
          (λ e. h)
