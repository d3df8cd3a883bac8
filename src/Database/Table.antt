-- ===== src/Database/Table.antt =====
-- What pkg/common relies on of gorm, for one table: each call answers with an error and leaves the rows
-- as they are, or does what SQL's statement does. A call may change the connection in any other way, so
-- that the same call may fail at one time and not at another.
use autok3s.Base.{
  Bool, true, false, List, [], ◌∷◌, ◌++◌, if◌then◌else◌, ◌≡◌, refl, sym, ok, err, arith,
  ok_injective,
}
use autok3s.Base.Exec.{Exec}
use autok3s.Cluster.World.{succeeded}
use autok3s.Database.Rows.{where_rows, has_row, delete_rows, save_rows}

-- `written` is a row without the fields that are not stored (`gorm:"-:all"`), and `conflicts` says that
-- two rows are equal in the columns that the table keeps unique.
pub record Table {Row : Type 0} (written : Row → Row) (conflicts : Row → Row → Bool) : Type 1 where
  pub Db : Type 0
  pub rows : Db → List Row
  -- `Where(p).Find(&list)`
  pub find : (Row → Bool) → Exec Db (List Row)
  -- `Create(row)`
  pub create : Row → Exec Db Unit
  -- `Where(p).Omit(columns).Save(row)`: `over r` is the row `r` with all columns but those written over
  pub save : (Row → Bool) → (Row → Row) → Row → Exec Db Unit
  -- `Where(p).Delete(&Row{})`
  pub delete : (Row → Bool) → Exec Db Unit
  pub find-rows : (p : Row → Bool) (d : Db) → rows (find p d).1 ≡ rows d
  pub find-found :
      (p : Row → Bool) (d : Db) {found : List Row}
      → (find p d).0 ≡ ok found
      → found ≡ where_rows p (rows d)
  pub create-rows :
      (r : Row) (d : Db)
      → rows (create r d).1
        ≡ (if succeeded (create r d).0 then rows d ++ (written r ∷ []) else rows d)
  pub create-unique :
      (r : Row) (d : Db) → succeeded (create r d).0 ≡ true → has_row (conflicts r) (rows d) ≡ false
  pub save-rows :
      (p : Row → Bool) (over : Row → Row) (r : Row) (d : Db)
      → rows (save p over r d).1 ≡ (
          if succeeded (save p over r d).0
          then save_rows p (λ x. written (over x)) (written r) (rows d)
          else rows d)
  pub delete-rows :
      (p : Row → Bool) (d : Db)
      → rows (delete p d).1 ≡ (if succeeded (delete p d).0 then delete_rows p (rows d) else rows d)

-- A table in memory, which fails only on rows that conflict.
module _ {Row : Type 0} (written : Row → Row) (conflicts : Row → Row → Bool) where
  abbrev pub insert : Row → Exec (List Row) Unit
  insert r d =
      if has_row (conflicts r) d
      then (err "UNIQUE constraint failed", d)
      else (ok tt, d ++ (written r ∷ []))

  pub in_memory_rows :
      (r : Row) (d : List Row)
      → (insert r d).1 ≡ (if succeeded (insert r d).0 then d ++ (written r ∷ []) else d)
  in_memory_rows r d = ground arith

  pub in_memory_unique :
      (r : Row) (d : List Row) → succeeded (insert r d).0 ≡ true → has_row (conflicts r) d ≡ false
  in_memory_unique r d h = ground arith

  abbrev pub in_memory : Table written conflicts
  in_memory = record {
    Db = List Row;
    rows = λ d. d;
    find = λ p d. (ok (where_rows p d), d);
    create = insert;
    save = λ p over r d. (ok tt, save_rows p (λ x. written (over x)) (written r) d);
    delete = λ p d. (ok tt, delete_rows p d);
    find-rows = λ p d. refl;
    find-found = λ p d. λ h. sym (ok_injective h);
    create-rows = in_memory_rows;
    create-unique = in_memory_unique;
    save-rows = λ p over r d. refl;
    delete-rows = λ p d. refl;
  }
