-- ===== src/Manage/Site.antt =====
-- What the methods act on: the hosts with the cluster at hand, and the table of clusters.
use autok3s.Base.{Bool, ok, ◌≡◌}
use autok3s.Base.Exec.{Exec}
use autok3s.Types.{Cluster}
use autok3s.Cluster.World.{World}
use autok3s.Database.Rows.{where_rows}
use autok3s.Database.Table.{Table}
use autok3s.Database.Store.{Store}

pub record Site (Db : Type 0) : Type 0 where
  pub store : Store Db Cluster
  pub world : World

module _ {Db : Type 0} where
  unfoldable pub on_store : {A : Type 0} → Exec (Store Db Cluster) A → Exec (Site Db) A
  on_store m s = let (r, d) = m s.store in (r, record s { store = d })

  unfoldable pub on_world : {A : Type 0} → Exec World A → Exec (Site Db) A
  on_world m s = let (r, w) = m s.world in (r, record s { world = w })

  unfoldable pub set_cluster : Cluster → Exec (Site Db) Unit
  set_cluster c s = (ok tt, record s { world = record s.world { cluster = c } })

  -- `defer`: done at every return behind it, and when the function panics.
  unfoldable pub finally : {A : Type 0} → Exec (Site Db) Unit → Exec (Site Db) A → Exec (Site Db) A
  finally cleanup m s = let (r, s') = m s in (r, (cleanup s').1)

-- A database that answers each query and takes each row that it is given to save.
pub record Answers {Row : Type 0} {written : Row → Row} {conflicts : Row → Row → Bool}
    (t : Table written conflicts) : Type 0 where
  pub finds : (p : Row → Bool) (d : t.Db) → (t.find p d).0 ≡ ok (where_rows p (t.rows d))
  pub saves :
      (p : Row → Bool) (over : Row → Row) (r : Row) (d : t.Db) → (t.save p over r d).0 ≡ ok tt
