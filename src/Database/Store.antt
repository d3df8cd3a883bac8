-- ===== src/Database/Store.antt =====
-- pkg/common/model.go: `Store`, with what its methods do besides the rows of their table: the events
-- that they broadcast and the gauges of pkg/metrics that they count with.
use autok3s.Base.{
  String, List, [], ◌∷◌, if◌then◌else◌, ◌==◌, Result, ok, err, panic, ◌≡◌, refl, ℕ, suc,
}
use autok3s.Base.Exec.{Exec, continue, ◌>>=◌, ◌>>◌}
use autok3s.Types.{Metadata}

-- The labels of a gauge.
pub record Labels : Type 0 where
  pub provider : String
  pub k3s_version : String
  pub install_uuid : String

-- `apitypes.APIObject`, of an object that is a `V`.
pub record ApiObject (V : Type 0) : Type 0 where
  pub type_name : String
  pub id : String
  pub object : V

-- The names of the events, constants of rancher/apiserver.
pub data EventName : Type 0 where
  create_api_event : EventName
  change_api_event : EventName
  remove_api_event : EventName

pub data Effect (V : Type 0) : Type 0 where
  broadcast : EventName → ApiObject V → Effect V
  inc : Labels → Effect V
  dec : Labels → Effect V

-- The latest effect comes first.
pub record Store (Db V : Type 0) : Type 0 where
  pub db : Db
  pub log : List (Effect V)

unfoldable pub get_labels_from_meta : String → Metadata → Labels
get_labels_from_meta uuid meta = record {
  provider = meta.provider;
  k3s_version = if meta.k3s_version == "" then "unknown" else meta.k3s_version;
  install_uuid = if uuid == "" then "unknown" else uuid;
}

module _ {Db V : Type 0} where
  -- A call on the database.
  unfoldable pub on_db : {A : Type 0} → Exec Db A → Exec (Store Db V) A
  on_db m s = let (r, d) = m s.db in (r, record s { db = d })

  unfoldable pub effect : Effect V → Exec (Store Db V) Unit
  effect e s = (ok tt, record s { log = e ∷ s.log })

module _ {V : Type 0} where
  -- The value of all gauges together: what was added and what was taken away.
  unfoldable pub incs : List (Effect V) → ℕ
  incs [] = 0
  incs (inc l ∷ es) = suc (incs es)
  incs (dec l ∷ es) = incs es
  incs (broadcast n o ∷ es) = incs es

  unfoldable pub decs : List (Effect V) → ℕ
  decs [] = 0
  decs (inc l ∷ es) = decs es
  decs (dec l ∷ es) = suc (decs es)
  decs (broadcast n o ∷ es) = decs es

module _ {Db V : Type 0} (e : Effect V) where
  effect-db : (r : Result (Unit {0})) (s : Store Db V) → (continue r (λ x. effect e) s).1.db ≡ s.db
  unfolding continue effect
  effect-db (ok u) s = refl
  effect-db (err x) s = refl
  effect-db panic s = refl

  effect-answer : (r : Result (Unit {0})) (s : Store Db V) → (continue r (λ x. effect e) s).0 ≡ r
  unfolding continue effect
  effect-answer (ok u) s = refl
  effect-answer (err x) s = refl
  effect-answer panic s = refl

  -- An effect behind a call changes neither its answer nor what it did to the database.
  pub then_effect-db :
      (m : Exec Db Unit) (s : Store Db V) → ((on_db m >> effect e) s).1.db ≡ (m s.db).1
  unfolding ◌>>=◌ on_db
  then_effect-db m s = let (r, d) = m s.db in effect-db r (record s { db = d })

  pub then_effect-answer :
      (m : Exec Db Unit) (s : Store Db V) → ((on_db m >> effect e) s).0 ≡ (m s.db).0
  unfolding ◌>>=◌ on_db
  then_effect-answer m s = let (r, d) = m s.db in effect-answer r (record s { db = d })
