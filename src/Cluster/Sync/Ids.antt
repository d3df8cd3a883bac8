-- ===== src/Cluster/Sync/Ids.antt =====
-- The IDs of the nodes after `syncExistNodes`.
use autok3s.Base.{
  String, Bool, true, false, not, ◌||◌, ◌&&◌, List, [], ◌∷◌, ◌≡◌, refl, sym, ap, ◌∙◌, subst, arith,
  ◌==◌, eq_iff, if◌then◌else◌, map, contains, add_key, contains-add_key, add_key-Distinct, Distinct,
}
use autok3s.Types.{Node, Status}
use autok3s.Cluster.Sync.{sync_into, sync_as, sync_node, sync_exist_nodes}

abbrev pub ids : List Node → List String
ids nodes = map (λ (n : Node). n.instance_id) nodes

-- Some instance of the walk is a master, or a worker, and has this ID.
abbrev pub synced : Bool → List (String × Node) → String → Bool
synced master [] id = false
synced master ((key, v) ∷ m) id =
    (if master then v.master else not v.master) && id == v.instance_id || synced master m id

sync_into-ids :
    (v : Node) (nodes : List Node) → ids (sync_into v nodes) ≡ add_key v.instance_id (ids nodes)
unfolding sync_into add_key contains
sync_into-ids v [] = refl
sync_into-ids v (n ∷ nodes) = ground (
  arith,
  sync_into-ids v nodes,
  eq_iff n.instance_id v.instance_id,
  eq_iff v.instance_id n.instance_id,
)

into-contains :
    (v : Node) (nodes : List Node) (id : String)
    → contains (ids (sync_into v nodes)) id ≡ (id == v.instance_id || contains (ids nodes) id)
into-contains v nodes id =
    ap (λ l. contains l id) (sync_into-ids v nodes) ∙ contains-add_key v.instance_id (ids nodes) id

into-Distinct :
    (v : Node) (nodes : List Node) → Distinct (ids nodes) → Distinct (ids (sync_into v nodes))
into-Distinct v nodes h =
    subst Distinct (sym (sync_into-ids v nodes)) (add_key-Distinct v.instance_id (ids nodes) h)

as-Distinct :
    (b : Bool) (v : Node) (s : Status)
    → Distinct (ids s.master_nodes)
    → Distinct (ids s.worker_nodes)
    → Distinct (ids (sync_as b v s).master_nodes) × Distinct (ids (sync_as b v s).worker_nodes)
unfolding sync_as
as-Distinct true v s h h' = (into-Distinct v s.master_nodes h, h')
as-Distinct false v s h h' = (h, into-Distinct v s.worker_nodes h')

as-contains :
    (b : Bool) (v : Node) (s : Status) (id : String)
    → (contains (ids (sync_as b v s).master_nodes) id
        ≡ (b && id == v.instance_id || contains (ids s.master_nodes) id))
      × (contains (ids (sync_as b v s).worker_nodes) id
          ≡ (not b && id == v.instance_id || contains (ids s.worker_nodes) id))
unfolding sync_as
as-contains true v s id = (into-contains v s.master_nodes id, refl)
as-contains false v s id = (refl, into-contains v s.worker_nodes id)

or_nil : (a : Bool) → a ≡ (a || false)
or_nil a = ground arith

or_swap : (a b d : Bool) → (a || b || d) ≡ (b || (a || d))
or_swap a b d = ground arith

-- The masters and the workers have distinct IDs afterwards if they had before, and the IDs in each list
-- are those that were there and those of the instances of its kind.
pub sync_exist_nodes-ids :
    (m : List (String × Node)) (s : Status) (id : String)
    → Distinct (ids s.master_nodes)
    → Distinct (ids s.worker_nodes)
    → let s' = sync_exist_nodes m s in
      Distinct (ids s'.master_nodes)
      × Distinct (ids s'.worker_nodes)
      × (contains (ids s'.master_nodes) id ≡ (contains (ids s.master_nodes) id || synced true m id))
      × (contains (ids s'.worker_nodes) id
          ≡ (contains (ids s.worker_nodes) id || synced false m id))
unfolding sync_exist_nodes
sync_exist_nodes-ids [] s id h h' = (h, h', or_nil _, or_nil _)
sync_exist_nodes-ids ((key, v) ∷ m) s id h h' =
    let (k, k') = as-Distinct v.master v s h h' in
    let (a, b, e, e') = sync_exist_nodes-ids m (sync_node v s) id k k' in
    let (c, c') = as-contains v.master v s id in
    (
      a,
      b,
      e ∙ ap (λ x. x || synced true m id) c ∙ or_swap (v.master && id == v.instance_id) _ _,
      e' ∙ ap (λ x. x || synced false m id) c' ∙ or_swap (not v.master && id == v.instance_id) _ _,
    )
