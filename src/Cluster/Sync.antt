-- ===== src/Cluster/Sync.antt =====
-- pkg/cluster/base.go: `syncExistNodes`, which brings the instances of `p.M` into the lists of nodes,
-- with `IsExistedNodes` of pkg/providers/utils/utils.go.
pub mod Ids
mod Tests
use autok3s.Base.{String, Bool, true, false, List, [], ◌∷◌, ◌==◌, if◌then◌else◌}
use autok3s.Types.{Node, Status}

-- The node with this ID gets the new state of its instance; without one, the node is appended.
pub sync_into : Node → List Node → List Node
sync_into v [] = v ∷ []
sync_into v (n ∷ nodes) =
    let rest = sync_into v nodes in
    if n.instance_id == v.instance_id
    then record n { instance_status = v.instance_status } ∷ nodes
    else n ∷ rest

-- Into the list of its kind.
pub sync_as : Bool → Node → Status → Status
unfolding sync_into
sync_as true v s = record s { master_nodes = sync_into v s.master_nodes }
sync_as false v s = record s { worker_nodes = sync_into v s.worker_nodes }

-- The body of the walk.
abbrev pub sync_node : Node → Status → Status
sync_node v s = sync_as v.master v s

-- `p.M` in the order of the walk.
pub sync_exist_nodes : List (String × Node) → Status → Status
unfolding sync_as
sync_exist_nodes [] s = s
sync_exist_nodes ((key, v) ∷ m) s = sync_exist_nodes m (sync_node v s)
