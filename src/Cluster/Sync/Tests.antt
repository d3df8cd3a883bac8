-- ===== src/Cluster/Sync/Tests.antt =====
-- One new master and one worker that is known.
use autok3s.Base.{String, true, false, List, [], ◌∷◌, ◌≡◌, refl, contains, Distinct}
use autok3s.Types.{Node, Status}
use autok3s.Types.Sample.{blank_status, node_at}
use autok3s.Cluster.Sync.{sync_exist_nodes, sync_as, sync_into}
use autok3s.Cluster.Sync.Ids.{ids, sync_exist_nodes-ids}

abbrev known : Status
known = record blank_status { worker_nodes = node_at false "w1" "10.0.0.3" ∷ [] }

abbrev walk : List (String × Node)
walk =
    ("m1", node_at true "m1" "10.0.0.1")
    ∷ ("w1", record (node_at false "w1" "") { instance_status = "Running" })
    ∷ []

keeps_address :
    (sync_exist_nodes walk known).worker_nodes
    ≡ record (node_at false "w1" "10.0.0.3") { instance_status = "Running" } ∷ []
unfolding sync_exist_nodes sync_as sync_into
keeps_address = refl

sync_exist_nodes-ids_example :
    let s' = sync_exist_nodes walk known in
    Distinct (ids s'.master_nodes)
    × Distinct (ids s'.worker_nodes)
    × (contains (ids s'.master_nodes) "m1" ≡ true)
    × (contains (ids s'.worker_nodes) "m1" ≡ false)
unfolding contains
sync_exist_nodes-ids_example = sync_exist_nodes-ids walk known "m1" tt (refl, tt)
