-- ===== src/Cluster/Lifecycle/Tests.antt =====
-- A creation in which one of two workers has failed.
use autok3s.Base.{String, true, false, List, [], ◌∷◌, none, some, ◌≡◌, refl}
use autok3s.Types.{Cluster}
use autok3s.Types.Sample.{blank_ssh, blank_status, etcd_cluster, node_at}
use autok3s.Cluster.World.{ProviderBase}
use autok3s.Cluster.Lifecycle.{Site, Answers, itoa, count, next, show_digit, finish_create}
use autok3s.Cluster.Lifecycle.Failed.{other_than, finish_create_splits_workers}

abbrev row : Cluster
row = record etcd_cluster {
  state = record blank_status {
    worker_nodes = node_at false "w1" "10.0.0.3" ∷ node_at false "w2" "10.0.0.4" ∷ [];
  };
}

abbrev base : ProviderBase
base = record {
  metadata = record etcd_cluster.metadata { rollback = true };
  state = blank_status;
  ssh = blank_ssh;
}

abbrev answers : Answers
answers = record {
  get_fails = none;
  save_fails = none;
  rollback = some (λ ids. none);
  readable = true;
}

abbrev before : Site
before = record {
  m = [];
  err_m = ("w2", "unreachable") ∷ [];
  row = some row;
  rolled_back = [];
  context = true;
}

counts : itoa 102 ≡ "102"
unfolding itoa count next show_digit
counts = refl

finish_create_splits_workers_example :
    let s' = finish_create base "" answers false before in
    (ids : List String) × (c' : Cluster) × (s'.rolled_back ≡ ids ∷ [])
    × (s'.row ≡ some c')
    × (c'.worker_nodes ≡ other_than ids row.worker_nodes)
    × (c'.master_nodes ≡ [])
    × (c'.status ≡ "")
finish_create_splits_workers_example =
    finish_create_splits_workers base "" answers false before row (λ ids. none) refl refl refl refl
      refl refl
