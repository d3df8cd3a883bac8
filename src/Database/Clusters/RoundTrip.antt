-- ===== src/Database/Clusters/RoundTrip.antt =====
-- What `GetCluster` and `ConvertToCluster` return of a cluster that `SaveCluster` has just saved.
use autok3s.Base.{◌>>=◌, String, false, List, Result, ok, ◌≡◌, map}
use autok3s.Types.{Node, Cluster}
use autok3s.Types.Array.{IsKept}
use autok3s.Database.Table.{Table}
use autok3s.Database.ClusterState.{ClusterState, row_of, Codec}

-- The fields of a node that JSON keeps: `RollBack` and `Current` are marked `json:"-"`.
abbrev pub json_node : Node → Node
json_node n = record n { roll_back = false; current = false }

-- The documented round trips of encoding/json and of a provider's options.
pub record RoundTrips (j : Codec) : Type 0 where
  pub nodes :
      (ns : List Node) {text : String}
      → j.marshal_nodes ns ≡ ok text
      → j.unmarshal_nodes text ≡ map json_node ns
  pub options :
      (provider opt : String) {text : String}
      → j.marshal_options opt ≡ ok text
      → j.get_provider_options provider text ≡ ok opt

-- What is left of a cluster: not the key itself nor the certificate, and not `Standalone`, which
-- `ConvertToCluster` does not copy.
abbrev pub kept : Cluster → Cluster
kept c = record c {
  ssh = record c.ssh { ssh_key = ""; ssh_cert = "" };
  state = record {
    status = c.status;
    master_nodes = map json_node c.master_nodes;
    worker_nodes = map json_node c.worker_nodes;
    standalone = false;
  };
}

module _ (j : Codec) (laws : RoundTrips j) (c : Cluster) (sans : IsKept c.tls_sans)
    (enabled : IsKept c.enable) where
  -- What was marshalled of a row.
  abbrev IsRow : Result String → Result String → Result String → ClusterState → Type 0
  IsRow r r' r'' st =
      (opt : String) × (ms : String) × (ws : String) × (r ≡ ok opt)
      × (r' ≡ ok ms)
      × (r'' ≡ ok ws)
      × (row_of j c opt ms ws ≡ st)
