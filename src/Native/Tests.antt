-- ===== src/Native/Tests.antt =====
-- Two masters, of which one is given again as a worker.
use autok3s.Base.{true, false, [], ◌∷◌, some, ◌≡◌, refl, lookup, split, join, ok, err}
use autok3s.Types.Sample.{blank_ssh}
use autok3s.Cluster.Checks.{Facts}
use autok3s.Manage.Sample as Sample
use autok3s.Native.{
  Native, create_defaults, create_check, is_existed, assemble_node_status, node_of, unmark,
}
use autok3s.Native.Nodes.{made, settled, last_ip, assemble_node_status-nodes}

abbrev given : Native
given = record {
  base = record Sample.native {
    state = record Sample.native.state { master_nodes = []; worker_nodes = [] };
  };
  options = record { master_ips = "10.0.0.1,10.0.0.2"; worker_ips = "10.0.0.2" };
  m = [];
}

abbrev known : Native
known = record given {
  base = record given.base {
    state = record given.base.state { worker_nodes = node_of false blank_ssh "10.0.0.2" ∷ [] };
  };
}

-- Without the embedded etcd and without a datastore.
abbrev single : Native
single = record given {
  base = record given.base {
    metadata = record given.base.metadata { cluster = false; data_store = "" };
  };
}

abbrev facts : Facts
facts = record {
  get_cluster = ok (some "Running");
  check_cluster_exist = ok true;
  is_file_exists = λ f. true;
}

assemble_node_status-nodes_example :
    lookup "10-0-0-2" (assemble_node_status blank_ssh given).m
    ≡ settled given.base.state (made blank_ssh given "10-0-0-2")
assemble_node_status-nodes_example = assemble_node_status-nodes blank_ssh given "10-0-0-2"

new_worker : made blank_ssh given "10-0-0-2" ≡ some (node_of false blank_ssh "10.0.0.2")
unfolding made last_ip split join
new_worker = refl

known_worker :
    settled known.base.state (made blank_ssh known "10-0-0-2")
    ≡ some (unmark (node_of false blank_ssh "10.0.0.2"))
unfolding made last_ip is_existed split join
known_worker = refl

default_key : (create_defaults blank_ssh).ssh_key_path ≡ "~/.ssh/id_rsa"
unfolding create_defaults
default_key = refl

two_masters : create_check facts single ≡ err "need to set `--cluster` or `--datastore` for HA mode"
unfolding create_check split
two_masters = refl
