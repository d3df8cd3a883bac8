-- ===== src/Types/Sample.antt =====
-- Values with empty fields, from which the tests build their inputs.
use autok3s.Base.{String, Bool, true, false, [], ◌∷◌}
use autok3s.Types.{Ssh, Node, Metadata, Status, Cluster, Package}

abbrev pub blank_ssh : Ssh
blank_ssh = record {
  ssh_port = "";
  ssh_user = "";
  ssh_password = "";
  ssh_key_path = "";
  ssh_cert_path = "";
  ssh_key_passphrase = "";
  ssh_agent_auth = false;
  ssh_key_name = "";
  ssh_key = "";
  ssh_cert = "";
}

abbrev pub node_at : Bool → String → String → Node
node_at master id ip = record {
  ssh = blank_ssh;
  instance_id = id;
  instance_status = "";
  public_ip_address = ip ∷ [];
  internal_ip_address = ip ∷ [];
  eip_allocation_ids = [];
  master = master;
  roll_back = false;
  current = false;
  standalone = false;
  local_hostname = "";
}

abbrev pub blank_metadata : Metadata
blank_metadata = record {
  name = "";
  provider = "";
  master = "";
  worker = "";
  token = "";
  ip = "";
  tls_sans = [];
  cluster_cidr = "";
  master_extra_args = "";
  worker_extra_args = "";
  registry = "";
  system_default_registry = "";
  data_store = "";
  k3s_version = "";
  k3s_channel = "";
  install_script = "";
  mirror = "";
  docker_mirror = "";
  docker_arg = "";
  docker_script = "";
  network = "";
  ui = false;
  cluster = false;
  context_name = "";
  registry_content = "";
  manifests = "";
  enable = [];
  package_path = "";
  package_name = "";
  data_store_ca_file = "";
  data_store_cert_file = "";
  data_store_key_file = "";
  data_store_ca_file_content = "";
  data_store_cert_file_content = "";
  data_store_key_file_content = "";
  rollback = false;
  values = [];
}

abbrev pub blank_status : Status
blank_status = record { status = ""; master_nodes = []; worker_nodes = []; standalone = false }

-- A cluster with the embedded etcd and two masters.
abbrev pub etcd_cluster : Cluster
etcd_cluster = record {
  metadata = record blank_metadata {
    name = "demo";
    token = "secret";
    tls_sans = "demo.example" ∷ "10.0.0.1" ∷ [];
    install_script = "https://get.k3s.io";
    k3s_channel = "stable";
    mirror = "INSTALL_K3S_MIRROR=cn";
    cluster = true;
  };
  options = "";
  ssh = blank_ssh;
  state = record blank_status {
    master_nodes = node_at true "m1" "10.0.0.1" ∷ node_at true "m2" "10.0.0.2" ∷ [];
  };
}

abbrev pub amd_package : Package
amd_package = record {
  name = "edge";
  k3s_version = "v1.27";
  archs = "amd64" ∷ [];
  file_path = "";
  state = "";
}
