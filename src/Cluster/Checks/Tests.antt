-- ===== src/Cluster/Checks/Tests.antt =====
-- A cluster of two masters on the embedded etcd.
use autok3s.Base.{
  String, Bool, true, false, ◌||◌, none, some, ◌≡◌, refl, ok, err, any_prefix, has_infix,
  has_prefix,
}
use autok3s.Types.{Cluster}
use autok3s.Types.Sample.{blank_ssh, blank_status, etcd_cluster, node_at}
use autok3s.Cluster.Commands.{get_run_args}
use autok3s.Cluster.World.{ProviderBase}
use autok3s.Cluster.Checks.{
  Facts, pos, negsuc, negate, atoi, unsigned, digits, signed, number, check_create_args,
  check_numbers, is_taken, check_file,
}
use autok3s.Cluster.Checks.Masters.{checked_masters_join}

abbrev base : String → Bool → ProviderBase
base masters etcd = record {
  metadata = record etcd_cluster.metadata {
    provider = "aws";
    master = masters;
    worker = "0";
    cluster = etcd;
  };
  state = blank_status;
  ssh = blank_ssh;
}

abbrev two_masters : Cluster
two_masters = record etcd_cluster { metadata = (base "2" true).metadata }

abbrev facts : Facts
facts = record {
  get_cluster = ok none;
  check_cluster_exist = ok false;
  is_file_exists = λ path. true;
}

accepts : check_create_args facts (base "2" true) ≡ ok tt
unfolding check_create_args check_numbers number atoi unsigned digits signed is_taken check_file
    has_infix has_prefix
accepts = refl

refuses :
    check_create_args facts (base "2" false)
    ≡ err "need to set `--cluster` or `--datastore` when `--master` number > 1"
unfolding check_create_args check_numbers number atoi unsigned digits signed negate
refuses = refl

reads : (atoi "-7" ≡ some (negsuc 6)) × (atoi "1O" ≡ none)
unfolding atoi unsigned digits signed negate
reads = (refl, refl)

two : atoi "2" ≡ some (pos 2)
unfolding atoi unsigned digits signed negate
two = refl

checked_masters_join_example :
    let args = get_run_args false "10.0.0.1" two_masters (node_at true "m2" "10.0.0.2") in
    (any_prefix "--server=" args || any_prefix "--datastore-endpoint=" args) ≡ true
checked_masters_join_example =
    checked_masters_join facts (base "2" true) (pos 2) two_masters (node_at true "m2" "10.0.0.2")
      "10.0.0.1" refl refl two refl accepts refl refl
