-- ===== src/Cluster/Tests.antt =====
-- The commands of a small cluster.
use autok3s.Base.{
  String, true, false, ◌||◌, [], ◌∷◌, ◌≡◌, refl, some, contains, IsSorted, Distinct, any_prefix,
  join, lookup, split_once, put, sort, trim_space, text_leb,
}
use autok3s.Types.{Node}
use autok3s.Types.Sample.{node_at, etcd_cluster}
use autok3s.Cluster.Commands.{get_first_address, get_tls_sans, get_run_args, env_var, get_command}
use autok3s.Cluster.Commands.Sans.{is_address_of, get_tls_sans_lem}
use autok3s.Cluster.Commands.Mode.{get_run_args_mode}
use autok3s.Cluster.Commands.Env.{lookup-env_var}

abbrev second : Node
second = node_at true "m2" "10.0.0.2"

abbrev agent : Node
agent = node_at false "w1" "10.0.0.9"

get_tls_sans_lem_example :
    IsSorted (get_tls_sans etcd_cluster)
    × Distinct (get_tls_sans etcd_cluster)
    × ((a : String)
        → contains (get_tls_sans etcd_cluster) a
          ≡ (contains etcd_cluster.tls_sans a || is_address_of etcd_cluster.master_nodes a))
get_tls_sans_lem_example = get_tls_sans_lem etcd_cluster

get_run_args_mode_example :
    let args = get_run_args false "10.0.0.1" etcd_cluster second in
    (any_prefix "--cluster-init" args ≡ false) × (any_prefix "--server=" args ≡ true)
get_run_args_mode_example = get_run_args_mode false "10.0.0.1" etcd_cluster second

lookup-env_var_example :
    lookup "K3S_URL" (env_var false "10.0.0.1" etcd_cluster agent []) ≡ some "https://10.0.0.1:6443"
lookup-env_var_example = lookup-env_var false "10.0.0.1" etcd_cluster agent [] "K3S_URL"

agent_command :
    get_command false "10.0.0.1" etcd_cluster agent ("" ∷ [])
    ≡ "curl -sLS https://get.k3s.io | INSTALL_K3S_CHANNEL='stable' INSTALL_K3S_EXEC='--node-external-ip=10.0.0.9 ' INSTALL_K3S_MIRROR='cn' K3S_TOKEN='secret' K3S_URL='https://10.0.0.1:6443' sh -"
unfolding get_command env_var get_run_args get_first_address put join sort split_once trim_space
    text_leb
agent_command = refl
