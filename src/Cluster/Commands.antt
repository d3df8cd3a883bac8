-- ===== src/Cluster/Commands.antt =====
-- pkg/cluster/commands.go: the command that installs k3s on a node. A Go map whose entries are sorted
-- before they are used is an association list.
pub mod Sans
pub mod Mode
pub mod Env
pub mod Store
use autok3s.Base.{
  String, Bool, true, false, not, ◌&&◌, ◌||◌, List, [], ◌∷◌, ◌++◌, ◌==◌, ◌<>◌, map, if◌then◌else◌,
  is_set, add_key, sort, join, split_once, trim_space, put,
}
use autok3s.Types.{Node, Cluster}

abbrev pub data_store_certificates_path : String
data_store_certificates_path = "/etc/rancher/datastore"

unfoldable pub get_first_address : List String → String
get_first_address [] = ""
get_first_address (addr ∷ addresses) = if is_set addr then addr else get_first_address addresses

-- One key of `dedump`, unless the address is empty.
add_address : String → List String → List String
unfolding add_key
add_address addr dedump = if is_set addr then add_key addr dedump else dedump

-- The two loops of `getTLSSans`, on the keys of `dedump`.
add_sans : List String → List String → List String
unfolding add_key
add_sans [] dedump = dedump
add_sans (san ∷ sans) dedump = add_sans sans (add_key san dedump)

add_masters : List Node → List String → List String
unfolding add_address
add_masters [] dedump = dedump
add_masters (master ∷ masters) dedump = add_masters masters (
    add_address (get_first_address master.internal_ip_address)
      (add_address (get_first_address master.public_ip_address) dedump))

unfoldable pub get_tls_sans : Cluster → List String
unfolding add_sans add_masters
get_tls_sans c = sort (add_masters c.master_nodes (add_sans c.tls_sans []))

-- `if test { runArgs = append(runArgs, arg) }`.
abbrev arg_if : Bool → String → List String
arg_if true arg = arg ∷ []
arg_if false arg = []

-- `isCluster`: the embedded etcd is used only without an external datastore.
abbrev pub is_cluster : Cluster → Bool
is_cluster c = if is_set c.data_store then false else c.cluster

abbrev api_server : String → String
api_server fixed_ip = "https://" <> (fixed_ip <> ":6443")

-- The branch of `getRunArgs` for a master.
server_args : Bool → String → Cluster → Node → List String
server_args is_first_master fixed_ip c node =
    arg_if (is_set c.data_store) ("--datastore-endpoint=" <> c.data_store)
    ++ (arg_if (is_set c.data_store_ca_file_content || is_set c.data_store_ca_file)
          "--datastore-cafile=/etc/rancher/datastore/ds-ca.pem"
        ++ (arg_if (is_set c.data_store_cert_file_content || is_set c.data_store_cert_file)
              "--datastore-certfile=/etc/rancher/datastore/ds-cert.pem"
            ++ (arg_if (is_set c.data_store_key_file_content || is_set c.data_store_key_file)
                  "--datastore-keyfile=/etc/rancher/datastore/ds-key.pem"
                ++ (arg_if (is_cluster c && is_first_master) "--cluster-init"
                    ++ (arg_if (is_cluster c && not is_first_master)
                          ("--server=" <> api_server fixed_ip)
                        ++ (arg_if (is_set c.cluster_cidr) ("--cluster-cidr=" <> c.cluster_cidr)
                            ++ (map (λ san. "--tls-san=" <> san) (get_tls_sans c)
                                ++ arg_if (is_set (get_first_address node.internal_ip_address)) (
                                    "--advertise-address="
                                    <> get_first_address node.internal_ip_address))))))))

-- The arguments that a worker gets too.
common_args : Cluster → Node → List String
common_args c node =
    arg_if (is_set (get_first_address node.public_ip_address))
      ("--node-external-ip=" <> get_first_address node.public_ip_address)
    ++ (arg_if (is_set c.network) ("--flannel-backend=" <> c.network)
        ++ arg_if (is_set c.system_default_registry)
            ("--system-default-registry=" <> c.system_default_registry))

unfoldable pub get_run_args : Bool → String → Cluster → Node → List String
unfolding server_args common_args
get_run_args is_first_master fixed_ip c node =
    if node.master
    then "server" ∷ sort (server_args is_first_master fixed_ip c node ++ common_args c node)
    else sort (common_args c node)

abbrev pub EnvVars : Type 0
EnvVars = List (String × String)

abbrev pub is_airgap : Cluster → Bool
is_airgap c = is_set c.package_name || is_set c.package_path

-- The first `if` of `getCommand`: where k3s comes from.
install_env : Cluster → EnvVars
install_env c =
    if is_airgap c
    then put "INSTALL_K3S_SKIP_DOWNLOAD" "true" []
    else if is_set c.k3s_version
    then put "INSTALL_K3S_VERSION" c.k3s_version []
    else if is_set c.k3s_channel
    then put "INSTALL_K3S_CHANNEL" c.k3s_channel []
    else []

mirror_env : Cluster → EnvVars → EnvVars
mirror_env c env =
    let (k, v) = split_once c.mirror b'=' in if is_set c.mirror then put k v env else env

url_env : String → Node → EnvVars → EnvVars
url_env fixed_ip node env = if node.master then env else put "K3S_URL" (api_server fixed_ip) env

-- `envVar` as it stands when it is printed.
unfoldable pub env_var : Bool → String → Cluster → Node → List String → EnvVars
unfolding install_env mirror_env url_env
env_var is_first_master fixed_ip c node extra_args =
    put "INSTALL_K3S_EXEC" (join (get_run_args is_first_master fixed_ip c node ++ extra_args) " ")
      (url_env fixed_ip node (put "K3S_TOKEN" c.token (mirror_env c (install_env c))))

abbrev show_env : String × String → String
show_env (k, v) = k <> ("='" <> (v <> "'"))

unfoldable pub get_command : Bool → String → Cluster → Node → List String → String
get_command is_first_master fixed_ip c node extra_args =
    let command_prefix = if is_airgap c then "" else "curl -sLS " <> (c.install_script <> " |") in
    let command_suffix = if is_airgap c then "install.sh" else "sh -" in
    let sorted_env_vars =
      sort (map show_env (env_var is_first_master fixed_ip c node extra_args)) in
    trim_space (command_prefix <> (" " <> (join sorted_env_vars " " <> (" " <> command_suffix))))
