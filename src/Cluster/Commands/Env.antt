-- ===== src/Cluster/Commands/Env.antt =====
-- `getCommand`: the environment that the install script is run with.
use autok3s.Base.{
  String, Bool, not, ◌&&◌, List, ◌++◌, Option, some, none, ◌≡◌, arith, ◌<>◌, ◌==◌, if◌then◌else◌,
  join, lookup, put, lookup-put, split_once, is_set,
}
use autok3s.Types.{Node, Cluster}
use autok3s.Cluster.Commands.{get_run_args, env_var, install_env, mirror_env, api_server, is_airgap}

-- The version or channel to install, when the script downloads k3s.
abbrev pub wanted : Cluster → String → Option String
wanted c k =
    if is_airgap c
    then (if k == "INSTALL_K3S_SKIP_DOWNLOAD" then some "true" else none)
    else if is_set c.k3s_version
    then (if k == "INSTALL_K3S_VERSION" then some c.k3s_version else none)
    else if is_set c.k3s_channel
    then (if k == "INSTALL_K3S_CHANNEL" then some c.k3s_channel else none)
    else none

lookup-install_env : (c : Cluster) (k : String) → lookup k (install_env c) ≡ wanted c k
unfolding install_env lookup put
lookup-install_env c k = ground arith

-- The variables of the command, for any name: the arguments, the URL of a worker and the token win
-- over the user's mirror, and the mirror wins over the choice of version.
pub lookup-env_var :
    (f : Bool) (ip : String) (c : Cluster) (n : Node) (extra : List String) (k : String)
    → lookup k (env_var f ip c n extra) ≡ (
        if k == "INSTALL_K3S_EXEC"
        then some (join (get_run_args f ip c n ++ extra) " ")
        else if not n.master && k == "K3S_URL"
        then some ("https://" <> (ip <> ":6443"))
        else if k == "K3S_TOKEN"
        then some c.token
        else if is_set c.mirror && k == (split_once c.mirror b'=').0
        then some (split_once c.mirror b'=').1
        else wanted c k)
unfolding env_var
lookup-env_var f ip c n extra k = rw lookup-put (
    ground (
      arith,
      lookup-install_env c k,
      lookup-put "K3S_TOKEN" k c.token (mirror_env c (install_env c)),
      lookup-put "K3S_URL" k (api_server ip)
          (put "K3S_TOKEN" c.token (mirror_env c (install_env c))),
      lookup-put (split_once c.mirror b'=').0 k (split_once c.mirror b'=').1 (install_env c),
    ))
