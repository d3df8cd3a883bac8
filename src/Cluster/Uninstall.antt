-- ===== src/Cluster/Uninstall.antt =====
-- pkg/cluster/cluster.go: `UninstallK3sNodes`.
pub mod Sent
mod Tests
use autok3s.Base.{
  String, Bool, true, false, List, [], ◌∷◌, ◌++◌, ◌<>◌, Result, ok, err, panic, if◌then◌else◌,
}
use autok3s.Base.Exec.{Exec, pure, ◌>>=◌}
use autok3s.Types.{Node}
use autok3s.Cluster.World.{World, Outside, execute}

abbrev pub master_uninstall_command : String
master_uninstall_command =
    "[ -x /usr/local/bin/k3s-uninstall.sh ] && sh /usr/local/bin/k3s-uninstall.sh || true"

abbrev pub worker_uninstall_command : String
worker_uninstall_command =
    "[ -x /usr/local/bin/k3s-agent-uninstall.sh ] && sh /usr/local/bin/k3s-agent-uninstall.sh || true"

abbrev pub uninstall_command : Node → String
uninstall_command n = if n.master then master_uninstall_command else worker_uninstall_command

abbrev pub warning : Node → String → String
warning n e =
    "failed to uninstall k3s on "
    <> (if n.master then "master" else "worker")
    <> " node "
    <> n.instance_id
    <> ": "
    <> e

-- An error becomes a warning.
abbrev pub warned : Node → Result String → Result (List String)
warned n (ok out) = ok []
warned n (err e) = ok (warning n e ∷ [])
warned n panic = panic

module _ (o : Outside) where
  abbrev pub uninstall_node : Node → Exec World (List String)
  uninstall_node n w = let (r, w') = execute o n (uninstall_command n ∷ []) w in (warned n r, w')

  pub uninstall_k3s_nodes : List Node → Exec World (List String)
  uninstall_k3s_nodes [] = pure []
  uninstall_k3s_nodes (n ∷ ns) = do
    warn ← uninstall_node n
    rest ← uninstall_k3s_nodes ns
    pure (warn ++ rest)
