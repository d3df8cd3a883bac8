-- ===== src/Cluster/Uninstall/Tests.antt =====
-- Two nodes, of which the host of the worker refuses every command.
use autok3s.Base.{true, false, [], ◌∷◌, ok, ◌≡◌, refl, List}
use autok3s.Base.Exec.{◌>>=◌}
use autok3s.Types.{Node}
use autok3s.Types.Sample.{node_at}
use autok3s.Cluster.Install.Sample.{hosts, before}
use autok3s.Cluster.World.{execute}
use autok3s.Cluster.Uninstall.{uninstall_k3s_nodes}

abbrev nodes : List Node
nodes = node_at true "m1" "10.0.0.1" ∷ node_at false "w2" "10.0.0.4" ∷ []

one_warning :
    (uninstall_k3s_nodes hosts nodes before).0
    ≡ ok ("failed to uninstall k3s on worker node w2: unreachable" ∷ [])
unfolding uninstall_k3s_nodes ◌>>=◌ execute
one_warning = refl
