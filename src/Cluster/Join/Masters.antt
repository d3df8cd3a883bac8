-- ===== src/Cluster/Join/Masters.antt =====
-- What the success of `Join` says of the new masters and of the cluster.
use autok3s.Base.{false, ◌<>◌, length, List, [], ◌∷◌, Option, ◌≡◌, ok, ◌==◌}
use autok3s.Types.{Node, Cluster, Package}
use autok3s.Cluster.Commands.{get_command}
use autok3s.Cluster.World.{ProviderBase, Provider, World, Outside}
use autok3s.Cluster.Nodes.{node_by_instance_id}
use autok3s.Cluster.Nodes.Effects.{HasRun}
use autok3s.Cluster.Join.{found_nodes}
use autok3s.Cluster.Join.Options.{IsAddressed, HasToken, shared}
use autok3s.Cluster.Lifecycle.{itoa}

module _ (p : ProviderBase) (o : Outside) (added : Cluster) where
  module _ (provider : Provider) (c : Cluster) (pkg : Option Package) where
    -- The host has run the command that joins it, without an error.
    abbrev pub HasJoined : World → Node → Type 0
    HasJoined w n = HasRun p o w n (
        get_command false c.ip c n
          ((c.master_extra_args <> provider.generate_master_extra_args added n) ∷ []))

    -- All of these nodes have.
    abbrev pub AllJoined : World → List Node → Type 0
    AllJoined w [] = Unit
    AllJoined w (n ∷ ns) = HasJoined w n × AllJoined w ns

    abbrev pub new_masters : List Node
    new_masters = found_nodes added.master_nodes (node_by_instance_id c.master_nodes [])

  -- One run that succeeded: the provider, the package, the cluster with its address and then with its
  -- token, and what has been joined.
  pub record IsJoined (w w' : World) : Type 0 where
    pub provider : Provider
    pub c : Cluster
    pub pkg : Option Package
    pub asked : o.get_provider w.cluster.provider ≡ ok provider
    pub prepared : o.prepare_package w.log w.cluster ≡ ok pkg
    pub mid : Cluster
    pub addressed : IsAddressed w.cluster mid
    pub tokened : HasToken mid c
    pub has_token : (c.token == "") ≡ false
    pub state : c.state ≡ w.cluster.state
    pub masters : AllJoined provider c pkg w' (shared added.master_nodes w.cluster.master_nodes)
    pub running : w'.cluster ≡ record c {
      metadata = record c.metadata {
        master = itoa (length c.master_nodes);
        worker = itoa (length c.worker_nodes);
      };
      state = record c.state { status = "Running" };
    }
