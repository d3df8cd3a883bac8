-- ===== src/Cluster/Upgrade/Nodes.antt =====
-- Which nodes have been upgraded when `Upgrade` succeeds.
use autok3s.Base.{
  String, Bool, true, false, is_some, if◌then◌else◌, ◌<>◌, List, [], ◌∷◌, Option, ◌≡◌, ap, ◌∙◌, sym,
  subst, ok, arith,
}
use autok3s.Base.Exec.{>>=-eq-ok, Steps}
use autok3s.Types.{Node, Cluster, Status, Package}
use autok3s.Cluster.World.{ProviderBase, Provider, World, Outside, remove_temporary}
use autok3s.Cluster.Nodes.Effects.{
  Works, Works-Grows, Works-then, Grows, steps_at, keep_run, HasRun, pure-Works, copy-Works,
  run-Works, run-HasRun,
}
use autok3s.Cluster.Commands.{get_command}
use autok3s.Cluster.Install.Address.{IsReached, choose_ip-IsReached}
use autok3s.Cluster.Install.Growth.{finally-eq-ok, cleanup-Grows}
use autok3s.Cluster.Install.Outcome.{choose_ip-eq-ok, gets-eq-ok, lift-eq-ok}
use autok3s.Cluster.Upgrade.{
  k3s_restart, k3s_agent_restart, upgrade_command, upgrade_node, upgrade_masters, upgrade_workers,
  upgrade_nodes, has_address, proceed, upgrade,
}

module _ (p : ProviderBase) (o : Outside) (provider : Provider) (c : Cluster) (ip : String)
    (pkg : Option Package) where
  -- The host has run the command of its upgrade without an error.
  abbrev pub IsServer : World → Bool → Node → Type 0
  IsServer w f n = HasRun p o w n (
      if is_some pkg
      then k3s_restart
      else get_command f ip c n
          ((c.master_extra_args <> provider.generate_master_extra_args c n) ∷ []))

  abbrev pub IsAgent : World → Node → Type 0
  IsAgent w n = HasRun p o w n (
      if is_some pkg
      then k3s_agent_restart
      else get_command false ip c n
          ((c.worker_extra_args <> provider.generate_worker_extra_args c n) ∷ []))

  node-Works :
      (f : Bool) (n : Node) (x restart : String)
      → Steps Works (upgrade_node p o provider c ip pkg f n x restart)
  unfolding upgrade_node
  node-Works f n x restart = Works-then _ _ (copy-Works p o pkg n x) λ _. run-Works p o n _

  node-HasRun :
      (f : Bool) (n : Node) (x restart : String) (w : World) {w' : World}
      → upgrade_node p o provider c ip pkg f n x restart w ≡ (ok tt, w')
      → HasRun p o w' n (upgrade_command p o provider c ip pkg f n x restart)
  unfolding upgrade_node
  node-HasRun f n x restart w h = let (_, u, _, k) = >>=-eq-ok _ _ w h in run-HasRun p o n _ u k

  masters-Works :
      (f : Bool) (ns : List Node) → Steps Works (upgrade_masters p o provider c ip pkg f ns)
  unfolding upgrade_masters
  masters-Works f [] = pure-Works p o tt
  masters-Works f (n ∷ ns) = Works-then _ _ (node-Works f n _ _) λ _. masters-Works false ns

  workers-Works : (ns : List Node) → Steps Works (upgrade_workers p o provider c ip pkg ns)
  unfolding upgrade_workers
  workers-Works [] = pure-Works p o tt
  workers-Works (n ∷ ns) = Works-then _ _ (node-Works false n _ _) λ _. workers-Works ns

  -- The first master as the first one, the others as later ones.
  abbrev pub AllServers : World → Bool → List Node → Type 0
  AllServers w f [] = Unit
  AllServers w f (n ∷ ns) = IsServer w f n × AllServers w false ns

  abbrev pub AllAgents : World → List Node → Type 0
  AllAgents w [] = Unit
  AllAgents w (n ∷ ns) = IsAgent w n × AllAgents w ns

  keep-AllServers :
      (w w' : World) (f : Bool) (ns : List Node)
      → Grows w w'
      → AllServers w f ns
      → AllServers w' f ns
  keep-AllServers w w' f [] g h = tt
  keep-AllServers w w' f (n ∷ ns) g (h, hs) =
      (keep_run p o w w' n _ g h, keep-AllServers w w' false ns g hs)

  keep-AllAgents : (w w' : World) (ns : List Node) → Grows w w' → AllAgents w ns → AllAgents w' ns
  keep-AllAgents w w' [] g h = tt
  keep-AllAgents w w' (n ∷ ns) g (h, hs) = (keep_run p o w w' n _ g h, keep-AllAgents w w' ns g hs)

  masters-AllServers :
      (f : Bool) (ns : List Node) (w : World) {w' : World}
      → upgrade_masters p o provider c ip pkg f ns w ≡ (ok tt, w')
      → AllServers w' f ns
  unfolding upgrade_masters
  masters-AllServers f [] w h = tt
  masters-AllServers f (n ∷ ns) w {w'} h =
      let (_, u, a, b) = >>=-eq-ok _ _ w h in
      let rest = upgrade_masters p o provider c ip pkg false ns in
      (
        keep_run p o u w' n _ (Works-Grows u w' (steps_at Works rest u (masters-Works false ns) b))
            (node-HasRun f n _ _ w a),
        masters-AllServers false ns u b,
      )

  workers-AllAgents :
      (ns : List Node) (w : World) {w' : World}
      → upgrade_workers p o provider c ip pkg ns w ≡ (ok tt, w')
      → AllAgents w' ns
  unfolding upgrade_workers
  workers-AllAgents [] w h = tt
  workers-AllAgents (n ∷ ns) w {w'} h =
      let (_, u, a, b) = >>=-eq-ok _ _ w h in
      let rest = upgrade_workers p o provider c ip pkg ns in
      (
        keep_run p o u w' n _ (Works-Grows u w' (steps_at Works rest u (workers-Works ns) b))
            (node-HasRun false n _ _ w a),
        workers-AllAgents ns u b,
      )

  nodes-eq-ok :
      (w : World) {w' : World}
      → upgrade_nodes p o provider c ip pkg w ≡ (ok tt, w')
      → AllServers w' true c.master_nodes × AllAgents w' c.worker_nodes
  unfolding upgrade_nodes
  nodes-eq-ok w {w'} h =
      let (_, u, a, b) = >>=-eq-ok _ _ w h in
      let rest = upgrade_workers p o provider c ip pkg c.worker_nodes in
      (
        keep-AllServers u w' true c.master_nodes
            (Works-Grows u w' (steps_at Works rest u (workers-Works c.worker_nodes) b))
            (masters-AllServers true c.master_nodes w a),
        workers-AllAgents c.worker_nodes u b,
      )

module _ (p : ProviderBase) (o : Outside) where
  has_address-eq-ok : (w : World) {w' : World} → has_address p o w ≡ (ok tt, w') → w' ≡ w
  unfolding has_address
  has_address-eq-ok w h = ground arith

  -- One run that succeeded: the provider, the cluster with its address and else as it was given, and the
  -- package.
  pub record IsUpgraded (w w' : World) : Type 0 where
    pub provider : Provider
    pub c : Cluster
    pub public_ip : String
    pub pkg : Option Package
    pub asked : o.get_provider p.provider ≡ ok provider
    pub reached : IsReached w.cluster c public_ip
    pub prepared : o.prepare_package w.log w.cluster ≡ ok pkg
    pub servers : AllServers p o provider c public_ip pkg w' true w.cluster.master_nodes
    pub agents : AllAgents p o provider c public_ip pkg w' w.cluster.worker_nodes

  -- If the call succeeds, the hosts have run the commands of the upgrade without an error: every master,
  -- the first one as the first, and every worker, with a restart where the cluster has a package and
  -- with the install command where it has none. That is the one of the cluster as it was given, with its
  -- address, or those of its first master where it has none, and the arguments of the provider.
  pub upgrade_reaches_all : (w : World) {w' : World} → upgrade p o w ≡ (ok tt, w') → IsUpgraded w w'
  unfolding upgrade proceed
  upgrade_reaches_all w {w'} h =
      let (_, s, a, h1) = >>=-eq-ok _ _ w h in
      let (pkg, t, b, h2) = >>=-eq-ok _ _ s h1 in
      let (v, d, e) = finally-eq-ok (remove_temporary pkg) (proceed p o pkg) t h2 in
      let (provider, t', a1, d1) = >>=-eq-ok _ _ t d in
      let (x, u, a2, d2) = >>=-eq-ok _ _ t' d1 in
      let (c, u', a3, d3) = >>=-eq-ok _ _ u d2 in
      let (asked, still') = lift-eq-ok p o (o.get_provider p.provider) t a1 in
      let (_, kept) = choose_ip-eq-ok p o t' a2 in
      let (same, _) = gets-eq-ok p o (λ (y : World). y.cluster) u a3 in
      let still : s ≡ w = has_address-eq-ok w a in
      let t_is : t ≡ s = sym (ap (λ y. y.1) b) in
      let state : c.state ≡ w.cluster.state =
        ap (λ (y : Cluster). y.state) same
        ∙ kept
        ∙ ap (λ (y : World). y.cluster.state) (still' ∙ t_is ∙ still) in
      let (servers, agents) = nodes-eq-ok p o provider c x.1 pkg u' d3 in
      let grows = subst (Grows v) e (cleanup-Grows pkg v) in
      record {
        provider = provider;
        c = c;
        public_ip = x.1;
        pkg = pkg;
        asked = asked;
        reached =
            subst (λ before. IsReached before c x.1)
              (ap (λ (y : World). y.cluster) (still' ∙ t_is ∙ still))
              (subst (λ after. IsReached t'.cluster after x.1) (sym same)
                (choose_ip-IsReached p o t' a2));
        prepared =
            ap (λ (y : World). o.prepare_package y.log y.cluster) (sym still) ∙ ap (λ y. y.0) b;
        servers =
            subst (λ (y : Status). AllServers p o provider c x.1 pkg w' true y.master_nodes) state
              (keep-AllServers p o provider c x.1 pkg v w' true c.master_nodes grows servers);
        agents =
            subst (λ (y : Status). AllAgents p o provider c x.1 pkg w' y.worker_nodes) state
              (keep-AllAgents p o provider c x.1 pkg v w' c.worker_nodes grows agents);
      }
