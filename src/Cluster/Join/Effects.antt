-- ===== src/Cluster/Join/Effects.antt =====
-- What the steps of `Join` may change.
use autok3s.Base.{
  String, Bool, true, false, List, [], ◌∷◌, Option, refl, Result, ok, err, panic, contains, ◌==◌,
  if◌then◌else◌,
}
use autok3s.Base.Exec.{lift, Steps}
use autok3s.Types.{Node, Cluster, Package}
use autok3s.Cluster.World.{ProviderBase, Provider, World, Outside, config_saved, save_cfg}
use autok3s.Cluster.Nodes.Effects.{
  Works, Works-IsOrder, Works-then, pure-Works, lift-Works, execute-Works, init_node-Works,
}
use autok3s.Cluster.Install.Effects.{keep_error-Works}
use autok3s.Cluster.Join.{
  ignore, join_masters, join_workers, save_config, fetch_config, native_config,
}

if-world :
    (b : Bool) (x y : Result (Unit {0}) × World) (w : World)
    → Works w x.1
    → Works w y.1
    → Works w (if b then x else y).1
if-world true x y w h h' = h
if-world false x y w h h' = h'

ignore-Works : (x : Result (Unit {0}) × World) (w : World) → Works w x.1 → Works w (ignore x).1
unfolding ignore
ignore-Works (ok u, w') w h = h
ignore-Works (err e, w') w h = h
ignore-Works (panic, w') w h = h

module _ (p : ProviderBase) (o : Outside) (added : Cluster) where
  module _ (provider : Provider) (c : Cluster) (pkg : Option Package) where
    pub masters-Works : (ns : List Node) → Steps Works (join_masters p o added provider c pkg ns)
    unfolding join_masters
    masters-Works [] = pure-Works p o tt
    masters-Works (n ∷ ns) =
        Works-then _ _ (init_node-Works p o false c.ip c n _ pkg) λ _. masters-Works ns

    pub workers-Works : (ns : List Node) → Steps Works (join_workers p o added provider c pkg ns)
    unfolding join_workers
    workers-Works [] = pure-Works p o tt
    workers-Works (n ∷ ns) =
        Works-then _ _
          (λ w.
            keep_error-Works p o provider c c.ip pkg n w _
              (init_node-Works p o false c.ip c n _ pkg w))
          λ _. workers-Works ns

    save_cfg-Works : (cfg : String) (w : World) → Works w (save_cfg o cfg c.ip p.context_name w).1
    unfolding save_cfg
    save_cfg-Works cfg w = record {
      done = config_saved cfg c.ip p.context_name ∷ [];
      log = refl;
      rows = refl;
      cluster = refl;
      errors = λ id h. h;
    }

    save_config-Works :
        (x : Result String × World) (w : World)
        → Works w x.1
        → Works w (save_config p o added provider c pkg x).1
    unfolding save_config
    save_config-Works (ok cfg, w') w h =
        ignore-Works (save_cfg o cfg c.ip p.context_name w') w
          (Works-IsOrder.transitive w w' _ h (save_cfg-Works cfg w'))
    save_config-Works (err e, w') w h = h
    save_config-Works (panic, w') w h = h

    fetch-Works :
        (contexts : List String) → Steps Works (fetch_config p o added provider c pkg contexts)
    unfolding fetch_config
    fetch-Works contexts w =
        if-world (contains contexts p.context_name) _ _ w (Works-IsOrder.reflexive w)
          (save_config-Works _ w (execute-Works p o _ _ w))

    pub native-Works : Steps Works (native_config p o added provider c pkg)
    unfolding native_config
    native-Works w =
        if-world (p.provider == "native") _ _ w
          (Works-then (lift o.kube_contexts) (fetch_config p o added provider c pkg)
            (lift-Works p o o.kube_contexts) fetch-Works w)
          (Works-IsOrder.reflexive w)
