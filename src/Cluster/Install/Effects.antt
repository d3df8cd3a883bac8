-- ===== src/Cluster/Install/Effects.antt =====
-- What the steps of `InitK3sCluster` before its end may change.
use autok3s.Base.{
  String, Bool, true, false, List, [], ◌∷◌, Option, ◌≡◌, arith, Result, ok, err, panic, is_some,
  lookup, put, lookup-put, ℕ, zero, suc, if◌then◌else◌,
}
use autok3s.Base.Exec.{Exec, pure, Steps}
use autok3s.Types.{Node, Cluster, Package}
use autok3s.Cluster.World.{
  ProviderBase, Provider, World, Outside, execute, execute_with_retry, attempt,
}
use autok3s.Cluster.Nodes.Effects.{
  Works, Works-IsOrder, Works-then, pure-Works, execute-Works, control-Works, worker-Works,
}
use autok3s.Cluster.Install.{
  init_first_worker, validate_cluster_config, init_controls, keep_error, init_workers,
  install_nodes, is_blank,
}

put_key :
    (k j v : String) (m : List (String × String))
    → is_some (lookup j m) ≡ true
    → is_some (lookup j (put k v m)) ≡ true
put_key k j v m h = ground (arith, lookup-put k j v m)

pub if-Works :
    {A : Type 0} (b : Bool) (m k : Exec World A)
    → Steps Works m
    → Steps Works k
    → Steps Works (if b then m else k)
if-Works true m k h h' = h
if-Works false m k h h' = h'

attempt-Works :
    (k : ℕ) (r : Result String) (w w' : World) (rest : Result String × World)
    → Works w w'
    → Works w rest.1
    → Works w (attempt k r w' rest).1
unfolding attempt
attempt-Works k (ok out) w w' rest h h' = h
attempt-Works zero (err e) w w' rest h h' = h
attempt-Works (suc k) (err e) w w' rest h h' = h'
attempt-Works k panic w w' rest h h' = h

module _ (p : ProviderBase) (o : Outside) where
  pub retry-Works :
      (k : ℕ) (n : Node) (cmds : List String) → Steps Works (execute_with_retry o k n cmds)
  unfolding execute_with_retry
  retry-Works zero n cmds w = Works-IsOrder.reflexive w
  retry-Works (suc k) n cmds w =
      let (r, w') = execute o n cmds w in
      attempt-Works k r w w' _ (execute-Works p o n cmds w)
        (Works-IsOrder.transitive w w' _ (execute-Works p o n cmds w) (retry-Works k n cmds w'))

  module _ (provider : Provider) (c : Cluster) (ip : String) (pkg : Option Package) where
    pub first_worker-Works :
        (ns : List Node) → Steps Works (init_first_worker p o provider c ip pkg ns)
    unfolding init_first_worker
    first_worker-Works [] = pure-Works p o tt
    first_worker-Works (n ∷ ns) =
        if-Works (is_blank n) (pure tt) _ (pure-Works p o tt) (worker-Works p o provider c ip pkg n)

    pub validate-Works :
        (m : Node) (ns : List Node)
        → Steps Works (validate_cluster_config p o provider c ip pkg m ns)
    unfolding validate_cluster_config
    validate-Works m ns =
        Works-then _ _ (control-Works p o provider c ip pkg m true) λ _. first_worker-Works ns

    pub controls-Works : (ms : List Node) → Steps Works (init_controls p o provider c ip pkg ms)
    unfolding init_controls
    controls-Works [] = pure-Works p o tt
    controls-Works (m ∷ ms) =
        Works-then _ _ (control-Works p o provider c ip pkg m false) λ _. controls-Works ms

    pub keep_error-Works :
        (n : Node) (w : World) (x : Result (Unit {0}) × World)
        → Works w x.1
        → Works w (keep_error p o provider c ip pkg n x).1
    unfolding keep_error
    keep_error-Works n w (ok u, w') h = h
    keep_error-Works n w (err e, w') h = record {
      done = h.done;
      log = h.log;
      rows = h.rows;
      cluster = h.cluster;
      errors = λ id k. put_key n.instance_id id e w'.err_m (h.errors id k);
    }
    keep_error-Works n w (panic, w') h = h

    pub workers-Works : (ns : List Node) → Steps Works (init_workers p o provider c ip pkg ns)
    unfolding init_workers
    workers-Works [] = pure-Works p o tt
    workers-Works (n ∷ ns) =
        Works-then _ _ (λ w. keep_error-Works n w _ (worker-Works p o provider c ip pkg n w))
          λ _. workers-Works ns

    pub install_nodes-Works : (m : Node) → Steps Works (install_nodes p o provider c ip pkg m)
    unfolding install_nodes
    install_nodes-Works m =
        Works-then _ _ (validate-Works m _)
          λ _. Works-then _ _ (controls-Works _) λ _. workers-Works _
