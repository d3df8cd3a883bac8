-- ===== src/Cluster/Install/Nodes.antt =====
-- Which nodes have run the install command when `InitK3sCluster` succeeds.
use autok3s.Base.{
  if◌then◌else◌, null, String, Bool, true, false, List, [], ◌∷◌, Option, ◌≡◌, refl, ap, sym, arith,
  subst, eq_refl, Result, ok, err, panic, Bool-cases, ◌⊎◌, inl, inr, In, is_some, lookup, put,
  lookup-put,
}
use autok3s.Base.Exec.{>>=-eq-ok}
use autok3s.Types.{Node, Cluster, Package}
use autok3s.Cluster.Commands.{get_command}
use autok3s.Cluster.World.{ProviderBase, Provider, World, Outside}
use autok3s.Cluster.Nodes.{init_worker_node, master_args, worker_args}
use autok3s.Cluster.Nodes.Effects.{
  Works, Grows, Works-IsOrder, Works-Grows, steps_at, HasRun, keep_run, control-HasRun,
  worker-HasRun,
}
use autok3s.Cluster.Install.{
  other_masters, workers_of, rest_of, is_blank, init_first_worker, validate_cluster_config,
  init_controls, keep_error, init_workers, install_nodes,
}
use autok3s.Cluster.Install.Effects.{controls-Works, workers-Works, first_worker-Works}

put_self : (k v : String) (m : List (String × String)) → is_some (lookup k (put k v m)) ≡ true
put_self k v m = ground (arith, lookup-put k k v m, eq_refl k)

module _ (p : ProviderBase) (o : Outside) (provider : Provider) (c : Cluster) (ip : String)
    (pkg : Option Package) where
  -- The master has run its install command, as the first one or not.
  abbrev pub IsMaster : World → Bool → Node → Type 0
  IsMaster w f n = HasRun p o w n (get_command f ip c n (master_args p o provider c ip pkg n ∷ []))

  abbrev pub IsWorker : World → Node → Type 0
  IsWorker w n =
      HasRun p o w n (get_command false ip c n (worker_args p o provider c ip pkg n ∷ []))

  abbrev pub HasError : World → Node → Type 0
  HasError w n = is_some (lookup n.instance_id w.err_m) ≡ true

  -- A worker that is installed ahead of the others: its failure ends the call.
  abbrev pub FirstWorker : World → List Node → Type 0
  FirstWorker w [] = Unit
  FirstWorker w (n ∷ ns) = (is_blank n ≡ true) ⊎ IsWorker w n

  keep-IsMaster :
      (w w' : World) (f : Bool) (n : Node) → Works w w' → IsMaster w f n → IsMaster w' f n
  keep-IsMaster w w' f n h = keep_run p o w w' n _ (Works-Grows w w' h)

  keep-IsWorker : (w w' : World) (n : Node) → Works w w' → IsWorker w n → IsWorker w' n
  keep-IsWorker w w' n h = keep_run p o w w' n _ (Works-Grows w w' h)

  controls-IsMaster :
      (ms : List Node) (w : World) {w' : World}
      → init_controls p o provider c ip pkg ms w ≡ (ok tt, w')
      → (n : Node) → In n ms
      → IsMaster w' false n
  unfolding init_controls
  controls-IsMaster [] w h n i = absurd i.lower
  controls-IsMaster (m ∷ ms) w {w'} h n i =
      let (_, u, a, b) = >>=-eq-ok _ _ w h in
      elim i [
        | inl e ↦ subst (IsMaster w' false) (sym e) (
            keep-IsMaster u w' false m
              (steps_at Works (init_controls p o provider c ip pkg ms) u
                (controls-Works p o provider c ip pkg ms) b)
              (control-HasRun p o provider c ip pkg m false w a))
        | inr i' ↦ controls-IsMaster ms u b n i'
      ]

  -- After its goroutine a worker is installed, or its error is kept.
  keep_error-outcome :
      (n : Node) (x : Result (Unit {0}) × World) {w' : World}
      → (x.0 ≡ ok tt → IsWorker x.1 n)
      → keep_error p o provider c ip pkg n x ≡ (ok tt, w')
      → IsWorker w' n ⊎ HasError w' n
  unfolding keep_error
  keep_error-outcome n (ok u, w) h e = inl (subst (λ x. IsWorker x n) (ap (λ x. x.1) e) (h refl))
  keep_error-outcome n (err m, w) h e =
      inr (subst (λ x. HasError x n) (ap (λ x. x.1) e) (put_self n.instance_id m w.err_m))
  keep_error-outcome n (panic, w) h e = ground arith

  IsWorker-outcome :
      (n : Node) (w : World) {w' : World}
      → keep_error p o provider c ip pkg n (init_worker_node p o provider c ip pkg n w)
        ≡ (ok tt, w')
      → IsWorker w' n ⊎ HasError w' n
  IsWorker-outcome n w h =
      keep_error-outcome n (init_worker_node p o provider c ip pkg n w)
        (λ e.
          worker-HasRun p o provider c ip pkg n w
            (ap (λ r. (r, (init_worker_node p o provider c ip pkg n w).1)) e))
        h

  workers-outcome :
      (ns : List Node) (w : World) {w' : World}
      → init_workers p o provider c ip pkg ns w ≡ (ok tt, w')
      → (n : Node) → In n ns
      → IsWorker w' n ⊎ HasError w' n
  unfolding init_workers
  workers-outcome [] w h n i = absurd i.lower
  workers-outcome (m ∷ ms) w {w'} h n i =
      let (_, u, a, b) = >>=-eq-ok _ _ w h in
      elim i [
        | inl e ↦
            let works =
              steps_at Works (init_workers p o provider c ip pkg ms) u
                (workers-Works p o provider c ip pkg ms) b in
            subst (λ x. IsWorker w' x ⊎ HasError w' x) (sym e)
              (elim (IsWorker-outcome m w a) [
                | inl r ↦ inl (keep-IsWorker u w' m works r)
                | inr r ↦ inr (works.errors m.instance_id r)
              ])
        | inr i' ↦ workers-outcome ms u b n i'
      ]

  FirstWorker-outcome :
      (ns : List Node) (w : World) {w' : World}
      → init_first_worker p o provider c ip pkg ns w ≡ (ok tt, w')
      → FirstWorker w' ns
  unfolding init_first_worker
  FirstWorker-outcome [] w h = tt
  FirstWorker-outcome (n ∷ ns) w h = elim (Bool-cases (is_blank n)) [
    | inl b ↦ inl b
    | inr b ↦ inr (worker-HasRun p o provider c ip pkg n w (rw b at h))
  ]

  keep-FirstWorker :
      (w w' : World) (ns : List Node) → Grows w w' → FirstWorker w ns → FirstWorker w' ns
  keep-FirstWorker w w' [] h f = tt
  keep-FirstWorker w w' (n ∷ ns) h (inl b) = inl b
  keep-FirstWorker w w' (n ∷ ns) h (inr r) = inr (keep_run p o w w' n _ h r)

  abbrev pub behind : List Node → List Node
  behind [] = []
  behind (n ∷ ns) = ns

  -- None if `p` has none.
  abbrev pub given_workers : List Node
  given_workers = if null p.worker_nodes then [] else c.worker_nodes

  -- What is known of the nodes of `c`, whose first master is `m`.
  pub record IsInstalled (w : World) (m : Node) : Type 0 where
    pub leader : IsMaster w true m
    pub masters : (n : Node) → In n (behind c.master_nodes) → IsMaster w false n
    pub first_worker : FirstWorker w given_workers
    pub workers : (n : Node) → In n (behind given_workers) → IsWorker w n ⊎ HasError w n

  keep_outcome :
      (w w' : World) (n : Node)
      → Grows w w'
      → IsWorker w n ⊎ HasError w n
      → IsWorker w' n ⊎ HasError w' n
  keep_outcome w w' n g (inl r) = inl (keep_run p o w w' n _ g r)
  keep_outcome w w' n g (inr e) = inr (g.errors n.instance_id e)

  pub keep_installed : (m : Node) (w w' : World) → Grows w w' → IsInstalled w m → IsInstalled w' m
  keep_installed m w w' g h = record {
    leader = keep_run p o w w' m _ g h.leader;
    masters = λ n i. keep_run p o w w' n _ g (h.masters n i);
    first_worker = keep-FirstWorker w w' (workers_of p c) g h.first_worker;
    workers = λ n i. keep_outcome w w' n g (h.workers n i);
  }

  pub install_nodes-IsInstalled :
      (m : Node) (w : World) {w' : World}
      → ((ns : List Node) (n : Node) → In n ns → In n (o.schedule ns))
      → install_nodes p o provider c ip pkg m w ≡ (ok tt, w')
      → IsInstalled w' m
  unfolding install_nodes validate_cluster_config
  install_nodes-IsInstalled m w {w'} fair h =
      let (_, u, a, b) = >>=-eq-ok _ _ w h in
      let (_, v, b', d) = >>=-eq-ok _ _ u b in
      let (_, t, a', a'') = >>=-eq-ok _ _ w a in
      let ns = o.schedule (rest_of (workers_of p c)) in
      let first_one =
        steps_at Works (init_first_worker p o provider c ip pkg (workers_of p c)) t
          (first_worker-Works p o provider c ip pkg (workers_of p c)) a'' in
      let controls =
        steps_at Works (init_controls p o provider c ip pkg (other_masters c)) u
          (controls-Works p o provider c ip pkg (other_masters c)) b' in
      let workers =
        steps_at Works (init_workers p o provider c ip pkg ns) v
          (workers-Works p o provider c ip pkg ns) d in
      let after = Works-IsOrder.transitive u v w' controls workers in
      record {
        leader =
            keep-IsMaster t w' true m (Works-IsOrder.transitive t u w' first_one after)
              (control-HasRun p o provider c ip pkg m true w a');
        masters = λ n i. keep-IsMaster v w' false n workers (controls-IsMaster _ u b' n i);
        first_worker =
            keep-FirstWorker u w' _ (Works-Grows u w' after) (FirstWorker-outcome _ t a'');
        workers = λ n i. workers-outcome ns v d n (fair _ n i);
      }
