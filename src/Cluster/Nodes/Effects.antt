-- ===== src/Cluster/Nodes/Effects.antt =====
-- What installing nodes may change, and what its success says of the log.
use autok3s.Base.{
  String, Bool, true, false, List, [], ◌∷◌, ◌++◌, Option, none, some, ◌≡◌, refl, ap, ◌∙◌, sym, inl,
  arith, Result, ok, err, panic, In, In-append, is_some, lookup, subst,
}
use autok3s.Base.Exec.{Exec, ◌>>=◌, pure, lift, continue, >>=-eq-ok, Steps, IsOrder, >>=-Steps}
use autok3s.Types.{Node, Cluster, Package}
use autok3s.Cluster.Commands.{get_command}
use autok3s.Cluster.World.{
  ProviderBase, Provider, Action, ran, copied, World, Outside, execute, scp_files, succeeded,
}
use autok3s.Cluster.Nodes.{
  handle_data_store_certificate, handle_registry, when, install_docker, copy_package, prepare_node,
  init_node, init_control_node, init_worker_node, master_args, worker_args,
}

-- The log and the errors grow, and the cluster and the rows are as before.
pub record Works (w w' : World) : Type 0 where
  pub done : List Action
  pub log : w'.log ≡ done ++ w.log
  pub rows : w'.rows ≡ w.rows
  pub cluster : w'.cluster ≡ w.cluster
  pub errors :
      (id : String) → is_some (lookup id w.err_m) ≡ true → is_some (lookup id w'.err_m) ≡ true

-- The log and the errors grow.
pub record Grows (w w' : World) : Type 0 where
  pub done : List Action
  pub log : w'.log ≡ done ++ w.log
  pub errors :
      (id : String) → is_some (lookup id w.err_m) ≡ true → is_some (lookup id w'.err_m) ≡ true

pub Works-Grows : (w w' : World) → Works w w' → Grows w w'
Works-Grows w w' h = record { done = h.done; log = h.log; errors = h.errors }

append_assoc {ℓ} : {A : Type ℓ} (xs ys zs : List A) → xs ++ (ys ++ zs) ≡ (xs ++ ys) ++ zs
append_assoc [] ys zs = refl
append_assoc (x ∷ xs) ys zs = ap (λ l. x ∷ l) (append_assoc xs ys zs)

pub Works-IsOrder : IsOrder Works
Works-IsOrder = record {
  reflexive =
      λ w. record { done = []; log = refl; rows = refl; cluster = refl; errors = λ id h. h };
  transitive = λ w u v a b. record {
    done = b.done ++ a.done;
    log = b.log ∙ ap (λ l. b.done ++ l) a.log ∙ append_assoc b.done a.done w.log;
    rows = b.rows ∙ a.rows;
    cluster = b.cluster ∙ a.cluster;
    errors = λ id h. b.errors id (a.errors id h);
  };
}

pub Grows-IsOrder : IsOrder Grows
Grows-IsOrder = record {
  reflexive = λ w. record { done = []; log = refl; errors = λ id h. h };
  transitive = λ w u v a b. record {
    done = b.done ++ a.done;
    log = b.log ∙ ap (λ l. b.done ++ l) a.log ∙ append_assoc b.done a.done w.log;
    errors = λ id h. b.errors id (a.errors id h);
  };
}

-- What a step may do, read off one run of it.
pub steps_at :
    {A : Type 0} (R : World → World → Type 0) (m : Exec World A) (w : World) {r : Result A}
    {w' : World}
    → Steps R m
    → m w ≡ (r, w')
    → R w w'
steps_at R m w s h = subst (λ x. R w x.1) h (s w)

pub Works-then :
    {A B : Type 0} (m : Exec World A) (k : A → Exec World B)
    → Steps Works m
    → ((a : A) → Steps Works (k a))
    → Steps Works (m >>= k)
Works-then = >>=-Steps Works Works-IsOrder

module _ (p : ProviderBase) (o : Outside) where
  pub lift-Works : {A : Type 0} (r : Result A) → Steps Works (lift r)
  unfolding lift
  lift-Works r w = Works-IsOrder.reflexive w

  pub pure-Works : {A : Type 0} (a : A) → Steps Works (pure a)
  unfolding pure
  pure-Works a w = Works-IsOrder.reflexive w

  pub execute-Works : (n : Node) (cmds : List String) → Steps Works (execute o n cmds)
  unfolding execute
  execute-Works n [] w = Works-IsOrder.reflexive w
  execute-Works n (cmd ∷ cmds) w = record {
    done = ran n (cmd ∷ cmds) (succeeded (o.run w.log n (cmd ∷ cmds))) ∷ [];
    log = refl;
    rows = refl;
    cluster = refl;
    errors = λ id h. h;
  }

  pub copy-Works :
      (pkg : Option Package) (n : Node) (x : String) → Steps Works (copy_package p o pkg n x)
  unfolding copy_package scp_files pure
  copy-Works none n x w = Works-IsOrder.reflexive w
  copy-Works (some pkg) n x w = record {
    done = copied n x (succeeded (o.scp_files w.log n pkg x)) ∷ [];
    log = refl;
    rows = refl;
    cluster = refl;
    errors = λ id h. h;
  }

  pub run-Works : (n : Node) (cmds : List String) → Steps Works (execute o n cmds >>= λ _. pure tt)
  run-Works n cmds = Works-then _ _ (execute-Works n cmds) λ _. pure-Works tt

  certificate-Works : (n : Node) (c : Cluster) → Steps Works (handle_data_store_certificate p o n c)
  unfolding handle_data_store_certificate
  certificate-Works n c =
      Works-then _ _ (lift-Works _) λ ca.
        Works-then _ _ (lift-Works _) λ cert. Works-then _ _ (lift-Works _) λ key. run-Works n _

  registry-Works : (n : Node) (c : Cluster) → Steps Works (handle_registry p o n c)
  unfolding handle_registry
  registry-Works n c = Works-then _ _ (lift-Works _) λ registry.
      Works-then _ _ (lift-Works _) λ tls. Works-then _ _ (lift-Works _) λ content. run-Works n _

  docker-Works : (n : Node) (c : Cluster) → Steps Works (install_docker p o n c)
  unfolding install_docker
  docker-Works n c = run-Works n _

  when-Works : (b : Bool) (m : Exec World Unit) → Steps Works m → Steps Works (when p o b m)
  unfolding when
  when-Works true m h = h
  when-Works false m h = Works-IsOrder.reflexive

  prepare-Works :
      (c : Cluster) (n : Node) (x : String) (pkg : Option Package)
      → Steps Works (prepare_node p o c n x pkg)
  unfolding prepare_node
  prepare-Works c n x pkg = Works-then _ _ (when-Works _ _ (docker-Works n c)) λ _.
      Works-then _ _ (when-Works _ _ (registry-Works n c))
        λ _. Works-then _ _ (when-Works _ _ (certificate-Works n c)) λ _. copy-Works pkg n x

  pub init_node-Works :
      (f : Bool) (ip : String) (c : Cluster) (n : Node) (x : String) (pkg : Option Package)
      → Steps Works (init_node p o f ip c n x pkg)
  unfolding init_node
  init_node-Works f ip c n x pkg = Works-then _ _ (prepare-Works c n x pkg) λ _. run-Works n _

  -- The host has run this one command without an error.
  abbrev pub HasRun : World → Node → String → Type 0
  HasRun w n cmd = In (ran n (cmd ∷ []) true) w.log

  pub keep_run :
      (w w' : World) (n : Node) (cmd : String) → Grows w w' → HasRun w n cmd → HasRun w' n cmd
  keep_run w w' n cmd h r =
      subst (λ l. In (ran n (cmd ∷ []) true) l) (sym h.log) (In-append _ h.done w.log r)

  answer-HasRun :
      (n : Node) (cmd : String) (w : World) (r : Result String) {w' : World}
      → continue r (λ _. pure tt) (record w { log = ran n (cmd ∷ []) (succeeded r) ∷ w.log })
        ≡ (ok tt, w')
      → HasRun w' n cmd
  unfolding continue pure
  answer-HasRun n cmd w (ok out) h = subst (λ u. HasRun u n cmd) (ap (λ x. x.1) h) (inl refl)
  answer-HasRun n cmd w (err e) h = ground arith
  answer-HasRun n cmd w panic h = ground arith

  pub run-HasRun :
      (n : Node) (cmd : String) (w : World) {w' : World}
      → (execute o n (cmd ∷ []) >>= λ _. pure tt) w ≡ (ok tt, w')
      → HasRun w' n cmd
  unfolding ◌>>=◌ execute
  run-HasRun n cmd w h = answer-HasRun n cmd w (o.run w.log n (cmd ∷ [])) h

  pub init_node-HasRun :
      (f : Bool) (ip : String) (c : Cluster) (n : Node) (x : String) (pkg : Option Package)
      (w : World) {w' : World}
      → init_node p o f ip c n x pkg w ≡ (ok tt, w')
      → HasRun w' n (get_command f ip c n (x ∷ []))
  unfolding init_node
  init_node-HasRun f ip c n x pkg w h = let (_, u, _, k) = >>=-eq-ok _ _ w h in run-HasRun n _ u k

  module _ (provider : Provider) (c : Cluster) (ip : String) (pkg : Option Package) where
    pub control-Works :
        (n : Node) (f : Bool) → Steps Works (init_control_node p o provider c ip pkg n f)
    unfolding init_control_node
    control-Works n f = init_node-Works f ip c n (master_args p o provider c ip pkg n) pkg

    pub worker-Works : (n : Node) → Steps Works (init_worker_node p o provider c ip pkg n)
    unfolding init_worker_node
    worker-Works n = init_node-Works false ip c n (worker_args p o provider c ip pkg n) pkg

    pub control-HasRun :
        (n : Node) (f : Bool) (w : World) {w' : World}
        → init_control_node p o provider c ip pkg n f w ≡ (ok tt, w')
        → HasRun w' n (get_command f ip c n (master_args p o provider c ip pkg n ∷ []))
    unfolding init_control_node
    control-HasRun n f w h = init_node-HasRun f ip c n (master_args p o provider c ip pkg n) pkg w h

    pub worker-HasRun :
        (n : Node) (w : World) {w' : World}
        → init_worker_node p o provider c ip pkg n w ≡ (ok tt, w')
        → HasRun w' n (get_command false ip c n (worker_args p o provider c ip pkg n ∷ []))
    unfolding init_worker_node
    worker-HasRun n w h =
        init_node-HasRun false ip c n (worker_args p o provider c ip pkg n) pkg w h
