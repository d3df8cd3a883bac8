-- ===== src/Cluster/Install/Outcome.antt =====
-- `InitK3sCluster` as a whole: what its success says of every node of the cluster.
use autok3s.Base.{
  ◌==◌, ◌⊎◌, inl, inr, true, false, err, panic, Bool-cases, String, List, [], ◌∷◌, Option, some,
  ◌≡◌, refl, ap, ◌∙◌, sym, arith, subst, Result, ok, contains, In,
}
use autok3s.Base.Exec.{◌>>=◌, continue, lift, gets, modify, >>=-eq-ok, Steps}
use autok3s.Types.{Node, Cluster, Status, Package}
use autok3s.Cluster.World.{
  ProviderBase, Provider, World, Outside, act, config_saved, explorer_enabled, save_cfg,
  save_cluster, execute_with_retry, remove_temporary,
}
use autok3s.Cluster.Nodes.Effects.{Works, Grows, Works-Grows, Grows-IsOrder, steps_at}
use autok3s.Cluster.Install.Address.{IsReached, choose_ip-IsReached}
use autok3s.Cluster.Install.{
  set_token, head, first_master, set_running, update, ensure_token, choose_ip, install_nodes,
  enable_plugins, register, deploy, install, init_k3s_cluster, cat_cfg_command,
}
use autok3s.Cluster.Install.Effects.{retry-Works, install_nodes-Works}
use autok3s.Cluster.Install.Nodes.{IsInstalled, install_nodes-IsInstalled, keep_installed}
use autok3s.Cluster.Install.Growth.{
  Grows-then, update-Grows, update-cluster, finally-eq-ok, act-Grows, run-Grows, keep_row-Grows,
  cleanup-Grows, cleanup-cluster,
}

module _ (p : ProviderBase) (o : Outside) where
  ensure_token-state : (w : World) → (ensure_token p o w).1.cluster.state ≡ w.cluster.state
  unfolding ensure_token update modify ◌>>=◌ lift
  ensure_token-state w = ground arith

  pub choose_ip-eq-ok :
      (w : World) {m : Node} {ip : String} {w' : World}
      → choose_ip p o w ≡ (ok (m, ip), w')
      → (first_master w.cluster ≡ some m) × (w'.cluster.state ≡ w.cluster.state)
  unfolding choose_ip update modify ◌>>=◌ lift
  choose_ip-eq-ok w h = ground arith

  module _ (provider : Provider) (c : Cluster) (ip : String) (pkg : Option Package) where
    save_cfg-Grows : (cfg context : String) → Steps Grows (save_cfg o cfg ip context)
    unfolding save_cfg
    save_cfg-Grows cfg context w = record {
      done = config_saved cfg ip context ∷ [];
      log = refl;
      errors = λ id h. h;
    }

    save_cfg-cluster :
        (cfg context : String) (w : World) {r : Result (Unit {0})} {w' : World}
        → save_cfg o cfg ip context w ≡ (r, w')
        → w'.cluster ≡ w.cluster
    unfolding save_cfg
    save_cfg-cluster cfg context w h = sym (ap (λ x. x.1.cluster) h)

    save_cluster-Grows : Steps Grows (save_cluster o)
    unfolding save_cluster
    save_cluster-Grows w = keep_row-Grows w (o.save_cluster w.log w.cluster)

    plugins-Grows : Steps Grows (enable_plugins p o provider c ip pkg)
    unfolding enable_plugins
    plugins-Grows w =
        run-Grows (contains c.enable "explorer") _ _ w
          (act-Grows (explorer_enabled c.context_name) w) (Grows-IsOrder.reflexive w)

    register-eq-ok :
        (m : Node) (w : World) {w' : World}
        → register p o provider c ip pkg m w ≡ (ok tt, w')
        → Grows w w' × (w'.cluster ≡ set_running w.cluster)
    unfolding register
    register-eq-ok m w {w'} h =
        let attempts = execute_with_retry o 3 m (cat_cfg_command ∷ []) in
        let (cfg, u, a, b) = >>=-eq-ok _ _ w h in
        let (_, v, a', b') = >>=-eq-ok _ _ u b in
        let works = steps_at Works attempts w (retry-Works p o 3 m (cat_cfg_command ∷ [])) a in
        let saved =
          steps_at Grows (save_cfg o cfg ip c.context_name) u (save_cfg-Grows cfg c.context_name)
            a' in
        let updated = steps_at Grows (update set_running) v (update-Grows set_running) b' in
        (
          Grows-IsOrder.transitive w u w' (Works-Grows w u works)
              (Grows-IsOrder.transitive u v w' saved updated),
          update-cluster set_running v b'
              ∙ ap set_running (save_cfg-cluster cfg c.context_name u a' ∙ works.cluster),
        )

    finish-Grows : Steps Grows (save_cluster o >>= λ _. enable_plugins p o provider c ip pkg)
    finish-Grows = Grows-then _ _ save_cluster-Grows λ _. plugins-Grows

    finish-cluster :
        (w : World)
        → ((save_cluster o >>= λ _. enable_plugins p o provider c ip pkg) w).1.cluster ≡ w.cluster
    unfolding save_cluster enable_plugins ◌>>=◌ act
    finish-cluster w = ground arith

    deploy-eq-ok :
        (m : Node) (w : World) {w' : World}
        → ((ns : List Node) (n : Node) → In n ns → In n (o.schedule ns))
        → deploy p o provider c ip pkg m w ≡ (ok tt, w')
        → IsInstalled p o provider c ip pkg w' m × (w'.cluster ≡ set_running w.cluster)
    unfolding deploy
    deploy-eq-ok m w {w'} fair h =
        let nodes = install_nodes p o provider c ip pkg m in
        let finish = save_cluster o >>= λ _. enable_plugins p o provider c ip pkg in
        let (_, u, a, h') = >>=-eq-ok _ _ w h in
        let (_, v, b, d) = >>=-eq-ok _ _ u h' in
        let works = steps_at Works nodes w (install_nodes-Works p o provider c ip pkg m) a in
        let (grows, running) = register-eq-ok m u b in
        let grows' = steps_at Grows finish v finish-Grows d in
        (
          keep_installed p o provider c ip pkg m u w' (Grows-IsOrder.transitive u v w' grows grows')
              (install_nodes-IsInstalled p o provider c ip pkg m w fair a),
          sym (ap (λ x. x.1.cluster) d) ∙ finish-cluster v ∙ running ∙ ap set_running works.cluster,
        )

  pub lift-eq-ok :
      {A : Type 0} (r : Result A) (w : World) {a : A} {w' : World}
      → lift r w ≡ (ok a, w')
      → (r ≡ ok a) × (w' ≡ w)
  unfolding lift
  lift-eq-ok r w h = (ap (λ x. x.0) h, sym (ap (λ x. x.1) h))

  pub gets-eq-ok :
      {A : Type 0} (f : World → A) (w : World) {a : A} {w' : World}
      → gets f w ≡ (ok a, w')
      → (a ≡ f w) × (w' ≡ w)
  unfolding gets
  gets-eq-ok f w h = ground arith

  -- The cluster with its own token, or else a random one.
  abbrev pub HasToken : Cluster → Cluster → Type 0
  HasToken before c =
      ((before.token == "") ≡ false) × (c ≡ before)
      ⊎ ((before.token == "") ≡ true)
        × (token : String) × (o.random_token ≡ ok token)
        × (c ≡ record before { metadata = record before.metadata { token = token } })

  random_token-HasToken :
      (w : World) {u : World}
      → (w.cluster.token == "") ≡ true
      → (r : Result String) → o.random_token ≡ r
      → continue r (λ token. update (set_token token)) w ≡ (ok tt, u)
      → HasToken w.cluster u.cluster
  unfolding continue update modify
  random_token-HasToken w b (ok token) e h = inr (b, token, e, sym (ap (λ x. x.1.cluster) h))
  random_token-HasToken w b (err m) e h = ground arith
  random_token-HasToken w b panic e h = ground arith

  ensure_token-HasToken :
      (w : World) {u : World} → ensure_token p o w ≡ (ok tt, u) → HasToken w.cluster u.cluster
  unfolding ensure_token update modify ◌>>=◌ lift continue
  ensure_token-HasToken w h = elim (Bool-cases (w.cluster.token == "")) [
    | inr b ↦ inl (b, sym (ap (λ x. x.1.cluster) (rw b at h)))
    | inl b ↦ random_token-HasToken w b o.random_token refl (rw b at h)
  ]

  -- One run that succeeded: what was asked of the provider, the cluster with its token and then with its
  -- address, and the nodes.
  pub record IsOutcome (w w' : World) : Type 0 where
    pub provider : Provider
    pub c : Cluster
    pub public_ip : String
    pub pkg : Option Package
    pub m : Node
    pub asked : o.get_provider p.provider ≡ ok provider
    pub mid : Cluster
    pub tokened : HasToken w.cluster mid
    pub reached : IsReached mid c public_ip
    pub state : c.state ≡ w.cluster.state
    pub running : w'.cluster ≡ set_running c
    pub leader : first_master w.cluster ≡ some m
    pub installed : IsInstalled p o provider c public_ip pkg w' m

  install-IsOutcome :
      (provider : Provider) (pkg : Option Package) (w : World) {w' : World}
      → o.get_provider p.provider ≡ ok provider
      → ((ns : List Node) (n : Node) → In n ns → In n (o.schedule ns))
      → install p o provider pkg w ≡ (ok tt, w')
      → IsOutcome w w'
  unfolding install
  install-IsOutcome provider pkg w {w'} asked fair h =
      let (_, t, a, h1) = >>=-eq-ok _ _ w h in
      let (x, u, b, h2) = >>=-eq-ok _ _ t h1 in
      let (c, v, d, h3) = >>=-eq-ok _ _ u h2 in
      let (same, still) = gets-eq-ok (λ x. x.cluster) u d in
      let (leader, kept) = choose_ip-eq-ok t b in
      let (installed, running) = deploy-eq-ok provider c x.1 pkg x.0 v fair h3 in
      let token : t.cluster.state ≡ w.cluster.state =
        sym (ap (λ y. y.1.cluster.state) a) ∙ ensure_token-state w in
      record {
        provider = provider;
        c = c;
        public_ip = x.1;
        pkg = pkg;
        m = x.0;
        asked = asked;
        mid = t.cluster;
        tokened = ensure_token-HasToken w a;
        reached =
            subst (λ after. IsReached t.cluster after x.1) (sym same) (choose_ip-IsReached p o t b);
        state = ap (λ y. y.state) same ∙ kept ∙ token;
        running = running ∙ ap (λ y. set_running y.cluster) still ∙ sym (ap set_running same);
        leader = ap (λ (s : Status). head s.master_nodes) (sym token) ∙ leader;
        installed = installed;
      }

  -- If the call succeeds and every goroutine gets its turn, the hosts have run their install commands
  -- without an error: the first master as the first one, each other master as a later one, the first
  -- worker unless it has neither an address nor an ID, and each other worker unless `ErrM` has an error
  -- under its ID; and the cluster keeps its nodes and gets the status Running. The commands are those of
  -- the cluster as it was given, with its token or a random one, and with its address or those of its
  -- first master.
  pub init_k3s_cluster_installs :
      (w : World) {w' : World}
      → ((ns : List Node) (n : Node) → In n ns → In n (o.schedule ns))
      → init_k3s_cluster p o w ≡ (ok tt, w')
      → IsOutcome w w'
  unfolding init_k3s_cluster
  init_k3s_cluster_installs w {w'} fair h =
      let (provider, t, a, h1) = >>=-eq-ok _ _ w h in
      let (pkg, u, b, h2) = >>=-eq-ok _ _ t h1 in
      let (v, c, d) = finally-eq-ok (remove_temporary pkg) (install p o provider pkg) u h2 in
      let (asked, still) = lift-eq-ok (o.get_provider p.provider) w a in
      let still' : u ≡ t = sym (ap (λ x. x.1) b) in
      let before = install-IsOutcome provider pkg u asked fair c in
      let grows = subst (Grows v) d (cleanup-Grows pkg v) in
      record {
        provider = before.provider;
        c = before.c;
        public_ip = before.public_ip;
        pkg = before.pkg;
        m = before.m;
        asked = before.asked;
        mid = before.mid;
        tokened =
            subst (λ (x : World). HasToken x.cluster before.mid) (still' ∙ still) before.tokened;
        reached = before.reached;
        state = before.state ∙ ap (λ x. x.cluster.state) (still' ∙ still);
        running = sym (ap (λ x. x.cluster) d) ∙ cleanup-cluster pkg v ∙ before.running;
        leader = ap (λ (x : World). first_master x.cluster) (sym (still' ∙ still)) ∙ before.leader;
        installed = keep_installed p o _ _ _ _ before.m v w' grows before.installed;
      }
