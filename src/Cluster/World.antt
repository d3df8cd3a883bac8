-- ===== src/Cluster/World.antt =====
-- pkg/cluster/cluster.go: what the code does to the hosts, to this machine and to the database, as a
-- log of actions, and what it depends on there, as parameters. The functions of the hosts, of ssh and
-- of the database may answer each call by all that was done before it.
use autok3s.Base.{
  String, Bool, true, false, List, [], ◌∷◌, Option, none, some, Result, ok, err, panic, ◌==◌, ℕ,
  zero, suc, if◌then◌else◌,
}
use autok3s.Base.Exec.{Exec, pure}
use autok3s.Types.{Ssh, Node, Metadata, Status, Cluster, Package}

-- `ProviderBase`, without the logger, the callbacks and the maps `M` and `ErrM`.
pub record ProviderBase : Type 0 where
  pub metadata : Metadata
  pub open metadata use *
  pub state : Status
  pub open state use *
  pub ssh : Ssh

-- Of a provider, the additions to the arguments of a node.
pub record Provider : Type 0 where
  pub generate_master_extra_args : Cluster → Node → String
  pub generate_worker_extra_args : Cluster → Node → String

-- `ran` and `copied` say whether the host answered without an error.
pub data Action : Type 0 where
  ran : Node → List String → Bool → Action
  copied : Node → String → Bool → Action
  config_saved : String → String → String → Action
  explorer_enabled : String → Action
  removed : String → Action

-- The latest action comes first. `cluster` is the caller's, which the code changes in place, `rows`
-- are the clusters saved, the latest first, and `err_m` is `p.ErrM`.
pub record World : Type 0 where
  pub cluster : Cluster
  pub log : List Action
  pub rows : List Cluster
  pub err_m : List (String × String)

pub record Outside : Type 0 where
  pub get_provider : String → Result Provider
  -- `PreparePackage`, when so much has been done
  pub prepare_package : List Action → Cluster → Result (Option Package)
  pub random_token : Result String
  pub run : List Action → Node → List String → Result String
  pub scp_files : List Action → Node → Package → String → Result (Unit {0})
  pub save_cfg : String → String → String → Result (Unit {0})
  pub kube_contexts : Result (List String)
  pub save_cluster : List Action → Cluster → Result (Unit {0})
  pub read_file : String → Result String
  pub base64 : String → String
  -- a registry as its YAML, the commands that write its certificates, and its text
  pub verify_registry : String → String → Result String
  pub registry_tls : String → Result (List String)
  pub registry_to_string : String → Result String
  -- the order in which the goroutines of some nodes take their turns
  pub schedule : List Node → List Node

abbrev pub succeeded {ℓ} : {A : Type ℓ} → Result A → Bool
succeeded (ok a) = true
succeeded (err e) = false
succeeded panic = false

unfoldable pub act : Action → Exec World Unit
act a w = (ok tt, record w { log = a ∷ w.log })

-- `defer`: done at every return behind it, and when the function panics.
unfoldable pub finally : Exec World Unit → Exec World Unit → Exec World Unit
finally cleanup m w = let (r, w') = m w in (r, (cleanup w').1)

-- The row is there only if the database took it.
abbrev pub keep_row : World → Result (Unit {0}) → Result (Unit {0}) × World
keep_row w (ok u) = (ok tt, record w { rows = w.cluster ∷ w.rows })
keep_row w (err e) = (err e, w)
keep_row w panic = (panic, w)

-- After an attempt, with `k` left: the next is made only on an error.
unfoldable pub attempt : ℕ → Result String → World → Result String × World → Result String × World
attempt k (ok out) w rest = (ok out, w)
attempt zero (err e) w rest = (err e, w)
attempt (suc k) (err e) w rest = rest
attempt k panic w rest = (panic, w)

module _ (o : Outside) where
  -- `execute`.
  unfoldable pub execute : Node → List String → Exec World String
  execute n [] w = (ok "", w)
  execute n (cmd ∷ cmds) w =
      let r = o.run w.log n (cmd ∷ cmds) in
      (r, record w { log = ran n (cmd ∷ cmds) (succeeded r) ∷ w.log })

  -- `scpFiles`.
  unfoldable pub scp_files : Package → Node → String → Exec World Unit
  scp_files pkg n extra_args w =
      let r = o.scp_files w.log n pkg extra_args in
      (r, record w { log = copied n extra_args (succeeded r) ∷ w.log })

  -- `SaveCfg`.
  unfoldable pub save_cfg : String → String → String → Exec World Unit
  save_cfg cfg ip context w =
      (o.save_cfg cfg ip context, record w { log = config_saved cfg ip context ∷ w.log })

  -- `DefaultDB.SaveCluster` of the caller's cluster.
  unfoldable pub save_cluster : Exec World Unit
  save_cluster w = keep_row w (o.save_cluster w.log w.cluster)

  -- `executeWithRetry`: up to `count` attempts, and the last one's error.
  unfoldable pub execute_with_retry : ℕ → Node → List String → Exec World String
  unfolding execute
  execute_with_retry zero n cmds w = (err "failed to execute cmd", w)
  execute_with_retry (suc k) n cmds w =
      let (r, w') = execute n cmds w in attempt k r w' (execute_with_retry k n cmds w')

-- The removal that `InitK3sCluster`, `Join` and `Upgrade` defer: a package without a name is taken
-- for a temporary directory.
unfoldable pub remove_temporary : Option Package → Exec World Unit
unfolding pure act
remove_temporary none = pure tt
remove_temporary (some pkg) = if pkg.name == "" then act (removed pkg.file_path) else pure tt
