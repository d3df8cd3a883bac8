-- ===== src/Cluster/Lifecycle.antt =====
-- pkg/cluster/base.go: what `InitCluster` does at its end when it has failed or some workers have
-- failed, with `RollbackCluster`, and `syncExistNodes`. The logs and the callbacks are not modelled.
pub mod Failed
mod Tests
use autok3s.Base.{
  String, Bool, true, false, not, ◌&&◌, ◌||◌, List, [], ◌∷◌, ◌++◌, ℕ, zero, suc, Option, none, some,
  ◌==◌, ◌<>◌, if◌then◌else◌, Result, ok, err, panic, map, null, length, is_some, lookup, leb,
}
use autok3s.Types.{Node, Status, Cluster}
use autok3s.Types.Sample.{blank_status}
use autok3s.Cluster.World.{ProviderBase}

-- `p.M` in the order of its walk, `p.ErrM`, the row of the cluster with its options and nodes as they
-- are read, the lists of instances handed to
-- the provider's rollback, and whether the context is in the kubeconfig.
pub record Site : Type 0 where
  pub m : List (String × Node)
  pub err_m : List (String × String)
  pub row : Option Cluster
  pub rolled_back : List (List String)
  pub context : Bool

-- What `ConvertToCluster` makes of a row, with its nodes: none of them without the provider's options.
pub converted : Bool → Cluster → Cluster
converted readable c = record c {
  options = if readable then c.options else "";
  state = record {
    status = c.status;
    master_nodes = if readable then c.master_nodes else [];
    worker_nodes = if readable then c.worker_nodes else [];
    standalone = false;
  };
}

-- `get_fails` and `save_fails` are errors of the database, `rollback` is the provider's function.
pub record Answers : Type 0 where
  pub get_fails : Option String
  pub save_fails : Option String
  pub rollback : Option (List String → Option String)
  -- whether there is the provider of the row and it takes the row's options
  pub readable : Bool

-- The digits of a number from the last one, and the next number's.
next : List ℕ → List ℕ
next [] = 1 ∷ []
next (d ∷ ds) = let rest = next ds in if leb 9 d then 0 ∷ rest else suc d ∷ ds

count : ℕ → List ℕ
unfolding next
count zero = 0 ∷ []
count (suc n) = next (count n)

show_digit : ℕ → String
show_digit d =
    elim (lookup_digit d ("0" ∷ "1" ∷ "2" ∷ "3" ∷ "4" ∷ "5" ∷ "6" ∷ "7" ∷ "8" ∷ "9" ∷ [])) [
      | none ↦ ""
      | some s ↦ s
    ]
  where
    lookup_digit : ℕ → List String → Option String
    lookup_digit n [] = none
    lookup_digit zero (s ∷ ss) = some s
    lookup_digit (suc n) (s ∷ ss) = lookup_digit n ss

-- `strconv.Itoa` of a length.
pub itoa : ℕ → String
unfolding count show_digit
itoa n = show (count n)
  where
    show : List ℕ → String
    show [] = ""
    show (d ∷ ds) = show ds <> show_digit d

-- The workers without an error.
pub without_errors : List (String × String) → List Node → List Node
without_errors err_m [] = []
without_errors err_m (n ∷ ns) =
    let rest = without_errors err_m ns in
    if is_some (lookup n.instance_id err_m) then rest else n ∷ rest

-- The instances of `p.M` that are marked.
marked : List (String × Node) → List String
marked [] = []
marked ((key, n) ∷ m) = let rest = marked m in if n.roll_back then key ∷ rest else rest

rollback_ids : Site → List String
unfolding marked
rollback_ids s = if null s.err_m then marked s.m else map (λ e. e.0) s.err_m

abbrev is_running : Option Cluster → Bool
is_running none = false
is_running (some c) = c.status == "Running"

abbrev pub set_workers : List Node → Cluster → Cluster
set_workers ns c = record c {
  metadata = record c.metadata { worker = itoa (length ns) };
  state = record c.state { worker_nodes = ns };
}

abbrev pub set_failed : Bool → Cluster → Cluster
set_failed failed c = record c {
  state = record c.state { status = if failed then "Failed" else c.status };
}

module _ (p : ProviderBase) (options : String) (a : Answers) where
  -- The context is cleared unless the row is there and running.
  clear_context : Site → Result (Unit {0}) × Site
  clear_context s = elim a.get_fails [
    | some e ↦ (err e, s)
    | none ↦ (ok tt, if is_running s.row then s else record s { context = false })
  ]

  after_rollback : Option String → Site → Result (Unit {0}) × Site
  unfolding clear_context
  after_rollback (some e) s = (err e, s)
  after_rollback none s = clear_context s

  pub rollback_cluster : Site → Result (Unit {0}) × Site
  unfolding after_rollback
  rollback_cluster s = if not p.rollback then (ok tt, s) else elim a.rollback [
    | none ↦ (ok tt, s)
    | some f ↦
        after_rollback (f (rollback_ids s))
          (record s { rolled_back = rollback_ids s ∷ s.rolled_back })
  ]

  -- The cluster that is saved: the row's, or a new one without nodes.
  saved_or_new : Option Cluster → Cluster
  unfolding converted
  saved_or_new (some c) = converted a.readable c
  saved_or_new none = record {
    metadata = p.metadata;
    options = options;
    ssh = p.ssh;
    state = blank_status;
  }

  remove_failed : List (String × String) → Cluster → Cluster
  remove_failed err_m c =
      if not (null err_m) && not (null c.worker_nodes)
      then set_workers (without_errors err_m c.worker_nodes) c
      else c

  save_row : Cluster → Site → Site
  save_row c s = if is_some a.save_fails then s else record s { row = some c }

  -- What is saved, if the database answers.
  save_status : Bool → Site → Site
  unfolding saved_or_new remove_failed save_row
  save_status failed s = elim a.get_fails [
    | some e ↦ s
    | none ↦ save_row (remove_failed s.err_m (set_failed failed (saved_or_new s.row))) s
  ]

  -- The deferred function, with whether `InitCluster` returns an error.
  pub finish_create : Bool → Site → Site
  unfolding rollback_cluster save_status
  finish_create failed s =
      if failed || not (null s.err_m) then (rollback_cluster (save_status failed s)).1 else s
