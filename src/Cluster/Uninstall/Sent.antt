-- ===== src/Cluster/Uninstall/Sent.antt =====
-- What is sent to the hosts to uninstall k3s.
use autok3s.Base.{
  String, Bool, true, false, List, [], ◌∷◌, ◌++◌, Result, ok, err, panic, ◌≡◌, ℕ, suc, ◌+◌, length,
}
use autok3s.Base.Exec.{Exec, pure, ◌>>=◌}
use autok3s.Types.{Node}
use autok3s.Cluster.World.{
  Action, ran, copied, config_saved, explorer_enabled, removed, World, Outside, succeeded,
}
use autok3s.Cluster.Uninstall.{uninstall_command, uninstall_k3s_nodes}

-- The commands of a log with their hosts.
pub sent : List Action → List (Node × List String)
sent [] = []
sent (ran n cmds b ∷ log) = (n, cmds) ∷ sent log
sent (copied n x b ∷ log) = sent log
sent (config_saved x y z ∷ log) = sent log
sent (explorer_enabled x ∷ log) = sent log
sent (removed x ∷ log) = sent log

-- How many of them failed.
pub failed : List Action → ℕ
failed [] = 0
failed (ran n cmds true ∷ log) = failed log
failed (ran n cmds false ∷ log) = suc (failed log)
failed (copied n x b ∷ log) = failed log
failed (config_saved x y z ∷ log) = failed log
failed (explorer_enabled x ∷ log) = failed log
failed (removed x ∷ log) = failed log

-- The uninstall command of each node, the last node's first.
pub requests : List Node → List (Node × List String) → List (Node × List String)
requests [] before = before
requests (n ∷ ns) before = requests ns ((n, uninstall_command n ∷ []) ∷ before)

abbrev pub is_panic : Result String → Bool
is_panic (ok out) = false
is_panic (err e) = false
is_panic panic = true

module _ (o : Outside) where
  -- Each node was sent its command, and there are as many warnings as commands failed.
  abbrev pub IsUninstalled : List Node → World → Result (List String) × World → Type 0
  IsUninstalled ns w x =
      (ws : List String) × (x.0 ≡ ok ws)
      × (sent x.1.log ≡ requests ns (sent w.log))
      × (failed x.1.log ≡ length ws + failed w.log)

  abbrev answered : Node → World → Result String → World
  answered n w r = record w { log = ran n (uninstall_command n ∷ []) (succeeded r) ∷ w.log }

  abbrev go_on : List Node → List String → Exec World (List String)
  go_on ns warn = uninstall_k3s_nodes o ns >>= λ rest. pure (warn ++ rest)
