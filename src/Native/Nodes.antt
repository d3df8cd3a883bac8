-- ===== src/Native/Nodes.antt =====
-- The nodes that the addresses of a command make.
use autok3s.Base.{
  String, Bool, true, false, List, [], ◌∷◌, Option, none, some, if◌then◌else◌, ◌==◌, ◌≡◌, refl, sym,
  ap, ◌∙◌, join, split, lookup, put, lookup-put,
}
use autok3s.Types.{Ssh, Node, Status}
use autok3s.Native.{
  Native, addresses, node_id, node_of, sync_nodes_map, is_existed, unmark, nodes_for, unmark_map,
  sync_masters, sync_workers, assemble_node_status,
}

-- The last of the addresses with this ID.
unfoldable pub last_ip : String → List String → Option String
last_ip k [] = none
last_ip k (ip ∷ ips) =
    let later = last_ip k ips in
    elim later [ some other ↦ some other | none ↦ if k == node_id ip then some ip else none ]

-- The node of the last such address, and else what is there.
abbrev pub made_or : Bool → Ssh → Option String → Option Node → Option Node
made_or master ssh (some ip) old = some (record {
  ssh = ssh;
  instance_id = join (split ip 46) "-";
  instance_status = "-";
  public_ip_address = ip ∷ [];
  internal_ip_address = ip ∷ [];
  eip_allocation_ids = [];
  master = master;
  roll_back = true;
  current = true;
  standalone = false;
  local_hostname = "";
})
made_or master ssh none old = old

-- An address before others.
made_first :
    (later : Option String) (same : Bool) (master : Bool) (ssh : Ssh) (ip : String)
    (old : Option Node)
    → made_or master ssh later (if same then some (node_of master ssh ip) else old)
      ≡ made_or master ssh
          (elim later [ some other ↦ some other | none ↦ if same then some ip else none ])
          old
made_first (some other) same master ssh ip old = refl
made_first none true master ssh ip old = refl
made_first none false master ssh ip old = refl

lookup-sync_nodes_map :
    (ips : List String) (master : Bool) (ssh : Ssh) (m : List (String × Node)) (k : String)
    → lookup k (sync_nodes_map ips master ssh m) ≡ made_or master ssh (last_ip k ips) (lookup k m)
unfolding sync_nodes_map last_ip
lookup-sync_nodes_map [] master ssh m k = refl
lookup-sync_nodes_map (ip ∷ ips) master ssh m k =
    lookup-sync_nodes_map ips master ssh (put (node_id ip) (node_of master ssh ip) m) k
    ∙ ap (made_or master ssh (last_ip k ips)) (lookup-put (node_id ip) k (node_of master ssh ip) m)
    ∙ made_first (last_ip k ips) (k == node_id ip) master ssh ip (lookup k m)

abbrev pub settled : Status → Option Node → Option Node
settled s none = none
settled s (some v) = some (
    if is_existed v.instance_id (if v.master then s.master_nodes else s.worker_nodes)
    then record v { current = false; roll_back = false }
    else v)

settled_first :
    (s : Status) (same : Bool) (v : Node) {after : Option Node} (before : Option Node)
    → after ≡ settled s before
    → (if same
        then some (if is_existed v.instance_id (nodes_for v s) then unmark v else v)
        else after)
      ≡ settled s (if same then some v else before)
settled_first s true v before h = refl
settled_first s false v before h = h

lookup-unmark_map :
    (s : Status) (m : List (String × Node)) (k : String)
    → lookup k (unmark_map s m) ≡ settled s (lookup k m)
unfolding unmark_map lookup
lookup-unmark_map s [] k = refl
lookup-unmark_map s ((key, v) ∷ m) k =
    settled_first s (k == key) v (lookup k m) (lookup-unmark_map s m k)

-- No address where the option is not given.
abbrev pub listed : String → List String
listed ips = if ips == "" then [] else addresses ips

-- The addresses of the workers stand over those of the masters.
unfoldable pub made : Ssh → Native → String → Option Node
unfolding last_ip
made ssh p k =
    made_or false ssh (last_ip k (listed p.options.worker_ips))
      (made_or true ssh (last_ip k (listed p.options.master_ips)) (lookup k p.m))

synced_or :
    (given : Bool) (ips : List String) (master : Bool) (ssh : Ssh) (m : List (String × Node))
    (k : String)
    → lookup k (if given then m else sync_nodes_map ips master ssh m)
      ≡ made_or master ssh (last_ip k (if given then [] else ips)) (lookup k m)
unfolding last_ip
synced_or true ips master ssh m k = refl
synced_or false ips master ssh m k = lookup-sync_nodes_map ips master ssh m k

chosen_m : (given : Bool) (p q : Native) → (if given then p else q).m ≡ (if given then p.m else q.m)
chosen_m true p q = refl
chosen_m false p q = refl

chosen_state :
    (given : Bool) (p q : Native)
    → p.base.state ≡ q.base.state
    → (if given then p else q).base.state ≡ p.base.state
chosen_state true p q h = refl
chosen_state false p q h = sym h

chosen_options :
    (given : Bool) (p q : Native)
    → p.options ≡ q.options
    → (if given then p else q).options ≡ p.options
chosen_options true p q h = refl
chosen_options false p q h = sym h

masters_m :
    (ssh : Ssh) (p : Native) (k : String)
    → lookup k (sync_masters ssh p).m
      ≡ made_or true ssh (last_ip k (listed p.options.master_ips)) (lookup k p.m)
unfolding sync_masters
masters_m ssh p k =
    ap (lookup k) (chosen_m (p.options.master_ips == "") p _)
    ∙ synced_or (p.options.master_ips == "") (addresses p.options.master_ips) true ssh p.m k

workers_m :
    (ssh : Ssh) (p : Native) (k : String)
    → lookup k (sync_workers ssh p).m
      ≡ made_or false ssh (last_ip k (listed p.options.worker_ips)) (lookup k p.m)
unfolding sync_workers
workers_m ssh p k =
    ap (lookup k) (chosen_m (p.options.worker_ips == "") p _)
    ∙ synced_or (p.options.worker_ips == "") (addresses p.options.worker_ips) false ssh p.m k

masters_options : (ssh : Ssh) (p : Native) → (sync_masters ssh p).options ≡ p.options
unfolding sync_masters
masters_options ssh p = chosen_options (p.options.master_ips == "") p _ refl

synced_state :
    (ssh : Ssh) (p : Native) → (sync_workers ssh (sync_masters ssh p)).base.state ≡ p.base.state
unfolding sync_workers sync_masters
synced_state ssh p =
    chosen_state ((sync_masters ssh p).options.worker_ips == "") (sync_masters ssh p) _ refl
    ∙ chosen_state (p.options.master_ips == "") p _ refl

synced_m :
    (ssh : Ssh) (p : Native) (k : String)
    → lookup k (sync_workers ssh (sync_masters ssh p)).m ≡ made ssh p k
unfolding made
synced_m ssh p k =
    workers_m ssh (sync_masters ssh p) k
    ∙ ap
        (λ o. made_or false ssh (last_ip k (listed o.worker_ips)) (lookup k (sync_masters ssh p).m))
        (masters_options ssh p)
    ∙ ap (made_or false ssh (last_ip k (listed p.options.worker_ips))) (masters_m ssh p k)

-- After assembling, each ID has the node that the command's addresses make, the worker's before the
-- master's and later before earlier, and else the node that was there; a node that the cluster has
-- is not the command's.
pub assemble_node_status-nodes :
    (ssh : Ssh) (p : Native) (k : String)
    → lookup k (assemble_node_status ssh p).m ≡ settled p.base.state (made ssh p k)
unfolding assemble_node_status
assemble_node_status-nodes ssh p k =
    lookup-unmark_map (sync_workers ssh (sync_masters ssh p)).base.state
      (sync_workers ssh (sync_masters ssh p)).m k
    ∙ ap (λ st. settled st (lookup k (sync_workers ssh (sync_masters ssh p)).m))
        (synced_state ssh p)
    ∙ ap (settled p.base.state) (synced_m ssh p k)
