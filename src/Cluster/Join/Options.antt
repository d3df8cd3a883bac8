-- ===== src/Cluster/Join/Options.antt =====
-- Which nodes `Join` takes, and the address and the token that it finds.
use autok3s.Base.{
  String, Bool, true, false, List, [], ◌∷◌, Option, none, some, ◌≡◌, refl, ap, ◌∙◌, sym, Result, ok,
  err, panic, arith, ◌⊎◌, inl, inr, ◌==◌, if◌then◌else◌, lookup, put, lookup-put, Bool-cases,
  trim_space,
}
use autok3s.Base.Exec.{◌>>=◌, modify, continue}
use autok3s.Types.{Node, Cluster}
use autok3s.Cluster.World.{ProviderBase, World, Outside, execute}
use autok3s.Cluster.Nodes.{node_by_instance_id}
use autok3s.Cluster.Install.{update, set_ip, set_token, first, head, first_master}
use autok3s.Cluster.Install.Address.{list-cases}
use autok3s.Cluster.Join.{found_nodes, find_ip, ask_token, find_token, check_token, server_node}

-- The last node with this ID.
pub last_with : String → List Node → Option Node
last_with id [] = none
last_with id (n ∷ ns) =
    let later = last_with id ns in
    elim later [ some m ↦ some m | none ↦ if id == n.instance_id then some n else none ]

-- Of the IDs of these nodes those that a cluster has too, as its nodes.
pub shared : List Node → List Node → List Node
unfolding last_with
shared [] nodes = []
shared (n ∷ ns) nodes =
    let rest = shared ns nodes in
    elim (last_with n.instance_id nodes) [ none ↦ rest | some full ↦ full ∷ rest ]

abbrev or_option : Option Node → Option Node → Option Node
or_option (some m) other = some m
or_option none other = other

or_first :
    (later : Option Node) (same : Bool) (n : Node) (other : Option Node)
    → or_option later (if same then some n else other)
      ≡ or_option (elim later [ some m ↦ some m | none ↦ if same then some n else none ]) other
or_first (some m) same n other = refl
or_first none true n other = refl
or_first none false n other = refl

or_none : (x : Option Node) → or_option x none ≡ x
or_none none = refl
or_none (some m) = refl

lookup-node_by_instance_id :
    (id : String) (nodes : List Node) (m : List (String × Node))
    → lookup id (node_by_instance_id nodes m) ≡ or_option (last_with id nodes) (lookup id m)
unfolding node_by_instance_id last_with
lookup-node_by_instance_id id [] m = refl
lookup-node_by_instance_id id (n ∷ nodes) m =
    lookup-node_by_instance_id id nodes (put n.instance_id n m)
    ∙ ap (or_option (last_with id nodes)) (lookup-put n.instance_id id n m)
    ∙ or_first (last_with id nodes) (id == n.instance_id) n (lookup id m)

found_last :
    (id : String) (nodes : List Node)
    → lookup id (node_by_instance_id nodes []) ≡ last_with id nodes
unfolding lookup
found_last id nodes = lookup-node_by_instance_id id nodes [] ∙ or_none (last_with id nodes)

pub found_nodes-shared :
    (ns nodes : List Node) → found_nodes ns (node_by_instance_id nodes []) ≡ shared ns nodes
unfolding found_nodes shared
found_nodes-shared [] nodes = refl
found_nodes-shared (n ∷ ns) nodes =
    ap
      (λ o. elim o [
        | none ↦ found_nodes ns (node_by_instance_id nodes [])
        | some full ↦ full ∷ found_nodes ns (node_by_instance_id nodes [])
      ])
      (found_last n.instance_id nodes)
    ∙ ap (λ rest. elim (last_with n.instance_id nodes) [ none ↦ rest | some full ↦ full ∷ rest ])
        (found_nodes-shared ns nodes)

-- The cluster with its own address, or else the first internal one of its first master.
abbrev pub IsAddressed : Cluster → Cluster → Type 0
IsAddressed before c =
    ((before.ip == "") ≡ false) × (c ≡ before)
    ⊎ ((before.ip == "") ≡ true)
      × (m : Node) × (ms : List Node) × (inner : String) × (inners : List String)
      × (before.master_nodes ≡ m ∷ ms)
      × (m.internal_ip_address ≡ inner ∷ inners)
      × (c ≡ record before { metadata = record before.metadata { ip = inner } })

-- The cluster with its own token, or else one that was asked for.
abbrev pub HasToken : Cluster → Cluster → Type 0
HasToken before c =
    ((before.token == "") ≡ false) × (c ≡ before)
    ⊎ ((before.token == "") ≡ true)
      × (token : String) × (c
          ≡ record before { metadata = record before.metadata { token = token } })

module _ (p : ProviderBase) (o : Outside) (added : Cluster) where
  kept_ip :
      (w : World) {u : World}
      → (w.cluster.ip == "") ≡ false
      → find_ip p o added w ≡ (ok tt, u)
      → u.cluster ≡ w.cluster
  unfolding find_ip
  kept_ip w b h = ground arith

  given_ip :
      (w : World) {n : Node} {inner : String} {u : World}
      → first_master w.cluster ≡ some n
      → first n.internal_ip_address ≡ some inner
      → (w.cluster.ip == "") ≡ true
      → find_ip p o added w ≡ (ok tt, u)
      → u.cluster ≡ set_ip inner w.cluster
  unfolding find_ip update modify
  given_ip w e e' b h = ground arith

  no_master :
      (w : World) {u : World}
      → first_master w.cluster ≡ none
      → (w.cluster.ip == "") ≡ true
      → find_ip p o added w ≡ (ok tt, u)
      → IsAddressed w.cluster u.cluster
  unfolding find_ip
  no_master w e b h = ground arith

  no_address :
      (w : World) {n : Node} {u : World}
      → first_master w.cluster ≡ some n
      → first n.internal_ip_address ≡ none
      → (w.cluster.ip == "") ≡ true
      → find_ip p o added w ≡ (ok tt, u)
      → IsAddressed w.cluster u.cluster
  unfolding find_ip
  no_address w e e' b h = ground arith

  pub find_ip-IsAddressed :
      (w : World) {u : World} → find_ip p o added w ≡ (ok tt, u) → IsAddressed w.cluster u.cluster
  find_ip-IsAddressed w h = elim (Bool-cases (w.cluster.ip == "")) [
    | inr b ↦ inl (b, kept_ip w b h)
    | inl b ↦ elim (list-cases w.cluster.master_nodes) [
      | inl e ↦ no_master w (ap head e) b h
      | inr (n, ms, e) ↦ elim (list-cases n.internal_ip_address) [
        | inl e' ↦ no_address w (ap head e) (ap first e') b h
        | inr (inner, inners, e') ↦
            inr (b, n, ms, inner, inners, e, e', given_ip w (ap head e) (ap first e') b h)
      ]
    ]
  ]

  asked_token :
      (r : Result String) (w : World) {u : World}
      → continue r (λ token. update (set_token (trim_space token))) w ≡ (ok tt, u)
      → (token : String) × (u.cluster ≡ set_token token w.cluster)
  unfolding continue update modify
  asked_token (ok token) w h = (trim_space token, sym (ap (λ x. x.1.cluster) h))
  asked_token (err e) w h = ground arith
  asked_token panic w h = ground arith

  asked :
      (n : Option Node) (w : World) {u : World}
      → ask_token p o added n w ≡ (ok tt, u)
      → (token : String) × (u.cluster ≡ set_token token w.cluster)
  unfolding ask_token ◌>>=◌ execute
  asked none w h = ground arith
  asked (some n) w h = asked_token _ _ h

  pub find_token-HasToken :
      (w : World) {u : World} → find_token p o added w ≡ (ok tt, u) → HasToken w.cluster u.cluster
  unfolding find_token
  find_token-HasToken w h = elim (Bool-cases (w.cluster.token == "")) [
    | inr b ↦ inl (b, sym (ap (λ x. x.1.cluster) (rw b at h)))
    | inl b ↦ let (token, e) = asked (server_node added) w (rw b at h) in inr (b, token, e)
  ]

  pub check_token-eq-ok :
      (w : World) {u : World}
      → check_token p o added w ≡ (ok tt, u)
      → ((w.cluster.token == "") ≡ false) × (u ≡ w)
  unfolding check_token
  check_token-eq-ok w h = ground arith
