-- ===== src/Cluster/Commands/Sans.antt =====
-- `getTLSSans`: the names that the server's certificate is valid for.
use autok3s.Base.{
  String, Bool, false, List, [], ◌∷◌, ◌≡◌, refl, arith, ◌||◌, ◌&&◌, ◌==◌, eq_iff, is_set, contains,
  add_key, contains-add_key, add_key-Distinct, Distinct, IsSorted, sort-IsSorted, sort-Distinct,
  contains-sort,
}
use autok3s.Types.{Node, Cluster}
use autok3s.Cluster.Commands.{get_first_address, get_tls_sans, add_address, add_sans, add_masters}

-- `a` is the first address that is not empty, public or internal, of some node.
abbrev pub is_address_of : List Node → String → Bool
is_address_of [] a = false
is_address_of (n ∷ nodes) a =
    is_set a
      && (a == get_first_address n.public_ip_address
          || a == get_first_address n.internal_ip_address)
    || is_address_of nodes a

contains-add_address :
    (addr : String) (keys : List String) (a : String)
    → contains (add_address addr keys) a ≡ (is_set a && a == addr || contains keys a)
unfolding add_address
contains-add_address addr keys a =
    ground (arith, contains-add_key addr keys a, eq_iff a addr, eq_iff addr "", eq_iff a "")

add_address-Distinct :
    (addr : String) (keys : List String) → Distinct keys → Distinct (add_address addr keys)
unfolding add_address
add_address-Distinct addr keys h = ground (arith, add_key-Distinct addr keys h)

contains-add_sans :
    (sans keys : List String) (a : String)
    → contains (add_sans sans keys) a ≡ (contains sans a || contains keys a)
unfolding add_sans contains
contains-add_sans [] keys a = refl
contains-add_sans (san ∷ sans) keys a =
    ground (arith, contains-add_sans sans (add_key san keys) a, contains-add_key san keys a)

contains-add_masters :
    (nodes : List Node) (keys : List String) (a : String)
    → contains (add_masters nodes keys) a ≡ (is_address_of nodes a || contains keys a)
unfolding add_masters
contains-add_masters [] keys a = refl
contains-add_masters (n ∷ nodes) keys a =
    let public = get_first_address n.public_ip_address in
    let internal = get_first_address n.internal_ip_address in
    ground (
      arith,
      contains-add_masters nodes (add_address internal (add_address public keys)) a,
      contains-add_address internal (add_address public keys) a,
      contains-add_address public keys a,
    )

add_sans-Distinct : (sans keys : List String) → Distinct keys → Distinct (add_sans sans keys)
unfolding add_sans
add_sans-Distinct [] keys h = h
add_sans-Distinct (san ∷ sans) keys h =
    add_sans-Distinct sans (add_key san keys) (add_key-Distinct san keys h)

add_masters-Distinct :
    (nodes : List Node) (keys : List String) → Distinct keys → Distinct (add_masters nodes keys)
unfolding add_masters
add_masters-Distinct [] keys h = h
add_masters-Distinct (n ∷ nodes) keys h =
    let public = get_first_address n.public_ip_address in
    let internal = get_first_address n.internal_ip_address in
    add_masters-Distinct nodes (add_address internal (add_address public keys))
      (add_address-Distinct internal (add_address public keys) (add_address-Distinct public keys h))

-- The names are sorted, none is repeated, and they are exactly those asked for by `--tls-sans` and
-- the first non-empty public and internal address of each master.
pub get_tls_sans_lem :
    (c : Cluster)
    → IsSorted (get_tls_sans c)
      × Distinct (get_tls_sans c)
      × ((a : String)
          → contains (get_tls_sans c) a ≡ (contains c.tls_sans a || is_address_of c.master_nodes a))
unfolding get_tls_sans
get_tls_sans_lem c =
    let keys = add_masters c.master_nodes (add_sans c.tls_sans []) in
    (
      sort-IsSorted keys,
      sort-Distinct keys
          (add_masters-Distinct c.master_nodes _ (add_sans-Distinct c.tls_sans [] tt)),
      λ a.
          unfold contains in
          ground (
            arith,
            contains-sort keys a,
            contains-add_masters c.master_nodes (add_sans c.tls_sans []) a,
            contains-add_sans c.tls_sans [] a,
          ),
    )
