-- ===== src/Cluster/Commands/Mode.antt =====
-- `getRunArgs`: which arguments make a node start a cluster, join one, or run as an agent.
use mathlib.Core.Bool.{or-false}
use autok3s.Base.{
  String, Bool, true, false, not, ◌&&◌, ◌||◌, List, [], ◌∷◌, ◌++◌, map, ◌≡◌, refl, arith, ◌<>◌,
  is_set, has_prefix, clash, has_prefix_of_clash, has_prefix-clash, has_prefix-append, any_prefix,
  any_prefix-append, any_prefix-sort,
}
use autok3s.Types.{Node, Cluster}
use autok3s.Cluster.Commands.{
  arg_if, is_cluster, api_server, get_first_address, get_tls_sans, server_args, common_args,
  get_run_args,
}

and_assoc : (a b d : Bool) → (a && b && d) ≡ (a && (b && d))
and_assoc true b d = refl
and_assoc false b d = refl

module _ (p : String) where
  any_prefix-arg_if :
      (b : Bool) (arg : String) → any_prefix p (arg_if b arg) ≡ (b && has_prefix arg p)
  unfolding any_prefix
  any_prefix-arg_if true arg = ground arith
  any_prefix-arg_if false arg = refl

  any_prefix-clash :
      (b : Bool) (s x : String) → clash s p ≡ true → any_prefix p (arg_if b (s <> x)) ≡ false
  any_prefix-clash b s x h =
      ground (arith, any_prefix-arg_if b (s <> x), has_prefix_of_clash s x p h)

  any_prefix-clash' : (b : Bool) (s : String) → clash s p ≡ true → any_prefix p (arg_if b s) ≡ false
  any_prefix-clash' b s h = ground (arith, any_prefix-arg_if b s, has_prefix-clash s p h)

  any_prefix-map :
      (s : String) (xs : List String)
      → clash s p ≡ true
      → any_prefix p (map (λ x. s <> x) xs) ≡ false
  unfolding any_prefix
  any_prefix-map s [] h = refl
  any_prefix-map s (x ∷ xs) h = ground (arith, any_prefix-map s xs h, has_prefix_of_clash s x p h)

-- `p` is told apart from every argument but those that choose the mode.
record IsMode (p : String) : Type 0 where
  endpoint : clash "--datastore-endpoint=" p ≡ true
  cafile : clash "--datastore-cafile=/etc/rancher/datastore/ds-ca.pem" p ≡ true
  certfile : clash "--datastore-certfile=/etc/rancher/datastore/ds-cert.pem" p ≡ true
  keyfile : clash "--datastore-keyfile=/etc/rancher/datastore/ds-key.pem" p ≡ true
  cidr : clash "--cluster-cidr=" p ≡ true
  san : clash "--tls-san=" p ≡ true
  advertise : clash "--advertise-address=" p ≡ true
  external : clash "--node-external-ip=" p ≡ true
  backend : clash "--flannel-backend=" p ≡ true
  system : clash "--system-default-registry=" p ≡ true
  server : clash "server" p ≡ true

module _ (p : String) (m : IsMode p) (f : Bool) (ip : String) (c : Cluster) (n : Node) where
  any_prefix-common_args : any_prefix p (common_args c n) ≡ false
  unfolding common_args
  any_prefix-common_args = simp (
    any_prefix-append,
    any_prefix-clash p _ "--node-external-ip=" _ m.external,
    any_prefix-clash p _ "--flannel-backend=" _ m.backend,
    any_prefix-clash p _ "--system-default-registry=" _ m.system,
  )

  any_prefix-server_args : any_prefix p (server_args f ip c n) ≡ (
      is_cluster c && (f && has_prefix "--cluster-init" p)
      || is_cluster c && (not f && has_prefix ("--server=" <> api_server ip) p))
  unfolding server_args
  any_prefix-server_args = simp (
    any_prefix-append,
    any_prefix-map p "--tls-san=" (get_tls_sans c) m.san,
    any_prefix-clash p _ "--datastore-endpoint=" c.data_store m.endpoint,
    any_prefix-clash' p _ "--datastore-cafile=/etc/rancher/datastore/ds-ca.pem" m.cafile,
    any_prefix-clash' p _ "--datastore-certfile=/etc/rancher/datastore/ds-cert.pem" m.certfile,
    any_prefix-clash' p _ "--datastore-keyfile=/etc/rancher/datastore/ds-key.pem" m.keyfile,
    any_prefix-clash p _ "--cluster-cidr=" c.cluster_cidr m.cidr,
    any_prefix-clash p _ "--advertise-address=" (get_first_address n.internal_ip_address)
        m.advertise,
    any_prefix-arg_if p (is_cluster c && f),
    any_prefix-arg_if p (is_cluster c && not f),
    or-false,
    and_assoc,
  )

  -- What is read off the arguments of a node is what `isCluster` and its place decide.
  any_prefix-run_args : any_prefix p (get_run_args f ip c n) ≡ (
      n.master
      && (is_cluster c && (f && has_prefix "--cluster-init" p)
          || is_cluster c && (not f && has_prefix ("--server=" <> api_server ip) p)))
  unfolding get_run_args any_prefix
  any_prefix-run_args = ground (
    arith,
    has_prefix-clash "server" p m.server,
    any_prefix-sort p (server_args f ip c n ++ common_args c n),
    any_prefix-sort p (common_args c n),
    any_prefix-append p (server_args f ip c n) (common_args c n),
    any_prefix-common_args,
    any_prefix-server_args,
  )

init-IsMode : IsMode "--cluster-init"
unfolding clash
init-IsMode = record {
  endpoint = refl;
  cafile = refl;
  certfile = refl;
  keyfile = refl;
  cidr = refl;
  san = refl;
  advertise = refl;
  external = refl;
  backend = refl;
  system = refl;
  server = refl;
}

join-IsMode : IsMode "--server="
unfolding clash
join-IsMode = record {
  endpoint = refl;
  cafile = refl;
  certfile = refl;
  keyfile = refl;
  cidr = refl;
  san = refl;
  advertise = refl;
  external = refl;
  backend = refl;
  system = refl;
  server = refl;
}

-- A master without an external datastore starts the embedded etcd with `--cluster-init` exactly when
-- it is the first one, and otherwise joins by `--server=`; no other node gets either argument, so a
-- node never gets both.
pub get_run_args_mode :
    (f : Bool) (ip : String) (c : Cluster) (n : Node)
    → let args = get_run_args f ip c n in
      let etcd = n.master && (c.cluster && not (is_set c.data_store)) in
      (any_prefix "--cluster-init" args ≡ (etcd && f))
      × (any_prefix "--server=" args ≡ (etcd && not f))
unfolding clash has_prefix
get_run_args_mode f ip c n = (
  ground (
    arith,
    any_prefix-run_args "--cluster-init" init-IsMode f ip c n,
    has_prefix_of_clash "--server=" (api_server ip) "--cluster-init" refl,
  ),
  ground (
    arith,
    any_prefix-run_args "--server=" join-IsMode f ip c n,
    has_prefix-append "--server=" (api_server ip),
  ),
)
