-- ===== src/Cluster/Commands/Store.antt =====
-- `getRunArgs`: a master of a cluster with an external datastore is pointed to it.
use autok3s.Base.{
  String, Bool, true, false, List, ◌++◌, ◌≡◌, arith, ◌<>◌, is_set, any_prefix, any_prefix-append,
  any_prefix-sort, has_prefix-append,
}
use autok3s.Types.{Node, Cluster}
use autok3s.Cluster.Commands.{arg_if, server_args, common_args, get_run_args}

endpoint_head :
    (b : Bool) (s : String) (rest : List String)
    → b ≡ true
    → any_prefix "--datastore-endpoint=" (arg_if b ("--datastore-endpoint=" <> s) ++ rest) ≡ true
unfolding any_prefix
endpoint_head true s rest h = ground (arith, has_prefix-append "--datastore-endpoint=" s)
endpoint_head false s rest h = ground arith

server_args-endpoint :
    (f : Bool) (ip : String) (c : Cluster) (n : Node)
    → is_set c.data_store ≡ true
    → any_prefix "--datastore-endpoint=" (server_args f ip c n) ≡ true
unfolding server_args
server_args-endpoint f ip c n h = endpoint_head (is_set c.data_store) c.data_store _ h

pub run_args-endpoint :
    (f : Bool) (ip : String) (c : Cluster) (n : Node)
    → n.master ≡ true
    → is_set c.data_store ≡ true
    → any_prefix "--datastore-endpoint=" (get_run_args f ip c n) ≡ true
unfolding get_run_args any_prefix
run_args-endpoint f ip c n m h = ground (
  arith,
  any_prefix-sort "--datastore-endpoint=" (server_args f ip c n ++ common_args c n),
  any_prefix-append "--datastore-endpoint=" (server_args f ip c n) (common_args c n),
  server_args-endpoint f ip c n h,
)
