-- ===== src/Manage/Merge/Twice.antt =====
-- What merging the row of a cluster puts into the options, once and once more.
use autok3s.Base.{
  is_set, if◌then◌else◌, String, List, some, Result, ok, ◌≡◌, sym, ap, ◌∙◌, eq_iff, arith,
}
use autok3s.Base.Exec.{pure, lift, continue, ◌>>=◌, >>=-ok}
use autok3s.Types.{Metadata, Ssh, Node}
use autok3s.Cluster.World.{ProviderBase}
use autok3s.Database.Table.{Table}
use autok3s.Database.ClusterState.{ClusterState, written, conflicts, Codec}
use autok3s.Database.Clusters.{get_cluster}
use autok3s.Database.Clusters.Contents.{get_cluster-kept}
use autok3s.Database.Clusters.Refinement.{view}
use autok3s.Database.Rows.{row_at}
use autok3s.Database.ClusterState.{is_named}
use autok3s.Manage.Stored.{get_answers}
use autok3s.Manage.Site.{Answers}
use autok3s.Manage.Merge.{
  Merging, or_else, overwrite_metadata, merge_ssh, merge_found, read_merged, merge_config,
  start_merge, end_merge,
}

or_else-twice : (old new : String) → or_else (or_else old new) new ≡ or_else old new
or_else-twice old new = ground (arith, eq_iff old "")

or_else-again : (old new : String) → or_else new (or_else new old) ≡ or_else new old
or_else-again old new = ground (arith, eq_iff new "")

overwrite_metadata-twice :
    (st : ClusterState) (m : Metadata)
    → overwrite_metadata st (overwrite_metadata st m) ≡ overwrite_metadata st m
unfolding overwrite_metadata
overwrite_metadata-twice st m = rw (
  or_else-twice m.k3s_channel st.k3s_channel,
  or_else-twice m.k3s_version st.k3s_version,
  or_else-twice m.docker_arg st.docker_arg,
  or_else-twice m.docker_script st.docker_script,
  or_else-twice m.registry st.registry,
  or_else-twice m.system_default_registry st.system_default_registry,
  or_else-twice m.master_extra_args st.master_extra_args,
  or_else-twice m.worker_extra_args st.worker_extra_args,
)

merge_ssh-twice :
    (source target : Ssh) → merge_ssh (merge_ssh source target) target ≡ merge_ssh source target
unfolding merge_ssh
merge_ssh-twice s t = rw (
  or_else-again s.ssh_port t.ssh_port,
  or_else-again s.ssh_user t.ssh_user,
  or_else-again s.ssh_password t.ssh_password,
  or_else-again s.ssh_key_path t.ssh_key_path,
  or_else-again s.ssh_cert_path t.ssh_cert_path,
  or_else-again s.ssh_key_passphrase t.ssh_key_passphrase,
  or_else-again s.ssh_key_name t.ssh_key_name,
  or_else-again s.ssh_key t.ssh_key,
  or_else-again s.ssh_cert t.ssh_cert,
)

-- What the command gives, or else what the row has; or the other way round.
abbrev pub first_of : String → String → String
first_of first second = if is_set first then first else second

or_else-first_of : (a b : String) → or_else a b ≡ first_of a b
or_else-first_of a b = ground arith

same_twice : (a : String) → or_else a a ≡ a
same_twice a = ground arith

-- The options of the command `m` with the row: of some fields the row's value, whatever the command
-- gives, of others the row's only where the command gives none.
abbrev pub with_row : ClusterState → Metadata → Metadata
with_row st m = record m {
  token = st.token;
  ip = st.ip;
  ui = st.ui;
  cluster_cidr = st.cluster_cidr;
  data_store = st.data_store;
  mirror = st.mirror;
  docker_mirror = st.docker_mirror;
  install_script = st.install_script;
  network = st.network;
  cluster = st.cluster;
  rollback = st.rollback;
  k3s_channel = first_of m.k3s_channel st.k3s_channel;
  k3s_version = first_of m.k3s_version st.k3s_version;
  docker_arg = first_of m.docker_arg st.docker_arg;
  docker_script = first_of m.docker_script st.docker_script;
  registry = first_of m.registry st.registry;
  system_default_registry = first_of m.system_default_registry st.system_default_registry;
  master_extra_args = first_of m.master_extra_args st.master_extra_args;
  worker_extra_args = first_of m.worker_extra_args st.worker_extra_args;
}

-- Of each text the row's value before the command's, and the row's flag.
abbrev pub with_row_ssh : Ssh → Ssh → Ssh
with_row_ssh row s = record {
  ssh_port = first_of row.ssh_port s.ssh_port;
  ssh_user = first_of row.ssh_user s.ssh_user;
  ssh_password = first_of row.ssh_password s.ssh_password;
  ssh_key_path = first_of row.ssh_key_path s.ssh_key_path;
  ssh_cert_path = first_of row.ssh_cert_path s.ssh_cert_path;
  ssh_key_passphrase = first_of row.ssh_key_passphrase s.ssh_key_passphrase;
  ssh_agent_auth = row.ssh_agent_auth;
  ssh_key_name = first_of row.ssh_key_name s.ssh_key_name;
  ssh_key = first_of row.ssh_key s.ssh_key;
  ssh_cert = first_of row.ssh_cert s.ssh_cert;
}

overwrite_metadata-with_row :
    (st : ClusterState) (m : Metadata) → overwrite_metadata st m ≡ with_row st m
unfolding overwrite_metadata
overwrite_metadata-with_row st m = rw (
  same_twice st.install_script,
  or_else-first_of m.k3s_channel st.k3s_channel,
  or_else-first_of m.k3s_version st.k3s_version,
  or_else-first_of m.docker_arg st.docker_arg,
  or_else-first_of m.docker_script st.docker_script,
  or_else-first_of m.registry st.registry,
  or_else-first_of m.system_default_registry st.system_default_registry,
  or_else-first_of m.master_extra_args st.master_extra_args,
  or_else-first_of m.worker_extra_args st.worker_extra_args,
)

merge_ssh-with_row_ssh : (s row : Ssh) → merge_ssh s row ≡ with_row_ssh row s
unfolding merge_ssh
merge_ssh-with_row_ssh s row = rw (
  or_else-first_of row.ssh_port s.ssh_port,
  or_else-first_of row.ssh_user s.ssh_user,
  or_else-first_of row.ssh_password s.ssh_password,
  or_else-first_of row.ssh_key_path s.ssh_key_path,
  or_else-first_of row.ssh_cert_path s.ssh_cert_path,
  or_else-first_of row.ssh_key_passphrase s.ssh_key_passphrase,
  or_else-first_of row.ssh_key_name s.ssh_key_name,
  or_else-first_of row.ssh_key s.ssh_key,
  or_else-first_of row.ssh_cert s.ssh_cert,
)

-- The base with the row in it.
abbrev merged : ClusterState → List Node → List Node → ProviderBase → ProviderBase
merged st masters workers b = record {
  metadata = overwrite_metadata st b.metadata;
  state = record {
    status = st.status;
    master_nodes = masters;
    worker_nodes = workers;
    standalone = st.standalone;
  };
  ssh = merge_ssh b.ssh st.ssh;
}

merged-twice :
    (st : ClusterState) (masters workers : List Node) (b : ProviderBase)
    → merged st masters workers (merged st masters workers b) ≡ merged st masters workers b
merged-twice st masters workers b =
    rw (overwrite_metadata-twice st b.metadata, merge_ssh-twice b.ssh st.ssh)

abbrev pub with_row_base : ClusterState → List Node → List Node → ProviderBase → ProviderBase
with_row_base st masters workers b = record {
  metadata = with_row st b.metadata;
  state = record {
    status = st.status;
    master_nodes = masters;
    worker_nodes = workers;
    standalone = st.standalone;
  };
  ssh = with_row_ssh st.ssh b.ssh;
}

merged-with_row_base :
    (st : ClusterState) (masters workers : List Node) (b : ProviderBase)
    → merged st masters workers b ≡ with_row_base st masters workers b
merged-with_row_base st masters workers b =
    rw (overwrite_metadata-with_row st b.metadata, merge_ssh-with_row_ssh b.ssh st.ssh)

module _ (j : Codec) (t : Table written conflicts) (answers : Answers t)
    (read_nodes : String → Result (List Node)) where
  merge_found-ok :
      (st : ClusterState) {masters workers : List Node} (s : Merging t.Db)
      → read_nodes st.master_nodes ≡ ok masters
      → read_nodes st.worker_nodes ≡ ok workers
      → merge_found j t read_nodes (some st) s
        ≡ (ok st.options, record s { base = merged st masters workers s.base })
  unfolding merge_found start_merge end_merge ◌>>=◌ continue lift pure
  merge_found-ok st s h h' = rw (h, h')

  -- What merging leaves.
  abbrev after : ClusterState → List Node → List Node → Merging t.Db → Merging t.Db
  after st masters workers s = record {
    store = (get_cluster j t s.base.name s.base.provider s.store).1;
    base = merged st masters workers s.base;
  }

  merge_config-ok :
      (st : ClusterState) {masters workers : List Node} (s : Merging t.Db)
      → view j t s.store s.base.name s.base.provider ≡ some st
      → read_nodes st.master_nodes ≡ ok masters
      → read_nodes st.worker_nodes ≡ ok workers
      → merge_config j t read_nodes s ≡ (ok st.options, after st masters workers s)
  unfolding merge_config read_merged
  merge_config-ok st s e h h' =
      >>=-ok (read_merged j t read_nodes) (merge_found j t read_nodes) s
        (get_answers j t answers s.base.name s.base.provider s.store ∙ ap ok e)
      ∙ merge_found-ok st (read_merged j t read_nodes s).1 h h'

  -- If the database answers, the row of the cluster is there and its nodes can be read, merging succeeds
  -- with the options of the row. The base then has the status, the nodes and the token, address, data
  -- store and script of the row; of the release, the registries and the arguments what the command gives,
  -- or else the row's; and of the ssh options the row's, or else the command's. Merging once more succeeds
  -- as well and leaves the base as it is.
  pub merge_config-with_row :
      (st : ClusterState) {masters workers : List Node} (s : Merging t.Db)
      → view j t s.store s.base.name s.base.provider ≡ some st
      → read_nodes st.master_nodes ≡ ok masters
      → read_nodes st.worker_nodes ≡ ok workers
      → let x = merge_config j t read_nodes s in
        let y = merge_config j t read_nodes x.1 in
        (x.0 ≡ ok st.options)
        × (x.1.base ≡ with_row_base st masters workers s.base)
        × (y.0 ≡ x.0)
        × (y.1.base ≡ x.1.base)
  unfolding overwrite_metadata
  merge_config-with_row st s e h h' =
      let first = merge_config-ok st s e h h' in
      let second =
        ap (λ x. merge_config j t read_nodes x.1) first
        ∙ merge_config-ok st (after st _ _ s)
            (ap (row_at (is_named s.base.name s.base.provider))
                (get_cluster-kept j t s.base.name s.base.provider s.store)
              ∙ e)
            h h' in
      (
        ap (λ x. x.0) first,
        ap (λ x. x.1.base) first ∙ merged-with_row_base st _ _ s.base,
        ap (λ x. x.0) second ∙ sym (ap (λ x. x.0) first),
        ap (λ x. x.1.base) second ∙ merged-twice st _ _ s.base ∙ sym (ap (λ x. x.1.base) first),
      )
