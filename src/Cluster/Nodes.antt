-- ===== src/Cluster/Nodes.antt =====
-- pkg/cluster/cluster.go: `initNode` and what it calls, and the choice of nodes by their IDs.
pub mod Effects
use autok3s.Base.{
  String, Bool, true, false, ◌||◌, List, [], ◌∷◌, ◌++◌, Option, none, some, ◌<>◌, if◌then◌else◌,
  Result, ok, err, panic, is_set, has_infix, null, put,
}
use autok3s.Base.Exec.{Exec, pure, lift, gets, ◌>>=◌, ◌>>◌}
use autok3s.Types.{Node, Cluster, Package}
use autok3s.Cluster.Commands.{data_store_certificates_path, get_command}
use autok3s.Cluster.World.{ProviderBase, Provider, World, Outside, execute, scp_files}

-- `dockerCommand`, filled in.
unfoldable pub docker_command : Cluster → String
docker_command c =
    "if ! type docker; then curl -sSL "
    <> (c.docker_script <> (" | " <> (c.docker_arg <> (" sh - " <> (c.docker_mirror <> "; fi")))))

-- `nodeByInstanceID`.
unfoldable pub node_by_instance_id : List Node → List (String × Node) → List (String × Node)
unfolding put
node_by_instance_id [] rtn = rtn
node_by_instance_id (node ∷ nodes) rtn = node_by_instance_id nodes (put node.instance_id node rtn)

module _ (p : ProviderBase) (o : Outside) where
  -- The command that writes a text to a certificate file of the host.
  tee : String → String → List String
  tee content file =
      ("echo \""
        <> (o.base64 content
            <> ("\" | base64 -d | tee \""
                <> (data_store_certificates_path <> ("/" <> (file <> "\""))))))
      ∷ []

  -- The command for a local file, if one is named.
  tee_file : String → String → Result (List String)
  unfolding tee
  tee_file path file =
      if is_set path
      then (elim (o.read_file path) [
        | ok content ↦ ok (tee content file)
        | err e ↦ err e
        | panic ↦ panic
      ])
      else ok []

  tee_content : String → String → String → List String
  unfolding tee
  tee_content test content file = if is_set test then tee content file else []

  -- `handleDataStoreCertificate`: the files of the cluster, then the contents, which it takes from
  -- `p` where the cluster has one.
  handle_data_store_certificate : Node → Cluster → Exec World Unit
  unfolding tee_file tee_content
  handle_data_store_certificate n c = do
    ca ← lift (tee_file c.data_store_ca_file "ds-ca.pem")
    cert ← lift (tee_file c.data_store_cert_file "ds-cert.pem")
    key ← lift (tee_file c.data_store_key_file "ds-key.pem")
    execute o n (
        ("mkdir -p " <> data_store_certificates_path) ∷ ca
        ++ (cert
            ++ (key
                ++ (tee_content c.data_store_ca_file_content p.data_store_ca_file_content
                      "ds-ca.pem"
                    ++ (tee_content c.data_store_key_file_content p.data_store_key_file_content
                          "ds-key.pem"
                        ++ tee_content c.data_store_cert_file_content p.data_store_cert_file_content
                            "ds-cert.pem")))))
    pure tt

  -- `handleRegistry`. The certificates of the registry bring their own commands.
  handle_registry : Node → Cluster → Exec World Unit
  handle_registry n c = do
    registry ← lift (o.verify_registry p.registry p.registry_content)
    tls ← lift (o.registry_tls registry)
    content ← lift (o.registry_to_string registry)
    execute o n (
        (if null tls then "mkdir -p /etc/rancher/k3s" ∷ [] else tls)
        ++ ("echo \""
            <> (o.base64 content <> "\" | base64 -d | tee \"/etc/rancher/k3s/registries.yaml\""))
          ∷ [])
    pure tt

  -- `if test { if err := ...; err != nil { return err } }`.
  unfoldable pub when : Bool → Exec World Unit → Exec World Unit
  unfolding pure
  when true m w = m w
  when false m w = (ok tt, w)

  install_docker : Node → Cluster → Exec World Unit
  install_docker n c = do execute o n (docker_command c ∷ []); pure tt

  unfoldable pub copy_package : Option Package → Node → String → Exec World Unit
  copy_package none n extra_args = pure tt
  copy_package (some pkg) n extra_args = scp_files o pkg n extra_args

  abbrev needs_certificates : Cluster → Bool
  needs_certificates c =
      is_set c.data_store_ca_file
      || is_set c.data_store_ca_file_content
      || is_set c.data_store_cert_file_content
      || is_set c.data_store_cert_file
      || is_set c.data_store_key_file_content
      || is_set c.data_store_key_file

  -- What `initNode` does before the install command.
  unfoldable pub prepare_node : Cluster → Node → String → Option Package → Exec World Unit
  unfolding when install_docker handle_registry handle_data_store_certificate copy_package
  prepare_node c n extra_args pkg = do
    when (has_infix extra_args "--docker") (install_docker n c)
    when (is_set c.registry || is_set c.registry_content) (handle_registry n c)
    when (needs_certificates c) (handle_data_store_certificate n c)
    copy_package pkg n extra_args

  unfoldable pub init_node :
      Bool → String → Cluster → Node → String → Option Package → Exec World Unit
  unfolding prepare_node
  init_node is_first_master fixed_ip c n extra_args pkg = do
    prepare_node c n extra_args pkg
    execute o n (get_command is_first_master fixed_ip c n (extra_args ∷ []) ∷ [])
    pure tt

  module _ (provider : Provider) (c : Cluster) (public_ip : String) (pkg : Option Package) where
    -- The arguments of a master, with the provider's own behind the user's.
    abbrev pub master_args : Node → String
    master_args n = c.master_extra_args <> provider.generate_master_extra_args c n

    abbrev pub worker_args : Node → String
    worker_args n = c.worker_extra_args <> provider.generate_worker_extra_args c n

    unfoldable pub init_control_node : Node → Bool → Exec World Unit
    unfolding init_node
    init_control_node n is_first = init_node is_first public_ip c n (master_args n) pkg

    unfoldable pub init_worker_node : Node → Exec World Unit
    unfolding init_node
    init_worker_node n = init_node false public_ip c n (worker_args n) pkg
