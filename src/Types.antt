-- ===== src/Types.antt =====
-- pkg/types/autok3s.go: the data that the components pass to one another. `interface{}` options are
-- kept as the text that they are stored as. Embedded structs are opened fields.
pub mod Array
pub mod Sample
mod Tests
use autok3s.Base.{String, Bool, List, ◌∷◌, []}

pub record Ssh : Type 0 where
  pub ssh_port : String
  pub ssh_user : String
  pub ssh_password : String
  pub ssh_key_path : String
  pub ssh_cert_path : String
  pub ssh_key_passphrase : String
  pub ssh_agent_auth : Bool
  pub ssh_key_name : String
  pub ssh_key : String
  pub ssh_cert : String

pub record Node : Type 0 where
  pub ssh : Ssh
  pub instance_id : String
  pub instance_status : String
  pub public_ip_address : List String
  pub internal_ip_address : List String
  pub eip_allocation_ids : List String
  pub master : Bool
  pub roll_back : Bool
  pub current : Bool
  pub standalone : Bool
  pub local_hostname : String

pub record Metadata : Type 0 where
  pub name : String
  pub provider : String
  pub master : String
  pub worker : String
  pub token : String
  pub ip : String
  pub tls_sans : List String
  pub cluster_cidr : String
  pub master_extra_args : String
  pub worker_extra_args : String
  pub registry : String
  pub system_default_registry : String
  pub data_store : String
  pub k3s_version : String
  pub k3s_channel : String
  pub install_script : String
  pub mirror : String
  pub docker_mirror : String
  pub docker_arg : String
  pub docker_script : String
  pub network : String
  pub ui : Bool
  pub cluster : Bool
  pub context_name : String
  pub registry_content : String
  pub manifests : String
  pub enable : List String
  pub package_path : String
  pub package_name : String
  pub data_store_ca_file : String
  pub data_store_cert_file : String
  pub data_store_key_file : String
  pub data_store_ca_file_content : String
  pub data_store_cert_file_content : String
  pub data_store_key_file_content : String
  pub rollback : Bool
  pub values : List (String × String)

pub record Status : Type 0 where
  pub status : String
  pub master_nodes : List Node
  pub worker_nodes : List Node
  pub standalone : Bool

pub record Cluster : Type 0 where
  pub metadata : Metadata
  pub open metadata use *
  pub options : String
  pub ssh : Ssh
  pub state : Status
  pub open state use *

-- `pkg/common/package.go`: the states of a package, and its row.
pub record Package : Type 0 where
  pub name : String
  pub k3s_version : String
  pub archs : List String
  pub file_path : String
  pub state : String
