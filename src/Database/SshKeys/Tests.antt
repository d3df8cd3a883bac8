-- ===== src/Database/SshKeys/Tests.antt =====
-- A key is saved and listed.
use autok3s.Base.{true}
use autok3s.Database.Table.{Table, in_memory}
use autok3s.Database.SshKeys.{SshKey, written, same_name}

abbrev table : Table written same_name
table = in_memory written same_name

abbrev key : SshKey
key = record {
  name = "k";
  generate_key = true;
  has_password = true;
  ssh_passphrase = "p";
  bits = 2048;
  ssh_cert = "";
  ssh_key = "private";
  ssh_public_key = "public";
}
