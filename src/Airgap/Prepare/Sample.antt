-- ===== src/Airgap/Prepare/Sample.antt =====
-- A machine with a package in a directory, for the tests.
use autok3s.Base.{String, true, false, [], ◌∷◌, none, some, ◌==◌, if◌then◌else◌, ok, err}
use autok3s.Types.{Cluster, Package}
use autok3s.Types.Sample.{etcd_cluster}
use autok3s.Airgap.Disk.{Files, failed}
use autok3s.Airgap.Verify.{resource_suffixes}
use autok3s.Airgap.Prepare.{Local, Machine, archive, tree}

abbrev sums : String
sums = "K  k3s\nI  k3s-airgap-images-amd64.tar\n"

abbrev pub package_files : Files
package_files =
    ("version.json", "v1.27 amd64")
    ∷ (".done", "")
    ∷ ("amd64/.done", "")
    ∷ ("amd64/k3s", "K")
    ∷ ("amd64/k3s-airgap-images.tar", "I")
    ∷ ("amd64/sha256sum.txt", sums)
    ∷ []

-- Its checksum of a text is the text, and it has the archives `whole` and `broken`.
abbrev pub machine : Machine
machine = record {
  outside = record {
    image_list = ok "";
    head = λ name. true;
    get = λ name. failed "404";
    is_canceled = λ n. false;
    save = λ pkg. true;
    sha256 = λ content. content;
    package_path = "/package";
  };
  resources = resource_suffixes;
  tmp_base = "/package/.tmp";
  unpack = λ path content.
      if content == "whole"
      then some (record { files = package_files; outside = []; failure = none })
      else if content == "broken"
      then some (record {
        files = ("amd64/k3s", "half") ∷ [];
        outside = [];
        failure = some "unexpected EOF";
      })
      else none;
  decode_version = λ s.
      if s == "v1.27 amd64"
      then some (record { version = "v1.27"; archs = "amd64" ∷ [] })
      else none;
  list_packages = λ name. err "not found";
}

abbrev pub at_path : String → Cluster
at_path path = record etcd_cluster {
  metadata = record etcd_cluster.metadata { package_path = path };
}

abbrev pub local : Local
local = ("/home/me/package", tree package_files) ∷ ("/home/me/broken.tgz", archive "broken") ∷ []

abbrev pub found_package : Package
found_package = record {
  name = "";
  k3s_version = "v1.27";
  archs = "amd64" ∷ [];
  file_path = "/home/me/package";
  state = "";
}
