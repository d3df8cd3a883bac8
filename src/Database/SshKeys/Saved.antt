-- ===== src/Database/SshKeys/Saved.antt =====
-- What is listed of an ssh key that was saved.
use autok3s.Base.{List}
use autok3s.Database.Rows.{save_rows}
use autok3s.Database.Table.{Table}
use autok3s.Database.SshKeys.{SshKey, written, same_name, is_key, over_key}

module _ (t : Table written same_name) where
  saved : SshKey → List SshKey → List SshKey
  saved k rs = save_rows (is_key k.name) (λ x. written (over_key k x)) (written k) rs
