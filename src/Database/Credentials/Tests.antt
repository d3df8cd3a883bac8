-- ===== src/Database/Credentials/Tests.antt =====
-- A credential is replaced.
use autok3s.Base.{[], ◌∷◌, ◌++◌, ok, ◌≡◌, refl, length, suc, if◌then◌else◌}
use autok3s.Cluster.World.{succeeded}
use autok3s.Database.Rows.{overwrite, has_row}
use autok3s.Database.Table.{Table, in_memory}
use autok3s.Database.Credentials.{
  Credential, written, same_id, has_id, is_for, over_fields, Updates, create_credential,
}
use autok3s.Database.Credentials.Single.{create_credential-length}

abbrev table : Table written same_id
table = in_memory written same_id

abbrev calls : Updates table
calls = record {
  insert = λ c d. (ok tt, d ++ (record c { id = suc (length d) } ∷ []));
  insert-rows = λ c d. (suc (length d), refl);
  updates = λ c d. (ok tt, overwrite (has_id c.id) (over_fields c) d);
  updates-rows = λ c d. refl;
}

abbrev before : table.Db
before = record { id = 1; provider = "aws"; secrets = "s" } ∷ []

abbrev again : Credential
again = record { id = 0; provider = "aws"; secrets = "t" }

create_credential-length_example : length (create_credential table calls again before).1 ≡ (
    if has_row (is_for "aws") before
    then length before
    else (if succeeded (create_credential table calls again before).0
        then suc (length before)
        else length before))
create_credential-length_example = create_credential-length table calls again before
