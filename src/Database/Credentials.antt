-- ===== src/Database/Credentials.antt =====
-- pkg/common/model.go: the credentials of the `Store`.
pub mod Single
mod Tests
use autok3s.Base.{
  String, Bool, true, false, List, [], ◌∷◌, ◌++◌, Option, none, some, if◌then◌else◌, Result, ok,
  err, panic, ◌==◌, ◌≡◌, ℕ, ltb, leb,
}
use autok3s.Base.Exec.{Exec, pure, ◌>>=◌, ◌>>◌}
use autok3s.Cluster.World.{succeeded}
use autok3s.Database.Rows.{overwrite}
use autok3s.Database.Table.{Table}
use autok3s.Database.Keyed.{find_one}

pub record Credential : Type 0 where
  pub id : ℕ
  pub provider : String
  pub secrets : String

abbrev pub written : Credential → Credential
written c = c

abbrev pub same_nat : ℕ → ℕ → Bool
same_nat a b = if leb a b then leb b a else false

-- The primary key.
abbrev pub same_id : Credential → Credential → Bool
same_id r c = same_nat c.id r.id

abbrev pub has_id : ℕ → Credential → Bool
has_id id c = same_nat c.id id

abbrev pub is_for : String → Credential → Bool
is_for provider c = c.provider == provider

-- `Omit("id", "provider")`
abbrev pub over_credential : Credential → Credential → Credential
over_credential new old = record new { id = old.id; provider = old.provider }

-- `Updates(credential)`, which writes the fields that are not blank over the row with its id.
abbrev pub over_fields : Credential → Credential → Credential
over_fields new old = record old {
  provider = if new.provider == "" then old.provider else new.provider;
  secrets = if new.secrets == "" then old.secrets else new.secrets;
}

-- The calls that depend on the id.
pub record Updates (t : Table written same_id) : Type 0 where
  -- `Create(credential)`, which gives the row an id of its own
  pub insert : Credential → Exec t.Db Unit
  pub insert-rows :
      (c : Credential) (d : t.Db)
      → (id : ℕ) × (t.rows (insert c d).1 ≡ (
          if succeeded (insert c d).0 then t.rows d ++ (record c { id = id } ∷ []) else t.rows d))
  pub updates : Credential → Exec t.Db Unit
  pub updates-rows :
      (c : Credential) (d : t.Db)
      → t.rows (updates c d).1 ≡ (
          if succeeded (updates c d).0
          then overwrite (has_id c.id) (over_fields c) (t.rows d)
          else t.rows d)

module _ (t : Table written same_id) (u : Updates t) where
  unfoldable pub get_credential_by_provider : String → Exec t.Db (List Credential)
  get_credential_by_provider provider = t.find (is_for provider)

  write_credential : Credential → List Credential → Exec t.Db Unit
  write_credential cred [] = u.insert cred
  write_credential cred (old ∷ list) = u.updates (record old { secrets = cred.secrets })

  unfoldable pub create_credential : Credential → Exec t.Db Unit
  unfolding write_credential
  create_credential cred = do
    list ← get_credential_by_provider cred.provider
    write_credential cred list

  unfoldable pub update_credential : Credential → Exec t.Db Unit
  update_credential cred = t.save (has_id cred.id) (over_credential cred) cred

  unfoldable pub list_credential : Exec t.Db (List Credential)
  list_credential = t.find (λ c. true)

  unfoldable pub get_credential : ℕ → Exec t.Db (Option Credential)
  get_credential id = find_one t (has_id id)

  unfoldable pub delete_credential : ℕ → Exec t.Db Unit
  delete_credential id = t.delete (has_id id)
