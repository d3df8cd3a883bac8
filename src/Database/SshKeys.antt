-- ===== src/Database/SshKeys.antt =====
-- pkg/common/sshkey.go: the ssh keys of the `Store`.
pub mod Saved
mod Tests
use autok3s.Base.{
  String, Bool, true, false, List, [], ◌∷◌, Option, none, some, Result, ok, err, panic, ◌==◌, ◌<>◌,
  is_some, if◌then◌else◌, ℕ,
}
use autok3s.Base.Exec.{Exec, pure, raise, ◌>>=◌, ◌>>◌}
use autok3s.Database.Table.{Table}
use autok3s.Database.Keyed.{first, if_any, save_or_create, record_not_found}

pub record SshKey : Type 0 where
  pub name : String
  pub generate_key : Bool
  pub has_password : Bool
  pub ssh_passphrase : String
  pub bits : ℕ
  pub ssh_cert : String
  pub ssh_key : String
  pub ssh_public_key : String

-- What is stored: all but the fields marked `gorm:"-:all"`.
unfoldable pub written : SshKey → SshKey
written k = record k { generate_key = false; ssh_passphrase = ""; bits = 0 }

abbrev pub same_name : SshKey → SshKey → Bool
same_name r k = k.name == r.name

abbrev pub is_key : String → SshKey → Bool
is_key name k = k.name == name

-- `Omit("name")`
abbrev pub over_key : SshKey → SshKey → SshKey
over_key new old = record new { name = old.name }

-- An answer of `First` without a row is told apart from any other error.
abbrev pub not_found : {S A : Type 0} → String → Exec S A → Exec S A
not_found message m s =
    let (r, s') = m s in
    (
      elim r [
        | ok a ↦ ok a
        | err e ↦ if e == record_not_found then err message else err e
        | panic ↦ panic
      ],
      s',
    )

module _ (t : Table written same_name) where
  unfoldable pub list_ssh_key : Option String → Exec t.Db (List SshKey)
  list_ssh_key none = t.find (λ k. true)
  list_ssh_key (some name) = do key ← first t (is_key name); pure (key ∷ [])

  -- Whether there is a key; an error that is not looked at counts as none.
  unfoldable pub ssh_key_exists : String → Exec t.Db (Option (List SshKey))
  ssh_key_exists name = if_any (list_ssh_key (some name))

  abbrev pub first_of : Option (List SshKey) → Option SshKey
  first_of none = none
  first_of (some []) = none
  first_of (some (k ∷ ks)) = some k

  unfoldable pub save_ssh_key : SshKey → Exec t.Db Unit
  save_ssh_key key = do
    exists ← ssh_key_exists key.name
    save_or_create t (is_key key.name) (over_key key) key (first_of exists)

  -- `DB.Delete(&pkg[0])`, by the primary key of the row found.
  delete_found : List SshKey → Exec t.Db Unit
  delete_found [] s = (panic, s)
  delete_found (k ∷ ks) s = t.delete (is_key k.name) s

  unfoldable pub delete_ssh_key : String → Exec t.Db Unit
  unfolding delete_found
  delete_ssh_key name = do
    keys ← not_found ("ssh key name " <> name <> " not found") (list_ssh_key (some name))
    delete_found keys
