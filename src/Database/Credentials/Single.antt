-- ===== src/Database/Credentials/Single.antt =====
-- `CreateCredential` keeps one credential for each provider.
use autok3s.Base.{List, [], ◌∷◌, if◌then◌else◌, Result, ◌≡◌, sym, ap, arith, null, length, suc}
use autok3s.Base.Exec.{>>=-cases}
use autok3s.Cluster.World.{succeeded}
use autok3s.Database.Rows.{where_rows, has_row}
use autok3s.Database.Counts.{length-snoc, length-overwrite, has_row-where, has_row-none}
use autok3s.Database.Table.{Table}
use autok3s.Database.Credentials.{
  Credential, written, same_id, has_id, is_for, over_fields, Updates, get_credential_by_provider,
  write_credential, create_credential,
}

module _ (t : Table written same_id) (u : Updates t) (cred : Credential) where
  updates-length :
      (old : Credential) (d : t.Db) → length (t.rows (u.updates old d).1) ≡ length (t.rows d)
  updates-length old d =
      ground
        (arith, u.updates-rows old d, length-overwrite (has_id old.id) (over_fields old) (t.rows d))

  insert-length :
      (d : t.Db)
      → length (t.rows (u.insert cred d).1)
        ≡ (if succeeded (u.insert cred d).0 then suc (length (t.rows d)) else length (t.rows d))
  insert-length d =
      let (id, h) = u.insert-rows cred d in
      ground (arith, h, length-snoc (t.rows d) (record cred { id = id }))

  -- The number of rows after a write behind the query.
  abbrev Counts : t.Db → Result (Unit {0}) × t.Db → Type 0
  Counts d x = length (t.rows x.1) ≡ (
      if has_row (is_for cred.provider) (t.rows d)
      then length (t.rows d)
      else (if succeeded x.0 then suc (length (t.rows d)) else length (t.rows d)))

  write_credential-Counts :
      (list : List Credential) (d d' : t.Db)
      → t.rows d' ≡ t.rows d
      → list ≡ where_rows (is_for cred.provider) (t.rows d)
      → Counts d (write_credential t u cred list d')
  unfolding write_credential
  write_credential-Counts [] d d' kept h = ground (
    arith,
    insert-length d',
    ap length kept,
    has_row-none (is_for cred.provider) (t.rows d) (ap null (sym h)),
  )
  write_credential-Counts (old ∷ list) d d' kept h = ground (
    arith,
    updates-length (record old { secrets = cred.secrets }) d',
    ap length kept,
    has_row-where (is_for cred.provider) (t.rows d) (ap null (sym h)),
  )

  -- A credential for a provider that has none adds a row, and one for a provider that has one changes
  -- the secrets that are there: the rows stay as many.
  pub create_credential-length :
      (d : t.Db)
      → length (t.rows (create_credential t u cred d).1) ≡ (
          if has_row (is_for cred.provider) (t.rows d)
          then length (t.rows d)
          else (if succeeded (create_credential t u cred d).0
              then suc (length (t.rows d))
              else length (t.rows d)))
  unfolding create_credential get_credential_by_provider
  create_credential-length d =
      let p = is_for cred.provider in
      let kept = t.find-rows p d in
      >>=-cases (Counts d) (t.find p) (write_credential t u cred) d
        (λ list e. write_credential-Counts list d (t.find p d).1 kept (t.find-found p d e))
        (λ x e. ground (arith, ap length kept)) (λ e. ground (arith, ap length kept))
