-- ===== src/Database/Explorers/Ports.antt =====
-- The row of a cluster's kube-explorer after enabling and disabling it.
use autok3s.Base.{
  String, Bool, true, false, not, ◌∷◌, Option, none, some, if◌then◌else◌, ok, err, ◌≡◌, refl, sym,
  ap, ◌∙◌, arith, ℕ, contains, delete_key, ok_injective, eq_iff, eq_refl,
}
use autok3s.Base.Exec.{Exec, pure, continue, ◌>>=◌, ◌>>◌, >>=-eq-ok}
use autok3s.Cluster.World.{succeeded}
use autok3s.Database.Rows.{row_at, save_rows, row_at-meets}
use autok3s.Database.NameKey.{row_at-saved}
use autok3s.Database.Table.{Table}
use autok3s.Database.Keyed.{
  Writes, find_one, find_one-kept, find_one-found, save_or_create, save_or_create-Writes,
  then-Writes,
}
use autok3s.Database.Explorers.{
  Explorer, written, same_context, is_explorer, over_explorer, Machine, get_explorer, save_explorer,
  State, on_rows, start, enable_explorer, disable_explorer, write_explorer, port_of, is_enabled,
  is_disabled, ask, enable_stopped, disable_running,
}

module _ (t : Table written same_context) where
  abbrev pub row_of : State t → String → Option Explorer
  row_of s n = row_at (is_explorer n) (t.rows s.db)

  save_explorer-Writes :
      (e : Explorer) (d : t.Db)
      → Writes t
          (save_rows (is_explorer e.context_name) (over_explorer e) e)
          d
          (save_explorer t e d)
  unfolding save_explorer get_explorer
  save_explorer-Writes e d =
      let p = is_explorer e.context_name in
      then-Writes t p (save_rows p (over_explorer e) e) (find_one t p)
        (save_or_create t p (over_explorer e) e) d (find_one-kept t p d)
        (λ found.
          save_or_create-Writes t p (over_explorer e) e found (find_one t p d).1 (λ x. refl))

  overwritten :
      (e : Explorer) (old : Option Explorer)
      → ((x : Explorer) → old ≡ some x → x.context_name ≡ e.context_name)
      → some (elim old [ none ↦ e | some x ↦ over_explorer e x ]) ≡ some e
  overwritten e none h = refl
  overwritten e (some x) h = rw (h x refl) refl

  met : (n : String) (x : Explorer) → is_explorer n x ≡ true → x.context_name ≡ n
  met n x h = ground (arith, eq_iff x.context_name n)

  -- A row that was saved stands under its key, as it was saved.
  save_explorer-row :
      (e : Explorer) (s : State t) {d : t.Db}
      → save_explorer t e s.db ≡ (ok tt, d)
      → row_at (is_explorer e.context_name) (t.rows d) ≡ some e
  save_explorer-row e s {d = d} h =
      let p = is_explorer e.context_name in
      let rs = t.rows s.db in
      ap (row_at p) (
        ap (λ x. t.rows x.1) (sym h)
        ∙ save_explorer-Writes e s.db
        ∙ ap (λ x. if succeeded x.0 then save_rows p (over_explorer e) e rs else rs) h)
      ∙ row_at-saved (λ x. x.context_name) (over_explorer e) (λ x. refl) e rs e.context_name
      ∙ rw (eq_refl e.context_name)
          (overwritten e (row_at p rs) (λ x k. met e.context_name x (row_at-meets p rs k)))

  get_explorer-row :
      (config : String) (s : State t) {found : Option Explorer}
      → (get_explorer t config s.db).0 ≡ ok found
      → found ≡ row_of s config
  unfolding get_explorer
  get_explorer-row config s h = find_one-found t (is_explorer config) s.db h

  get_explorer-kept :
      (config : String) (s : State t) → t.rows (get_explorer t config s.db).1 ≡ t.rows s.db
  unfolding get_explorer
  get_explorer-kept config s = find_one-kept t (is_explorer config) s.db

  module _ (machine : Machine t.Db) where
    port_of-kept : (exp : Option Explorer) (s : State t) → (port_of t machine exp s).1 ≡ s
    unfolding pure
    port_of-kept none s = refl
    port_of-kept (some exp) s = refl

    -- The row of an explorer, and which are running.
    abbrev pub IsWritten : String → Bool → ℕ → State t → State t → Type 0
    IsWritten config enabled port s u =
        (row_of u config ≡ some (record { context_name = config; enabled = enabled; port = port }))
        × (u.watchers ≡ s.watchers)

    write_explorer-row :
        (config : String) (enabled : Bool) (exp : Option Explorer) (s u : State t) {port : ℕ}
        → write_explorer t machine config enabled exp s ≡ (ok port, u)
        → IsWritten config enabled port s u
    unfolding write_explorer pure
    write_explorer-row config enabled exp s u h =
        let (port, s', e, k) = >>=-eq-ok (port_of t machine exp) _ s h in
        let new : Explorer = record { context_name = config; enabled = enabled; port = port } in
        let (x, s'', e', k') = >>=-eq-ok (on_rows t (save_explorer t new)) _ s' k in
        (
          ap (λ u. row_of u config) (sym (ap (λ x. x.1) k'))
              ∙ save_explorer-row new s' (ap (λ x. (x.0, x.1.db)) e')
              ∙ ap (λ p. some (record { context_name = config; enabled = enabled; port = p }))
                  (ok_injective (ap (λ x. x.0) k')),
          ap (λ x. x.1.watchers) (sym k')
              ∙ ap (λ x. x.1.watchers) (sym e')
              ∙ ap (λ x. x.1.watchers) (sym e)
              ∙ ap (λ s. s.watchers) (port_of-kept exp s),
        )

    kept_row :
        (config : String) (enabled : Bool) (x : Explorer) (s u : State t) {port : ℕ}
        → x.enabled ≡ enabled
        → some x ≡ row_of s config
        → pure x.port s ≡ (ok port, u)
        → IsWritten config enabled port s u
    unfolding pure
    kept_row config enabled x s u f e h = (
      ap (λ u. row_of u config) (sym (ap (λ x. x.1) h))
          ∙ sym e
          ∙ ap (λ c. some (record { context_name = c; enabled = x.enabled; port = x.port }))
              (met config x (row_at-meets (is_explorer config) (t.rows s.db) (sym e)))
          ∙ ap (λ b. some (record { context_name = config; enabled = b; port = x.port })) f
          ∙ ap (λ p. some (record { context_name = config; enabled = enabled; port = p }))
              (ok_injective (ap (λ x. x.0) h)),
      ap (λ x. x.1.watchers) (sym h),
    )

    -- The row found is kept where it needs no change.
    some_row :
        (config : String) (enabled : Bool) (b : Bool) (x : Explorer) (s u : State t) {port : ℕ}
        → (b ≡ true → x.enabled ≡ enabled)
        → some x ≡ row_of s config
        → (if b then pure x.port else write_explorer t machine config enabled (some x)) s
          ≡ (ok port, u)
        → IsWritten config enabled port s u
    some_row config enabled true x s u f e h = kept_row config enabled x s u (f refl) e h
    some_row config enabled false x s u f e h = write_explorer-row config enabled (some x) s u h

    enabled_row :
        (config : String) (exp : Option Explorer) (s u : State t) {port : ℕ}
        → exp ≡ row_of s config
        → (if is_enabled t machine exp
              then port_of t machine exp
              else write_explorer t machine config true exp)
            s
          ≡ (ok port, u)
        → IsWritten config true port s u
    enabled_row config none s u e h = write_explorer-row config true none s u h
    enabled_row config (some x) s u e h = some_row config true x.enabled x s u (λ k. k) e h

    disabled_row :
        (config : String) (exp : Option Explorer) (s u : State t) {port : ℕ}
        → exp ≡ row_of s config
        → (if is_disabled t machine exp
              then port_of t machine exp
              else write_explorer t machine config false exp)
            s
          ≡ (ok port, u)
        → IsWritten config false port s u
    disabled_row config none s u e h = write_explorer-row config false none s u h
    disabled_row config (some x) s u e h =
        some_row config false (not x.enabled) x s u (λ k. ground (arith, k)) e h

    get_row :
        (config : String) (s s' : State t) {found : Option Explorer}
        → on_rows t (get_explorer t config) s ≡ (ok found, s')
        → (found ≡ row_of s' config) × (s'.watchers ≡ s.watchers)
    get_row config s s' e = (
      get_explorer-row config s (ap (λ x. x.0) e)
          ∙ ap (row_at (is_explorer config)) (sym (get_explorer-kept config s))
          ∙ ap (λ x. row_of x.1 config) e,
      ap (λ x. x.1.watchers) (sym e),
    )

    started :
        (config : String) (port : ℕ) (s u : State t) {port' : ℕ}
        → (start t config >> pure port) s ≡ (ok port', u)
        → (port ≡ port') × (record s { watchers = config ∷ s.watchers } ≡ u)
    unfolding ◌>>=◌ continue pure
    started config port s u h = (ok_injective (ap (λ x. x.0) h), ap (λ x. x.1) h)

    stopped_row :
        (config : String) (s u : State t) {port : ℕ}
        → enable_stopped t machine config s ≡ (ok port, u)
        → (row_of u config ≡ some (record { context_name = config; enabled = true; port = port }))
          × (u.watchers ≡ config ∷ s.watchers)
    unfolding enable_stopped pure
    stopped_row config s u h =
        let (x, s1, e1, k1) = >>=-eq-ok (ask t machine machine.check_command_exist) _ s h in
        let (y, s2, e2, k2) = >>=-eq-ok (ask t machine machine.check_explorer_cmd) _ s1 k1 in
        let (found, s3, e3, k3) = >>=-eq-ok (on_rows t (get_explorer t config)) _ s2 k2 in
        let (port, s4, e4, k4) = >>=-eq-ok _ _ s3 k3 in
        let (row, same) = get_row config s2 s3 e3 in
        let (written, same') = enabled_row config found s3 s4 row e4 in
        let (p, end) = started config port s4 u k4 in
        (
          ap (λ u. row_of u config) (sym end)
              ∙ written
              ∙ ap (λ p. some (record { context_name = config; enabled = true; port = p })) p,
          ap (λ u. u.watchers) (sym end)
              ∙ ap (λ l. config ∷ l)
                  (same'
                    ∙ same
                    ∙ ap (λ x. x.1.watchers) (sym e2)
                    ∙ ap (λ x. x.1.watchers) (sym e1)),
        )

    if_stopped :
        {A : Type 0} (b : Bool) (e : String) (m : Exec (State t) A) (s u : State t) {a : A}
        → (if b then (err e, s) else m s) ≡ (ok a, u)
        → (b ≡ false) × (m s ≡ (ok a, u))
    if_stopped true e m s u h = ground arith
    if_stopped false e m s u h = (refl, h)

    if_running :
        {A : Type 0} (b : Bool) (e : String) (m : Exec (State t) A) (s u : State t) {a : A}
        → (if b then m s else (err e, s)) ≡ (ok a, u)
        → (b ≡ true) × (m s ≡ (ok a, u))
    if_running true e m s u h = (refl, h)
    if_running false e m s u h = ground arith

    -- An explorer that was not running is, after a success, the only new one that runs; its row is
    -- enabled and has the port that is returned.
    pub enable_explorer-row :
        (config : String) (s u : State t) {port : ℕ}
        → enable_explorer t machine config s ≡ (ok port, u)
        → (contains s.watchers config ≡ false)
          × (u.watchers ≡ config ∷ s.watchers)
          × (row_of u config ≡ some (record { context_name = config; enabled = true; port = port }))
    unfolding enable_explorer
    enable_explorer-row config s u h =
        let (e, k) =
          if_stopped (contains s.watchers config) _ (enable_stopped t machine config) s u h in
        let (row, watchers) = stopped_row config s u k in (e, watchers, row)

    running_row :
        (config : String) (s u : State t)
        → disable_running t machine config s ≡ (ok tt, u)
        → (port : ℕ) × (row_of u config
            ≡ some (record { context_name = config; enabled = false; port = port }))
          × (u.watchers ≡ delete_key config s.watchers)
    unfolding disable_running
    running_row config s u h =
        let (found, s1, e1, k1) = >>=-eq-ok (on_rows t (get_explorer t config)) _ s h in
        let (port, s2, e2, k2) = >>=-eq-ok _ _ s1 k1 in
        let (row, same) = get_row config s s1 e1 in
        let (written, same') = disabled_row config found s1 s2 row e2 in
        (
          port,
          ap (λ x. row_of x.1 config) (sym k2) ∙ written,
          ap (λ x. x.1.watchers) (sym k2) ∙ ap (delete_key config) (same' ∙ same),
        )

    -- An explorer that was running is, after a success, the only one that was stopped, and its row is
    -- disabled.
    pub disable_explorer-row :
        (config : String) (s u : State t)
        → disable_explorer t machine config s ≡ (ok tt, u)
        → (contains s.watchers config ≡ true)
          × (u.watchers ≡ delete_key config s.watchers)
          × (port : ℕ) × (row_of u config
              ≡ some (record { context_name = config; enabled = false; port = port }))
    unfolding disable_explorer
    disable_explorer-row config s u h =
        let (e, k) =
          if_running (contains s.watchers config) _ (disable_running t machine config) s u h in
        let (port, row, watchers) = running_row config s u k in (e, watchers, port, row)
