-- ===== src/Release/Versions/Publish.antt =====
-- What `publish` and its gate guarantee (app/release/service.py).
use mathlib.Core.Option
use new_rag.Base.{
  if◌then◌else◌, ap, ◌∙◌, sym, is_some, ℕ, ◌≡◌, refl, Bool, true, false, some, List, [], ◌∷◌, arith,
  Ident, ok, err, Code, All, Option-cases, inl, inr,
}
use new_rag.Base.Table.{
  first-select-update, first-select-update_kept, first-select-hit, select, first, update,
}
use new_rag.Release.Model.{active, disabled, VersionRow, Db, is_active}
use new_rag.Release.Flow.{version_of, ensure_not_terminated}
use new_rag.Release.Contract.{
  report_of, checks_for, Env, contract_check, get_version, find_version, at_version,
}
use new_rag.Release.Contract.Sound.{Compatible, checks_for-Compatible}
use new_rag.Release.Versions.{
  default_min_runs, default_error_threshold, set_status, other_active, activate, contract_gate,
  publish,
}

module _ (tenant agent : Ident) where
  writes-sole :
      (v : ℕ) (rows : List VersionRow)
      → All
          (λ r. version_of tenant agent r ≡ true → is_active r.status ≡ true → r.version ≡ v)
          (update
            (at_version tenant agent v)
            (set_status active)
            (update (other_active tenant agent v) (set_status disabled) rows))
  unfolding update
  writes-sole v [] = tt
  writes-sole v (r ∷ rows) = (ground arith, writes-sole v rows)

  writes-found :
      (v : ℕ) (rows : List VersionRow) (r : VersionRow)
      → first (select (at_version tenant agent v) rows) ≡ some r
      → first (
          select (at_version tenant agent v) (
            update
              (at_version tenant agent v)
              (set_status active)
              (update (other_active tenant agent v) (set_status disabled) rows)))
        ≡ some (set_status active r)
  writes-found v rows r e =
      let p = at_version tenant agent v in
      let q = other_active tenant agent v in
      let kept = first-select-update_kept q p (set_status disabled) (λ x. refl) rows in
      let last =
        first-select-update p (set_status active) (λ x h. h)
          (update q (set_status disabled) rows) in
      let hit = first-select-hit p rows r e in
      let other : q r ≡ false = ground (arith, hit) in
      let found : first (select p (update q (set_status disabled) rows)) ≡ some r =
        rw (kept, e, other, if◌then◌else◌) refl in
      rw (last, found) refl

  pub contract_gate-state :
      (env : Env) (v : ℕ) (enforce_contract force : Bool) (db : Db)
      → (contract_gate tenant agent env v enforce_contract force db).1 ≡ db
  unfolding contract_gate contract_check ensure_not_terminated get_version
  contract_gate-state env v enforce_contract force db = ground arith

  gate_passed :
      (env : Env) (v : ℕ) (db : Db) (row : VersionRow)
      → find_version tenant agent v db ≡ some row
      → (contract_gate tenant agent env v true false db).0 ≡ ok tt
      → (report_of
          (checks_for tenant agent env v default_min_runs default_error_threshold row db)).blocked
        ≡ false
  unfolding contract_gate contract_check ensure_not_terminated get_version report_of
  gate_passed env v db row found h = ground arith

  -- What a call of `publish` that succeeds has done.
  pub publish-ok :
      (env : Env) (v : ℕ) (enforce_contract force : Bool) (db : Db) {w : ℕ}
      → (publish tenant agent env v enforce_contract force db).0 ≡ ok w
      → (row : VersionRow) × (find_version tenant agent v db ≡ some row)
        × ((contract_gate tenant agent env v enforce_contract force db).0 ≡ ok tt)
        × (publish tenant agent env v enforce_contract force db
            ≡ (ok v, activate tenant agent v db))
  unfolding publish ensure_not_terminated get_version
  publish-ok env v enforce_contract force db h =
      elim (Option-cases (find_version tenant agent v db)) [
        | inl n ↦ absurd (ground (arith, contract_gate-state env v enforce_contract force db))
        | inr (row, e) ↦ (
          row,
          e,
          ground (arith, contract_gate-state env v enforce_contract force db),
          ground (arith, contract_gate-state env v enforce_contract force db),
        )
      ]

  -- A call of `publish` that succeeds returns the version it was given, makes it ACTIVE with its
  -- other columns as they were, and leaves no other version of the agent ACTIVE.
  pub publish-sole :
      (env : Env) (v : ℕ) (enforce_contract force : Bool) (db : Db) {w : ℕ}
      → (publish tenant agent env v enforce_contract force db).0 ≡ ok w
      → let db' = (publish tenant agent env v enforce_contract force db).1 in
        (w ≡ v)
        × (find_version tenant agent v db'
            ≡ Option.map (set_status active) (find_version tenant agent v db))
        × (is_some (find_version tenant agent v db) ≡ true)
        × All
            (λ r. version_of tenant agent r ≡ true → is_active r.status ≡ true → r.version ≡ v)
            db'.versions
  publish-sole env v enforce_contract force db {w} h =
      let (row, found, _, done) = publish-ok env v enforce_contract force db h in
      let e : ok w ≡ ok v = sym h ∙ ap (λ p. p.0) done in
      rw (done, found)
        (
          ground arith,
          unfold find_version activate in writes-found v db.versions row found,
          refl,
          unfold activate in writes-sole v db.versions,
        )

  -- A call of `publish` that raises leaves the state as it was.
  pub publish-err :
      (env : Env) (v : ℕ) (enforce_contract force : Bool) (db : Db) {c : Code}
      → (publish tenant agent env v enforce_contract force db).0 ≡ err c
      → (publish tenant agent env v enforce_contract force db).1 ≡ db
  unfolding publish ensure_not_terminated get_version
  publish-err env v enforce_contract force db h =
      ground (arith, contract_gate-state env v enforce_contract force db)

  -- Where the contract is enforced and not forced, a call of `publish` that succeeds has published a
  -- version that is compatible with the one before it, the registry and the settings.
  pub publish-Compatible :
      (env : Env) (v : ℕ) (db : Db) {w : ℕ}
      → (publish tenant agent env v true false db).0 ≡ ok w
      → (row : VersionRow) × (find_version tenant agent v db ≡ some row)
        × Compatible tenant agent env v row db
  publish-Compatible env v db h =
      let (row, found, gate, _) = publish-ok env v true false db h in
      (
        row,
        found,
        (checks_for-Compatible tenant agent env v default_min_runs default_error_threshold row db).0
            (gate_passed env v db row found gate),
      )
