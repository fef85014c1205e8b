-- ===== src/Release/Versions/Rollback.antt =====
-- What `rollback` and `halt` do to the versions of an agent (app/release/service.py).
use mathlib.Core.Option
use new_rag.Base.{
  ℕ, ◌≡◌, ◌≢◌, refl, true, Option, none, some, arith, ◌==◌, if◌then◌else◌, Ident, ok, err, Code,
  Option-cases, inl, inr, is_some,
}
use new_rag.Base.Table.{select, first, first-select-update_kept, first-select-hit}
use new_rag.Release.Model.{Status, active, gray, disabled, VersionRow, Db}
use new_rag.Release.Flow.{ensure_not_terminated}
use new_rag.Release.Contract.{at_version, find_version, get_version}
use new_rag.Release.Versions.{
  set_status, write_versions, current_live, rollback_target, switch_to, rollback, halt,
}

module _ (tenant agent : Ident) where
  -- A write of a status to one version, as a look-up of any version sees it.
  pub find_version-set_status :
      (u v : ℕ) (s : Status) (db : Db)
      → find_version tenant agent u (write_versions (at_version tenant agent v) (set_status s) db)
        ≡ (if u == v
            then Option.map (set_status s) (find_version tenant agent u db)
            else find_version tenant agent u db)
  unfolding find_version
  find_version-set_status u v s db =
      let p = at_version tenant agent v in
      let q = at_version tenant agent u in
      elim (Option-cases (first (select q db.versions))) [
        | inl n ↦
            ground (arith, first-select-update_kept p q (set_status s) (λ x. refl) db.versions)
        | inr (r, e) ↦ ground (
          arith,
          first-select-hit q db.versions r e,
          first-select-update_kept p q (set_status s) (λ x. refl) db.versions,
        )
      ]

  -- The versions after a switch, the target's write being the last.
  pub find_version-switch_to :
      (u : ℕ) (current : Option VersionRow) (w : ℕ) (db : Db)
      → find_version tenant agent u (switch_to tenant agent current w db) ≡ (
          if u == w
          then Option.map (set_status active) (find_version tenant agent u db)
          else elim current [
            | none ↦ find_version tenant agent u db
            | some c ↦
                if u == c.version
                then Option.map (set_status disabled) (find_version tenant agent u db)
                else find_version tenant agent u db
          ])
  unfolding switch_to
  find_version-switch_to u none w db = find_version-set_status u w active db
  find_version-switch_to u (some c) w db = elim (Option-cases (find_version tenant agent u db)) [
    | inl n ↦ ground (
      arith,
      find_version-set_status u c.version disabled db,
      find_version-set_status u w active
          (write_versions (at_version tenant agent c.version) (set_status disabled) db),
    )
    | inr (r, e) ↦ ground (
      arith,
      find_version-set_status u c.version disabled db,
      find_version-set_status u w active
          (write_versions (at_version tenant agent c.version) (set_status disabled) db),
    )
  ]

  -- What a call of `rollback` that succeeds has done.
  pub rollback-ok :
      (to_version : Option ℕ) (db : Db) {w : ℕ}
      → (rollback tenant agent to_version db).0 ≡ ok w
      → let current = current_live tenant agent db in
        (w ≡ rollback_target to_version current)
        × ((rollback tenant agent to_version db).1 ≡ switch_to tenant agent current w db)
        × (is_some (find_version tenant agent w db) ≡ true)
  unfolding rollback ensure_not_terminated
  rollback-ok to_version db h =
      elim (Option-cases (
        find_version tenant agent (rollback_target to_version (current_live tenant agent db)) db)) [
          | inl n ↦ ground arith
          | inr (r, e) ↦ ground arith
        ]

  -- A call of `rollback` that succeeds makes the version that it returns ACTIVE, which is the one
  -- asked for, or by default the one below the highest live version.
  pub rollback-activates :
      (to_version : Option ℕ) (db : Db) {w : ℕ}
      → (rollback tenant agent to_version db).0 ≡ ok w
      → let db' = (rollback tenant agent to_version db).1 in
        (w ≡ rollback_target to_version (current_live tenant agent db))
        × (find_version tenant agent w db'
            ≡ Option.map (set_status active) (find_version tenant agent w db))
        × (is_some (find_version tenant agent w db') ≡ true)
  rollback-activates to_version db {w} h =
      let (asked, done, found) = rollback-ok to_version db h in
      let looked = find_version-switch_to w (current_live tenant agent db) w db in
      let same : find_version tenant agent w (rollback tenant agent to_version db).1
          ≡ Option.map (set_status active) (find_version tenant agent w db) =
        ground arith in
      (asked, same, ground arith)

  -- It disables the highest live version if that is another one, and leaves all others as they
  -- are, an ACTIVE version below a GRAY one included.
  pub rollback-others :
      (to_version : Option ℕ) (db : Db) {w : ℕ} (c : VersionRow) (u : ℕ)
      → (rollback tenant agent to_version db).0 ≡ ok w
      → current_live tenant agent db ≡ some c
      → u ≢ w
      → let db' = (rollback tenant agent to_version db).1 in
        find_version tenant agent u db' ≡ (
          if u == c.version
          then Option.map (set_status disabled) (find_version tenant agent u db)
          else find_version tenant agent u db)
  rollback-others to_version db {w} c u h e n =
      let (asked, done, found) = rollback-ok to_version db h in
      ground (arith, find_version-switch_to u (some c) w db)

  -- A call of `rollback` that raises leaves the state as it was.
  pub rollback-err :
      (to_version : Option ℕ) (db : Db) {c : Code}
      → (rollback tenant agent to_version db).0 ≡ err c
      → (rollback tenant agent to_version db).1 ≡ db
  unfolding rollback ensure_not_terminated
  rollback-err to_version db h = ground arith

  -- A rollback from a GRAY version over an ACTIVE one to a third version leaves two ACTIVE.
  pub rollback-two_active :
      (to_version : Option ℕ) (db : Db) {w : ℕ} (c a : VersionRow)
      → (rollback tenant agent to_version db).0 ≡ ok w
      → current_live tenant agent db ≡ some c
      → c.status ≡ gray
      → find_version tenant agent a.version db ≡ some a
      → a.status ≡ active
      → a.version ≢ w
      → a.version ≢ c.version
      → let db' = (rollback tenant agent to_version db).1 in
        (Option.map (λ r. r.status) (find_version tenant agent a.version db') ≡ some active)
        × (Option.map (λ r. r.status) (find_version tenant agent w db') ≡ some active)
  rollback-two_active to_version db {w} c a h e g found act n m =
      let other = rollback-others to_version db c a.version h e n in
      let (_, same, some_w) = rollback-activates to_version db h in
      (
        ground arith,
        elim (Option-cases (find_version tenant agent w db)) [
          | inl none_w ↦ ground arith
          | inr (r, found_w) ↦ ground arith
        ],
      )

  -- After a halt that succeeds the version is DISABLED, so it is not served to new traffic; every
  -- other version is as it was.
  pub halt-disables :
      (v : ℕ) (db : Db) (u : ℕ) {w : ℕ}
      → (halt tenant agent v db).0 ≡ ok w
      → let db' = (halt tenant agent v db).1 in
        (is_some (find_version tenant agent v db) ≡ true)
        × (find_version tenant agent u db' ≡ (
            if u == v
            then Option.map (set_status disabled) (find_version tenant agent u db)
            else find_version tenant agent u db))
  unfolding halt ensure_not_terminated get_version
  halt-disables v db u h = elim (Option-cases (find_version tenant agent v db)) [
    | inl n ↦ ground arith
    | inr (r, e) ↦ ground (arith, find_version-set_status u v disabled db)
  ]
