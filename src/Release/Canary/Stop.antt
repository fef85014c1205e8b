-- ===== src/Release/Canary/Stop.antt =====
-- What the canary check does to the version that it watches (app/release/service.py).
use mathlib.Core.Option
use new_rag.Base.{
  ◌⊎◌, Result-cases, ℕ, ◌≤◌, ◌<◌, ◌≡◌, refl, Bool, true, false, ◌&&◌, Option, none, some, arith,
  ltb, leb, if◌then◌else◌, Ident, ok, All, All-mono, Option-cases, inl, inr,
}
use new_rag.Base.Table.{All-update, select, latest-All, All-select}
use new_rag.Release.Model.{disabled, VersionRow, Db, is_active}
use new_rag.Release.Flow.{version_of, ensure_not_terminated}
use new_rag.Release.Contract.{find_version, get_version, at_version}
use new_rag.Release.Versions.{
  set_status, write_versions, halt, rollback, rollback_target, current_live,
}
use new_rag.Release.Versions.Rollback.{
  halt-disables, rollback-ok, rollback-err, find_version-switch_to,
}
use new_rag.Release.Canary.{
  Thresholds, continue, gray_runs, metrics_of, degraded, previous_active, roll_back_to,
  canary_check,
}

module _ (kb_search tenant agent : Ident) where
  -- Whether the metrics of the gray runs of a version ask for a stop.
  abbrev pub asks_stop : Thresholds → ℕ → Db → Bool
  asks_stop t v db =
      let m =
        metrics_of kb_search tenant agent (gray_runs kb_search tenant agent v db) db.tool_calls
          db.events in
      leb t.min_runs m.runs && degraded kb_search tenant agent t m

  -- Where the metrics do not ask for a stop, the answer is "continue" and nothing is changed.
  pub canary_check-continue :
      (t : Thresholds) (v : ℕ) (db : Db)
      → asks_stop t v db ≡ false
      → canary_check kb_search tenant agent t v db ≡ (ok continue, db)
  unfolding canary_check
  canary_check-continue t v db h = ground arith

  -- The rollback goes to a version below the one that was halted.
  previous_active-lt :
      (v : ℕ) (db : Db) {r : VersionRow}
      → All (λ r. 1 ≤ r.version) db.versions
      → previous_active kb_search tenant agent v db ≡ some r
      → (1 ≤ r.version) × (r.version < v)
  unfolding previous_active
  previous_active-lt v db {r} all e =
      let p : VersionRow → Bool =
        λ r. version_of tenant agent r && is_active r.status && ltb r.version v in
      latest-All (λ r. (1 ≤ r.version) × (r.version < v)) (λ r. r.version) (select p db.versions)
        (All-select (λ r. (1 ≤ r.version) × (r.version < v)) p db.versions
          (All-mono (λ r k c. ground arith) db.versions all))
        e

  -- The rollback of a canary check, to no version or to a lower one, leaves a version disabled.
  roll_back_to-disabled :
      (v : ℕ) (prev : Option VersionRow) (db : Db)
      → Option.map (λ r. r.status) (find_version tenant agent v db) ≡ some disabled
      → ((r : VersionRow) → prev ≡ some r → (1 ≤ r.version) × (r.version < v))
      → Option.map
          (λ r. r.status)
          (find_version tenant agent v (roll_back_to kb_search tenant agent prev db).1)
        ≡ some disabled
  unfolding roll_back_to rollback_target
  roll_back_to-disabled v none db h l = h
  roll_back_to-disabled v (some r) db h l =
      elim (Result-cases (rollback tenant agent (some r.version) db).0) [
        | inr (c, e) ↦ ground (arith, rollback-err tenant agent (some r.version) db e)
        | inl (w, e) ↦
            let (asked, done, found) = rollback-ok tenant agent (some r.version) db e in
            let (some_version, below) = l r refl in
            let target : w ≡ r.version = ground arith in
            elim (Option-cases (find_version tenant agent v db)) [
              | inl n ↦ ground arith
              | inr (x, f) ↦
                  ground (
                    arith,
                    find_version-switch_to tenant agent v (current_live tenant agent db) w db,
                  )
            ]
      ]

  halt-outcome :
      (v : ℕ) (db : Db)
      → let db' = (halt tenant agent v db).1 in
        (db' ≡ db) ⊎ (db' ≡ write_versions (at_version tenant agent v) (set_status disabled) db)
  unfolding halt ensure_not_terminated get_version
  halt-outcome v db = elim (Option-cases (find_version tenant agent v db)) [
    | inl n ↦ ground arith
    | inr (r, e) ↦ ground arith
  ]

  halt-All :
      (v : ℕ) (db : Db)
      → All (λ r. 1 ≤ r.version) db.versions
      → All (λ r. 1 ≤ r.version) (halt tenant agent v db).1.versions
  halt-All v db all = elim (halt-outcome v db) [
    | inl e ↦ rw (e) all
    | inr e ↦ rw (e) (
        All-update (λ r. 1 ≤ r.version) (at_version tenant agent v) (set_status disabled)
          (λ r k c. k) db.versions all)
  ]

  -- Where the metrics of a version's gray runs ask for a stop, the halt succeeds and all versions are
  -- at least 1, the version is DISABLED after the check, whether the traffic goes back to a lower
  -- version or the rollback raises.
  pub canary_check-stop :
      (t : Thresholds) (v : ℕ) (db : Db) {w : ℕ}
      → asks_stop t v db ≡ true
      → (halt tenant agent v db).0 ≡ ok w
      → All (λ r. 1 ≤ r.version) db.versions
      → Option.map
          (λ r. r.status)
          (find_version tenant agent v (canary_check kb_search tenant agent t v db).1)
        ≡ some disabled
  unfolding canary_check
  canary_check-stop t v db {w} h e all =
      let db' = (halt tenant agent v db).1 in
      let prev : Option VersionRow =
        if t.auto_rollback then previous_active kb_search tenant agent v db' else none in
      let (found, other) = halt-disables tenant agent v db v e in
      let off : Option.map (λ r. r.status) (find_version tenant agent v db') ≡ some disabled =
        elim (Option-cases (find_version tenant agent v db)) [
          | inl n ↦ ground arith
          | inr (r, g) ↦ ground arith
        ] in
      let lower : (r : VersionRow) → prev ≡ some r → (1 ≤ r.version) × (r.version < v) =
        λ r k. ground (arith, previous_active-lt v db' {r = r} (halt-All v db all)) in
      let last = roll_back_to-disabled v prev db' off lower in ground arith
