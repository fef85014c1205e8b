-- ===== src/Release/Versions/Isolation.antt =====
-- The version operations as one type of calls, and what none of them touches: the versions of other
-- agents and tenants (app/release/service.py).
use mathlib.Core.List.{append-nil}
use new_rag.Release.Versions.Rollback.{rollback-ok, rollback-err}
use new_rag.Base.{
  Result-cases, All-All, ◌<◌, All-mono, ℕ, ◌≡◌, refl, Bool, true, false, Option, none, some, List,
  [], ◌∷◌, ◌++◌, arith, ◌==◌, if◌then◌else◌, Ident, Option-cases, inl, inr, All, ℤ, ◌∙◌,
}
use new_rag.Base.Table.{
  All-select, select-one, select, update, first, select-update_other, select-append,
  first-select-hit,
}
use new_rag.Base.Keys.{Distinct-snoc, Distinct-select-update, Distinct, first-select-key}
use new_rag.Release.Model.{Status, Config, active, disabled, VersionRow, Db}
use new_rag.Release.Flow.{version_of, ensure_not_terminated}
use new_rag.Release.Contract.{Env, at_version, find_version, get_version}
use new_rag.Release.Versions.{
  set_status, set_gray, other_active, activate, current_live, switch_to, rollback, halt, publish,
  gray_release, create_version, new_version, magnitude,
}
use new_rag.Release.Versions.Publish.{publish-err, publish-ok}
use new_rag.Release.Versions.Numbers.{create_version-err, create_version-appends}

pub data Call : Type 0 where
  create : Ident → Ident → Ident → Option Ident → Option Config → Ident → ℕ → Call
  publish_version : Env → ℕ → Bool → Bool → Call
  gray_version : ℕ → ℤ → Call
  roll_back : Option ℕ → Call
  halt_version : ℕ → Call

-- The state after a call, whether it succeeds or raises.
unfoldable pub apply : Ident → Ident → Call → Db → Db
apply tenant agent (create id order prompt model config by now) db =
    (create_version tenant agent id order prompt model config by now db).1
apply tenant agent (publish_version env v enforce force) db =
    (publish tenant agent env v enforce force db).1
apply tenant agent (gray_version v p) db = (gray_release tenant agent v p db).1
apply tenant agent (roll_back to) db = (rollback tenant agent to db).1
apply tenant agent (halt_version v) db = (halt tenant agent v db).1

-- What a write leaves of a row.
abbrev pub Keeps : VersionRow → VersionRow → Type 0
Keeps x y = (y.tenant ≡ x.tenant) × (y.agent ≡ x.agent) × (y.version ≡ x.version)

-- The writes of version operations: to rows of the agent, which stay its rows under their numbers,
-- and a new row of the agent with a number above all others.
pub data Written (tenant agent : Ident) (rows : List VersionRow) : List VersionRow → Type 0 where
  same : Written tenant agent rows rows
  write :
      {mid out : List VersionRow} (p : VersionRow → Bool) (f : VersionRow → VersionRow)
      → out ≡ update p f mid
      → All (λ x. p x ≡ true → version_of tenant agent x ≡ true) mid
      → ((x : VersionRow) → Keeps x (f x))
      → Written tenant agent rows mid
      → Written tenant agent rows out
  added :
      {mid out : List VersionRow} (row : VersionRow)
      → out ≡ mid ++ row ∷ []
      → version_of tenant agent row ≡ true
      → All (λ r. version_of tenant agent r ≡ true → r.version < row.version) mid
      → Written tenant agent rows mid
      → Written tenant agent rows out

-- The versions of another agent, or of another tenant, are what they were.
Written-other :
    {tenant agent : Ident} {rows out : List VersionRow} (tenant' agent' : Ident)
    → ¬ ((tenant' ≡ tenant) × (agent' ≡ agent))
    → Written tenant agent rows out
    → select (version_of tenant' agent') out ≡ select (version_of tenant' agent') rows
Written-other t' a' n same = refl
Written-other {tenant} {agent} t' a' n (write {mid} p f e own keeps w) = rw e (
    select-update_other p (version_of t' a') f mid (
      All-mono {P = λ x. p x ≡ true → version_of tenant agent x ≡ true}
        (λ x h k. ground (arith, h k, keeps x, n)) mid own)
    ∙ Written-other t' a' n w)
Written-other {tenant} {agent} t' a' n (added {mid} row e own above w) =
    rw (e, select-append, select-one)
      (let miss : version_of t' a' row ≡ false = ground arith in
        rw (miss, if◌then◌else◌, append-nil) (Written-other t' a' n w))

-- The numbers of the agent's versions stay distinct.
Written-Distinct :
    {tenant agent : Ident} {rows out : List VersionRow}
    → Written tenant agent rows out
    → Distinct (λ r. r.version) (select (version_of tenant agent) rows)
    → Distinct (λ r. r.version) (select (version_of tenant agent) out)
Written-Distinct same d = d
Written-Distinct {tenant} {agent} (write {mid} p f e own keeps w) d = rw e (
    Distinct-select-update (λ r. r.version) p (version_of tenant agent) f
      (λ x. ground (arith, keeps x)) mid (Written-Distinct w d))
Written-Distinct {tenant} {agent} (added {mid} row e own above w) d =
    rw (e, select-append, select-one, own, if◌then◌else◌)
      (Distinct-snoc (λ r. r.version) (select (version_of tenant agent) mid) row
        (Written-Distinct w d)
        (All-select (λ r. r.version < row.version) (version_of tenant agent) mid above))

module _ (tenant agent : Ident) where
  status_write :
      {rows mid : List VersionRow} (v : ℕ) (s : Status)
      → Written tenant agent rows mid
      → Written tenant agent rows (update (at_version tenant agent v) (set_status s) mid)
  status_write {mid = mid} v s w =
      write (at_version tenant agent v) (set_status s) refl (All-All (λ x h. ground arith) mid)
        (λ x. (refl, refl, refl)) w

  activate-Written :
      (v : ℕ) (db : Db) → Written tenant agent db.versions (activate tenant agent v db).versions
  unfolding activate
  activate-Written v db = status_write v active (
      write (other_active tenant agent v) (set_status disabled) refl
        (All-All (λ x h. ground arith) db.versions) (λ x. (refl, refl, refl)) same)

  switch_to-Written :
      (current : Option VersionRow) (w : ℕ) (db : Db)
      → Written tenant agent db.versions (switch_to tenant agent current w db).versions
  unfolding switch_to
  switch_to-Written none w db = status_write w active same
  switch_to-Written (some c) w db = status_write w active (status_write c.version disabled same)

  gray-Written :
      (v : ℕ) (p : ℤ) (db : Db)
      → Distinct (λ r. r.id) db.versions
      → Written tenant agent db.versions (gray_release tenant agent v p db).1.versions
  unfolding gray_release ensure_not_terminated get_version find_version
  gray-Written v p db d = elim (Result-cases (gray_release tenant agent v p db).0) [
    | inr (c, e) ↦
        let kept : (gray_release tenant agent v p db).1 ≡ db = ground arith in rw kept same
    | inl (a, e) ↦ elim (Option-cases (first (select (at_version tenant agent v) db.versions))) [
      | inl n ↦ absurd (ground arith)
      | inr (row, found) ↦
          let done : (gray_release tenant agent v p db).1.versions
              ≡ update (λ r. r.id == row.id) (set_gray (magnitude p)) db.versions =
            ground arith in
          let hit = first-select-hit (at_version tenant agent v) db.versions row found in
          rw done (
            write (λ r. r.id == row.id) (set_gray (magnitude p)) refl
              (All-mono {P = λ x. x.id ≡ row.id → x ≡ row}
                {Q = λ x. (x.id == row.id) ≡ true → version_of tenant agent x ≡ true}
                (λ x key h. ground (arith, key (ground arith))) db.versions
                (first-select-key (λ r. r.id) (at_version tenant agent v) db.versions row d found))
              (λ x. (refl, refl, refl)) same)
    ]
  ]

  halt-Written :
      (v : ℕ) (db : Db) → Written tenant agent db.versions (halt tenant agent v db).1.versions
  unfolding halt ensure_not_terminated get_version
  halt-Written v db = elim (Result-cases (halt tenant agent v db).0) [
    | inr (c, e) ↦ let kept : (halt tenant agent v db).1 ≡ db = ground arith in rw kept same
    | inl (a, e) ↦
        let done : (halt tenant agent v db).1.versions
            ≡ update (at_version tenant agent v) (set_status disabled) db.versions =
          ground arith in
        rw done (status_write v disabled same)
  ]

  -- Every call makes such writes, if the primary keys of the table are distinct.
  apply-Written :
      (c : Call) (db : Db)
      → Distinct (λ r. r.id) db.versions
      → Written tenant agent db.versions (apply tenant agent c db).versions
  unfolding apply
  apply-Written (create id order prompt model config by now) db d =
      elim (Result-cases (create_version tenant agent id order prompt model config by now db).0) [
        | inl (w, e) ↦
            let (done, above) =
              create_version-appends tenant agent id order prompt model config by now db e in
            added (new_version tenant agent w id prompt model config now) done (ground arith) above
              same
        | inr (c, e) ↦
            rw (create_version-err tenant agent id order prompt model config by now db e, apply)
              same
      ]
  apply-Written (publish_version env v enforce force) db d =
      elim (Result-cases (publish tenant agent env v enforce force db).0) [
        | inl (w, e) ↦
            let (row, found, gate, done) = publish-ok tenant agent env v enforce force db e in
            rw (done, apply) (activate-Written v db)
        | inr (c, e) ↦ rw (publish-err tenant agent env v enforce force db e, apply) same
      ]
  apply-Written (gray_version v p) db d = gray-Written v p db d
  apply-Written (roll_back to) db d = elim (Result-cases (rollback tenant agent to db).0) [
    | inl (w, e) ↦
        rw ((rollback-ok tenant agent to db e).1, apply)
          (switch_to-Written (current_live tenant agent db) w db)
    | inr (c, e) ↦ rw (rollback-err tenant agent to db e, apply) same
  ]
  apply-Written (halt_version v) db d = halt-Written v db

  -- No call on an agent, whether it succeeds or raises, touches the versions of another agent or
  -- of another tenant.
  pub apply-isolated :
      (c : Call) (db : Db) (tenant' agent' : Ident)
      → Distinct (λ r. r.id) db.versions
      → ¬ ((tenant' ≡ tenant) × (agent' ≡ agent))
      → select (version_of tenant' agent') (apply tenant agent c db).versions
        ≡ select (version_of tenant' agent') db.versions
  apply-isolated c db t' a' d n = Written-other t' a' n (apply-Written c db d)

  -- No call gives two versions of the agent one number.
  pub apply-Distinct :
      (c : Call) (db : Db)
      → Distinct (λ r. r.id) db.versions
      → Distinct (λ r. r.version) (select (version_of tenant agent) db.versions)
      → Distinct
          (λ r. r.version)
          (select (version_of tenant agent) (apply tenant agent c db).versions)
  apply-Distinct c db d = Written-Distinct (apply-Written c db d)
