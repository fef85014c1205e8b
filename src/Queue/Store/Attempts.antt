-- ===== src/Queue/Store/Attempts.antt =====
-- How often a job is started (app/queue/store.py).
use mathlib.Core.Option
use new_rag.Base.{
  ℕ, Bool, true, false, none, some, [], ◌∷◌, ◌++◌, ◌≡◌, refl, arith, ◌+◌, ◌≤◌, ◌<◌, leb,
  if◌then◌else◌, Ident, Bool-cases, Option-cases, inl, inr,
}
use new_rag.Base.Table.{select, first, update}
use new_rag.Queue.Store.{
  new_job, created, queued, succeeded, cancelled, expired, JobRow, Jobs, waiting, is_running,
  is_dead, has_id, get, edit, create, claimed, claim, heartbeat, is_zombie, recover_zombies,
  succeed, after_failure, fail, cancel, is_old, expire_old, requeue,
}
use new_rag.Queue.Store.Lifecycle.{
  get-update, get-has_id, get-append, Op, create_op, claim_op, heartbeat_op, recover_op, succeed_op,
  cancel_op, fail_op, expire_op, requeue_op, apply,
}

-- A job has been started at most as often as it may be, and less often while it waits.
unfoldable pub IsBudgeted : JobRow → Type 0
IsBudgeted r =
    (1 ≤ r.max_attempts)
    × (r.attempts ≤ r.max_attempts)
    × (waiting r.state ≡ true → r.attempts < r.max_attempts)

unfoldable pub AllBudgeted : Jobs → Type 0
AllBudgeted jobs = (j : Ident) (r : JobRow) → get j jobs ≡ some r → IsBudgeted r

-- No recovery of zombies, and new jobs may be started at least once.
abbrev pub is_plain : Op → Bool
is_plain (recover_op _) = false
is_plain (create_op _ _ _ _ _ max _ _) = leb 1 max
is_plain _ = true

get-append_new :
    (j : Ident) (jobs : Jobs) (x : JobRow)
    → get j jobs ≡ none
    → get j (jobs ++ x ∷ []) ≡ (if has_id j x then some x else none)
unfolding get first select
get-append_new j [] x e = ground arith
get-append_new j (y ∷ jobs) x e = ground (arith, get-append_new j jobs x)

-- A write that keeps the budget of the jobs that a look-up finds.
update-AllBudgeted :
    (p : JobRow → Bool) (f : JobRow → JobRow)
    → ((r : JobRow) → (f r).job_id ≡ r.job_id)
    → (jobs : Jobs)
    → ((j : Ident) (r : JobRow)
        → get j jobs ≡ some r
        → p r ≡ true
        → IsBudgeted r
        → IsBudgeted (f r))
    → AllBudgeted jobs
    → AllBudgeted (update p f jobs)
unfolding AllBudgeted
update-AllBudgeted p f same jobs h all j r e = elim (Option-cases (get j jobs)) [
  | inl n ↦ ground (arith, get-update p f same j jobs)
  | inr (x, g) ↦ elim (Bool-cases (p x)) [
    | inl y ↦
        let is : r ≡ f x = ground (arith, get-update p f same j jobs) in
        rw (is) (h j x g y (all j x g))
    | inr y ↦ let is : r ≡ x = ground (arith, get-update p f same j jobs) in rw (is) (all j x g)
  ]
]

-- A write to the job of an id that only needs to be right for that job.
edit-AllBudgeted :
    (k : Ident) (f : JobRow → JobRow)
    → ((r : JobRow) → (f r).job_id ≡ r.job_id)
    → (jobs : Jobs) (x : JobRow) → get k jobs ≡ some x
    → (IsBudgeted x → IsBudgeted (f x))
    → AllBudgeted jobs
    → AllBudgeted (edit k f jobs)
edit-AllBudgeted k f same jobs x g h all =
    update-AllBudgeted (has_id k) f same jobs
      (λ j r e y b.
        let id = get-has_id j jobs r e in
        let same_id : j ≡ k = ground arith in
        let e' : get k jobs ≡ some r = rw (same_id) at e in
        let is : r ≡ x = ground arith in rw (is) (h (rw (is) at b)))
      all

-- Every call but the recovery of zombies keeps that all jobs are started at most as often as they
-- may be, when a new job may be started at least once.
pub apply-AllBudgeted :
    (op : Op) (jobs : Jobs) → is_plain op ≡ true → AllBudgeted jobs → AllBudgeted (apply op jobs)
unfolding AllBudgeted IsBudgeted apply create claim heartbeat succeed cancel fail expire_old requeue
apply-AllBudgeted (create_op k tenant kind payload priority max key now) jobs p all = λ j r e.
    elim (Option-cases (get j jobs)) [
      | inl z ↦
          let is : r ≡ new_job k tenant kind payload priority max key now =
            ground (
              arith,
              get-append_new j jobs (new_job k tenant kind payload priority max key now) z,
            ) in
          rw (is) (ground arith, omega arith, λ v. ground arith)
      | inr (x, g) ↦
          let is : r ≡ x = ground (
            arith,
            get-append j jobs (new_job k tenant kind payload priority max key now ∷ []) x g,
          ) in
          rw (is) (all j x g)
    ]
apply-AllBudgeted (claim_op now lease k) jobs p all = elim (Option-cases (get k jobs)) [
  | inl z ↦ rw (z, apply, claim) all
  | inr (x, g) ↦ elim (Bool-cases (waiting x.state)) [
    | inl w ↦
        rw (g, w, apply, claim, if◌then◌else◌)
          (edit-AllBudgeted k (claimed now lease) (λ r. refl) jobs x g
            (λ b. (ground arith, ground arith, λ v. ground arith)) all)
    | inr w ↦ rw (g, w, apply, claim, if◌then◌else◌) all
  ]
]
apply-AllBudgeted (heartbeat_op now lease k) jobs p all = elim (Option-cases (get k jobs)) [
  | inl z ↦ rw (z, apply, heartbeat) all
  | inr (x, g) ↦ elim (Bool-cases (is_running x.state)) [
    | inl w ↦
        rw (g, w, apply, heartbeat, if◌then◌else◌)
          (edit-AllBudgeted k (λ r. record r { lease_until = some (now + lease) }) (λ r. refl) jobs
            x g (λ b. (ground arith, ground arith, λ v. ground arith)) all)
    | inr w ↦ rw (g, w, apply, heartbeat, if◌then◌else◌) all
  ]
]
apply-AllBudgeted (recover_op now) jobs p all = absurd (ground arith)
apply-AllBudgeted (succeed_op now k) jobs p all =
    update-AllBudgeted (has_id k) (λ r. record r { state = succeeded; finished_at = some now })
      (λ r. refl) jobs (λ j r e y b. (b.0, b.1, λ v. absurd (ground arith))) all
apply-AllBudgeted (cancel_op now k) jobs p all = elim (Option-cases (get k jobs)) [
  | inl z ↦ rw (z, apply, cancel) all
  | inr (x, g) ↦ elim (Bool-cases (waiting x.state)) [
    | inl w ↦
        rw (g, w, apply, cancel, if◌then◌else◌)
          (edit-AllBudgeted k (λ r. record r { state = cancelled; finished_at = some now })
            (λ r. refl) jobs x g (λ b. (b.0, b.1, λ v. absurd (ground arith))) all)
    | inr w ↦ rw (g, w, apply, cancel, if◌then◌else◌) all
  ]
]
apply-AllBudgeted (fail_op now k e) jobs p all = elim (Option-cases (get k jobs)) [
  | inl z ↦ rw (z, apply, fail) all
  | inr (x, g) ↦
      rw (g, apply, fail)
        (edit-AllBudgeted k (after_failure now e) (λ r. ground arith) jobs x g
          (λ b. (ground arith, ground arith, λ v. ground arith)) all)
]
apply-AllBudgeted (expire_op now ttl) jobs p all =
    update-AllBudgeted (is_old now ttl) (λ r. record r { state = expired }) (λ r. refl) jobs
      (λ j r e y b. (b.0, b.1, λ v. absurd (ground arith))) all
apply-AllBudgeted (requeue_op k) jobs p all = elim (Option-cases (get k jobs)) [
  | inl z ↦ rw (z, apply, requeue) all
  | inr (x, g) ↦ elim (Bool-cases (is_dead x.state)) [
    | inl w ↦
        rw (g, w, apply, requeue, if◌then◌else◌)
          (edit-AllBudgeted k
            (λ r. record r { state = created; attempts = 0; error = none; lease_until = none })
            (λ r. refl) jobs x g (λ b. (b.0, omega arith, λ v. b.0)) all)
    | inr w ↦ rw (g, w, apply, requeue, if◌then◌else◌) all
  ]
]

-- A running job whose lease is over is started again whatever its attempts: one that has been
-- started as often as it may be is then started once more.
pub recover-claim :
    (now later lease : ℕ) (j : Ident) (jobs : Jobs) (r : JobRow)
    → get j jobs ≡ some r
    → is_zombie now r ≡ true
    → let jobs' = (recover_zombies now jobs).1 in
      ((claim later lease j jobs').0 ≡ true)
      × (Option.map (λ r. r.attempts) (get j (claim later lease j jobs').1) ≡ some (r.attempts + 1))
unfolding recover_zombies claim
recover-claim now later lease j jobs r g z =
    let back : JobRow → JobRow = λ r. record r { state = queued } in
    let jobs' = update (is_zombie now) back jobs in
    let waits = get-update (is_zombie now) back (λ r. refl) j jobs in
    let after = get-update (has_id j) (claimed later lease) (λ r. refl) j jobs' in
    ground (arith, get-has_id j jobs r g)

-- A job that is recovered from a slow worker and then cancelled waits again after that worker's
-- late report of a failure, if it may be started again.
pub cancel-fail :
    (now later : ℕ) (j e : Ident) (jobs : Jobs) (r : JobRow)
    → get j jobs ≡ some r
    → is_zombie now r ≡ true
    → r.attempts < r.max_attempts
    → let jobs' = (recover_zombies now jobs).1 in
      let (answer, jobs'') = cancel now j jobs' in
      (answer ≡ some cancelled)
      × ((fail later j e jobs'').0 ≡ queued)
      × (Option.map (λ r. r.state) (get j (fail later j e jobs'').1) ≡ some queued)
unfolding recover_zombies cancel fail
cancel-fail now later j e jobs r g z lt =
    let back : JobRow → JobRow = λ r. record r { state = queued } in
    let jobs' = update (is_zombie now) back jobs in
    let off : JobRow → JobRow = λ r. record r { state = cancelled; finished_at = some now } in
    let jobs'' = edit j off jobs' in
    let waits = get-update (is_zombie now) back (λ r. refl) j jobs in
    let ends = get-update (has_id j) off (λ r. refl) j jobs' in
    let after = get-update (has_id j) (after_failure later e) (λ r. ground arith) j jobs'' in
    ground (arith, get-has_id j jobs r g)
