-- ===== src/Queue/Store/Lifecycle.antt =====
-- The state machine of a job (app/queue/store.py).
use mathlib.Core.Option
use new_rag.Base.{
  ap, ◌⊎◌, ℕ, Bool, true, false, Option, none, some, [], ◌∷◌, ◌++◌, ◌≡◌, refl, arith, ◌+◌, ◌==◌,
  if◌then◌else◌, Ident, Bool-cases, Option-cases, inl, inr,
}
use new_rag.Base.Table.{select, first, update, first-select-update_kept, first-select-hit}
use new_rag.Queue.Store.{
  JobState, created, queued, succeeded, cancelled, expired, JobRow, Jobs, has_id, get, edit, create,
  claimed, claim, heartbeat, is_zombie, recover_zombies, succeed, after_failure, fail, cancel,
  is_old, expire_old, requeue,
}

-- A write to the rows of a filter that keeps ids, as a look-up sees it.
pub get-update :
    (p : JobRow → Bool) (f : JobRow → JobRow)
    → ((r : JobRow) → (f r).job_id ≡ r.job_id)
    → (j : Ident) (jobs : Jobs)
    → get j (update p f jobs) ≡ Option.map (λ r. if p r then f r else r) (get j jobs)
unfolding get
get-update p f same j jobs =
    first-select-update_kept p (has_id j) f (λ r. ground (arith, same r)) jobs

pub get-has_id : (j : Ident) (jobs : Jobs) (r : JobRow) → get j jobs ≡ some r → has_id j r ≡ true
unfolding get
get-has_id j jobs r e = first-select-hit (has_id j) jobs r e

-- A job that is claimed runs, with one attempt more, and cannot be claimed again.
pub claim-exclusive :
    (now later lease : ℕ) (j : Ident) (jobs : Jobs)
    → (claim now lease j jobs).0 ≡ true
    → let jobs' = (claim now lease j jobs).1 in
      (get j jobs' ≡ Option.map (claimed now lease) (get j jobs))
      × (claim later lease j jobs' ≡ (false, jobs'))
unfolding claim
claim-exclusive now later lease j jobs e = elim (Option-cases (get j jobs)) [
  | inl n ↦ ground arith
  | inr (r, g) ↦
      ground
        (arith, get-update (has_id j) (claimed now lease) (λ r. refl) j jobs, get-has_id j jobs r g)
]

-- A claim that fails changes nothing.
pub claim-refused :
    (now lease : ℕ) (j : Ident) (jobs : Jobs)
    → (claim now lease j jobs).0 ≡ false
    → (claim now lease j jobs).1 ≡ jobs
unfolding claim
claim-refused now lease j jobs e = elim (Option-cases (get j jobs)) [
  | inl n ↦ ground arith
  | inr (r, g) ↦ ground arith
]

pub get-append :
    (j : Ident) (jobs more : Jobs) (r : JobRow)
    → get j jobs ≡ some r
    → get j (jobs ++ more) ≡ some r
unfolding get first select
get-append j [] more r e = ground arith
get-append j (x ∷ jobs) more r e = ground (arith, get-append j jobs more r)

-- The calls that change jobs, with the times and ids that they read from outside.
pub data Op : Type 0 where
  create_op : Ident → Ident → Ident → Ident → ℕ → ℕ → Option Ident → ℕ → Op
  claim_op heartbeat_op : ℕ → ℕ → Ident → Op
  recover_op : ℕ → Op
  succeed_op cancel_op : ℕ → Ident → Op
  fail_op : ℕ → Ident → Ident → Op
  expire_op : ℕ → ℕ → Op
  requeue_op : Ident → Op

unfoldable pub apply : Op → Jobs → Jobs
apply (create_op j tenant kind payload priority max key now) jobs =
    create j tenant kind payload priority max key now jobs
apply (claim_op now lease j) jobs = (claim now lease j jobs).1
apply (heartbeat_op now lease j) jobs = heartbeat now lease j jobs
apply (recover_op now) jobs = (recover_zombies now jobs).1
apply (succeed_op now j) jobs = succeed now j jobs
apply (cancel_op now j) jobs = (cancel now j jobs).1
apply (fail_op now j e) jobs = (fail now j e jobs).1
apply (expire_op now ttl) jobs = (expire_old now ttl jobs).1
apply (requeue_op j) jobs = (requeue j jobs).1

-- The report of a worker on a job.
abbrev pub reports_on : Ident → Op → Bool
reports_on j (succeed_op _ k) = k == j
reports_on j (fail_op _ k _) = k == j
reports_on j _ = false

abbrev pub is_final : JobState → Bool
is_final succeeded = true
is_final cancelled = true
is_final expired = true
is_final _ = false

-- A write to another job.
pub get-edit_other :
    (k j : Ident) (f : JobRow → JobRow)
    → ((r : JobRow) → (f r).job_id ≡ r.job_id)
    → (jobs : Jobs) (r : JobRow) → get j jobs ≡ some r
    → (k == j) ≡ false
    → get j (edit k f jobs) ≡ some r
get-edit_other k j f same jobs r g n =
    ground (arith, get-update (has_id k) f same j jobs, get-has_id j jobs r g)

-- The job of another id, or the same job.
same-get : (k j : Ident) (jobs : Jobs) → ((k == j) ≡ false) ⊎ (get k jobs ≡ get j jobs)
same-get k j jobs = elim (Bool-cases (k == j)) [
  | inl e ↦ inr (ap (λ i. get i jobs) (ground arith))
  | inr e ↦ inl e
]

-- A job that has succeeded, or was cancelled, or is expired, is changed by no call but a worker's
-- report on it.
pub apply-final :
    (op : Op) (j : Ident) (jobs : Jobs) (r : JobRow)
    → get j jobs ≡ some r
    → is_final r.state ≡ true
    → reports_on j op ≡ false
    → get j (apply op jobs) ≡ some r
unfolding apply create claim heartbeat recover_zombies succeed cancel fail expire_old requeue
apply-final (create_op k tenant kind payload priority max key now) j jobs r g f n =
    get-append j jobs _ r g
apply-final (claim_op now lease k) j jobs r g f n = elim (same-get k j jobs) [
  | inl m ↦ elim (Option-cases (get k jobs)) [
    | inl z ↦ ground arith
    | inr (x, h) ↦ ground (arith, get-edit_other k j (claimed now lease) (λ r. refl) jobs r g m)
  ]
  | inr m ↦ ground arith
]
apply-final (heartbeat_op now lease k) j jobs r g f n = elim (same-get k j jobs) [
  | inl m ↦ elim (Option-cases (get k jobs)) [
    | inl z ↦ ground arith
    | inr (x, h) ↦ ground (
      arith,
      get-edit_other k j (λ r. record r { lease_until = some (now + lease) }) (λ r. refl) jobs r g
          m,
    )
  ]
  | inr m ↦ ground arith
]
apply-final (recover_op now) j jobs r g f n =
    ground (arith, get-update (is_zombie now) (λ r. record r { state = queued }) (λ r. refl) j jobs)
apply-final (succeed_op now k) j jobs r g f n =
    get-edit_other k j (λ r. record r { state = succeeded; finished_at = some now }) (λ r. refl)
      jobs r g n
apply-final (cancel_op now k) j jobs r g f n = elim (same-get k j jobs) [
  | inl m ↦ elim (Option-cases (get k jobs)) [
    | inl z ↦ ground arith
    | inr (x, h) ↦ ground (
      arith,
      get-edit_other k j (λ r. record r { state = cancelled; finished_at = some now }) (λ r. refl)
          jobs r g m,
    )
  ]
  | inr m ↦ ground arith
]
apply-final (fail_op now k e) j jobs r g f n = elim (Option-cases (get k jobs)) [
  | inl z ↦ ground arith
  | inr (x, h) ↦
      ground (arith, get-edit_other k j (after_failure now e) (λ r. ground arith) jobs r g n)
]
apply-final (expire_op now ttl) j jobs r g f n =
    ground
      (arith, get-update (is_old now ttl) (λ r. record r { state = expired }) (λ r. refl) j jobs)
apply-final (requeue_op k) j jobs r g f n = elim (same-get k j jobs) [
  | inl m ↦ elim (Option-cases (get k jobs)) [
    | inl z ↦ ground arith
    | inr (x, h) ↦ ground (
      arith,
      get-edit_other k j
          (λ r. record r { state = created; attempts = 0; error = none; lease_until = none })
          (λ r. refl) jobs r g m,
    )
  ]
  | inr m ↦ ground arith
]
