-- ===== src/Queue/Tests.antt =====
-- The theorems on the job queue at concrete inputs.
use mathlib.Core.Option.{none}
use mathlib.Core.Option
use new_rag.Base.{List, ◌⊎◌, ℕ, ◌≡◌, refl, arith, some, true, [], ◌∷◌, ok, All, Ident}
use new_rag.Base.Table.{select, first}
use new_rag.Queue.Store.{
  running, cancelled, JobRow, Jobs, new_job, get, find_active, claimed, claim, recover_zombies,
}
use new_rag.Queue.Store.Lifecycle.{claim_op, apply}
use new_rag.Queue.Store.Attempts.{IsBudgeted, AllBudgeted, apply-AllBudgeted}
use new_rag.Queue.Heap.{Item, JobQueue, Request, push, push_job, admission_allowed, enqueue, next}
use new_rag.Queue.Shared.{is_candidate, claim_queued}
use new_rag.Queue.Shared.Best.{not_after, claim_queued-best}
use new_rag.Queue.Heap.Pop.{HeapCall, pushes, heap_after, NotAfter, next-least}

abbrev waiting_job : Ident → JobRow
waiting_job j = new_job j 1 2 3 1 3 (some 9) 100

abbrev slow_job : JobRow
slow_job = record (waiting_job 5) { state = running; attempts = 2; lease_until = some 130 }

abbrev ended_job : JobRow
ended_job = record (waiting_job 6) { state = cancelled; finished_at = some 120 }

abbrev jobs : Jobs
jobs = waiting_job 4 ∷ slow_job ∷ ended_job ∷ []

claims : (claim 110 30 4 jobs).0 ≡ true
unfolding claim get first select
claims = refl

finds_ended : get 6 jobs ≡ some ended_job
unfolding get first select
finds_ended = refl

finds_slow : get 5 jobs ≡ some slow_job
unfolding get first select
finds_slow = refl

one-AllBudgeted : AllBudgeted (waiting_job 4 ∷ [])
unfolding AllBudgeted IsBudgeted get first select
one-AllBudgeted j r e = (ground arith, ground arith, λ w. ground arith)

apply-AllBudgeted_example : AllBudgeted (apply (claim_op 110 30 4) (waiting_job 4 ∷ []))
apply-AllBudgeted_example =
    apply-AllBudgeted (claim_op 110 30 4) (waiting_job 4 ∷ []) refl one-AllBudgeted

abbrev recovered : Jobs
recovered = (recover_zombies 200 jobs).1

abbrev request : Request
request = record {
  tenant = 1;
  job_type = 2;
  payload = 3;
  priority = 0;
  max_attempts = 3;
  dedupe_key = some 12;
}

abbrev item : Ident → ℕ → Item
item j seq = record { job_type = 2; priority = 1; seq = seq; job_id = j }

abbrev queue : JobQueue
queue = record {
  jobs = jobs;
  heap = item 5 0 ∷ item 4 1 ∷ [];
  types = 2 ∷ [];
  seq = 2;
  capacity = 4;
  lease = 30;
}

enqueues : (enqueue request 20 150 queue).0 ≡ ok 20
unfolding enqueue admission_allowed find_active first select
enqueues = refl

admits_again : admission_allowed 0 (enqueue request 20 150 queue).1 ≡ true
unfolding enqueue admission_allowed find_active first select push_job push
admits_again = refl

abbrev pushed : List HeapCall
pushed = pushes (item 4 1) ∷ pushes (item 5 0) ∷ []

pops : (next 150 30 2 (heap_after pushed) jobs).0 ≡ some (item 4 1)
unfolding next claim get first select heap_after push
pops = refl

next-least_example :
    ((item 4 1).job_type ≡ 2)
    × All (λ y. y.job_type ≡ 2 → NotAfter (item 4 1) y) (next 150 30 2 (heap_after pushed) jobs).1
    × (get 4 (next 150 30 2 (heap_after pushed) jobs).2 ≡ Option.map (claimed 150 30) (get 4 jobs))
next-least_example = next-least pushed 150 30 2 jobs pops

claim_queued-best_example :
    ((claim_queued 110 30 (some 2) jobs ≡ (none, jobs))
      × All (λ r. is_candidate (some 2) r ≡ true → ⊥) jobs)
    ⊎ ((x : JobRow) × ((claim_queued 110 30 (some 2) jobs).0 ≡ some x.job_id)
        × (is_candidate (some 2) x ≡ true)
        × All (λ r. is_candidate (some 2) r ≡ true → not_after x r ≡ true) jobs
        × (get x.job_id (claim_queued 110 30 (some 2) jobs).1 ≡ some (claimed 110 30 x)))
claim_queued-best_example = claim_queued-best 110 30 (some 2) jobs (
  (λ e. absurd (omega (arith, e)), (λ e. absurd (omega (arith, e)), tt)),
  ((λ e. absurd (omega (arith, e)), tt), (tt, tt)),
)
