-- ===== src/Queue/Shared.antt =====
-- The choice of a job from the shared table (`claim_queued` of app/queue/store.py).
pub mod Best
use new_rag.Base.{
  ℕ, ◌==◌, ◌&&◌, Bool, true, Option, none, some, List, [], ◌∷◌, if◌then◌else◌, Ident, take,
}
use new_rag.Base.Table.{select}
use new_rag.Base.Order.{sort_asc}
use new_rag.Queue.Store.{JobRow, Jobs, waiting, claim}

abbrev pub of_type : Option Ident → JobRow → Bool
of_type none r = true
of_type (some t) r = r.job_type == t

-- A waiting job of the asked type.
abbrev pub is_candidate : Option Ident → JobRow → Bool
is_candidate job_type r = waiting r.state && of_type job_type r

-- The waiting jobs by priority and then by age, at most ten.
unfoldable pub candidates : Option Ident → Jobs → List JobRow
candidates job_type jobs = take 10 (
    sort_asc (λ r. r.priority) (sort_asc (λ r. r.created_at) (select (is_candidate job_type) jobs)))

-- The first of them that can be claimed.
unfoldable pub claim_first : ℕ → ℕ → List JobRow → Jobs → Option Ident × Jobs
claim_first now lease [] jobs = (none, jobs)
claim_first now lease (r ∷ rows) jobs =
    let (won, jobs') = claim now lease r.job_id jobs in
    let rest = claim_first now lease rows jobs' in if won then (some r.job_id, jobs') else rest

unfoldable pub claim_queued : ℕ → ℕ → Option Ident → Jobs → Option Ident × Jobs
claim_queued now lease job_type jobs = claim_first now lease (candidates job_type jobs) jobs
