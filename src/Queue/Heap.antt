-- ===== src/Queue/Heap.antt =====
-- `JobQueue` (app/queue/queue.py) over `JobStore`: one process, its heaps and its admission. The
-- heaps of the job types are one list in the order of (priority, seq), in which a type's heap is the
-- items of the type: heapq pops the least, and no two items have one seq. Workers, heartbeats and
-- `drain` are timers over these operations.
pub mod Admission
pub mod Pop
use new_rag.Base.{
  ℕ, Bool, true, false, Option, none, some, List, [], ◌∷◌, ltb, leb, ◌==◌, ◌+◌, ◌*◌, ◌&&◌, not,
  if◌then◌else◌, Ident, length, queue_full, Action, ok, err,
}
use new_rag.Base.Table.{select}
use new_rag.Queue.Store.{
  JobState, created, queued, cancelled, Jobs, get, find_active, create, claim, recover_zombies,
  succeed, fail, cancel, expire_old, requeue,
}

pub record Item : Type 0 where
  pub job_type : Ident
  pub priority : ℕ
  pub seq : ℕ
  pub job_id : Ident

pub record JobQueue : Type 0 where
  pub jobs : Jobs
  pub heap : List Item
  pub types : List Ident
  pub seq : ℕ
  pub capacity : ℕ
  pub lease : ℕ

abbrev pub before : Item → Item → Bool
before x y = if x.priority == y.priority then ltb x.seq y.seq else ltb x.priority y.priority

-- `heapq.heappush`
unfoldable pub push : Item → List Item → List Item
push x [] = x ∷ []
push x (y ∷ ys) = let rest = push x ys in if before x y then x ∷ y ∷ ys else y ∷ rest

abbrev pub add_type : Ident → List Ident → List Ident
add_type t [] = t ∷ []
add_type t (u ∷ us) = if u == t then u ∷ us else u ∷ add_type t us

-- `heappush(self._heaps.setdefault(type, []), (priority, self._seq, job_id))` and `self._seq += 1`.
unfoldable pub push_job : Ident → ℕ → Ident → JobQueue → JobQueue
unfolding push
push_job t p j q = record q {
  heap = push (record { job_type = t; priority = p; seq = q.seq; job_id = j }) q.heap;
  types = add_type t q.types;
  seq = q.seq + 1;
}

abbrev pub pending : JobQueue → ℕ
pending q = length q.heap

-- `watermark() < percent / 100`
abbrev pub below : ℕ → JobQueue → Bool
below percent q = if q.capacity == 0 then true else ltb (pending q * 100) (percent * q.capacity)

unfoldable pub admission_allowed : ℕ → JobQueue → Bool
admission_allowed p q =
    if below 70 q
    then true
    else if below 85 q
    then leb p 1
    else if below 95 q
    then p == 0
    else false

-- `watermark() > 0.85`
unfoldable pub is_backpressured : JobQueue → Bool
is_backpressured q = if q.capacity == 0 then false else ltb (85 * q.capacity) (pending q * 100)

-- A call of `enqueue`; `fresh` is the id that a new job is given.
pub record Request : Type 0 where
  pub tenant : Ident
  pub job_type : Ident
  pub payload : Ident
  pub priority : ℕ
  pub max_attempts : ℕ
  pub dedupe_key : Option Ident

abbrev pub find_duplicate : Request → Jobs → Option Ident
find_duplicate r jobs = elim r.dedupe_key [
  | none ↦ none
  | some k ↦ find_active r.tenant r.job_type k jobs
]

abbrev pub create_job : Request → Ident → ℕ → Jobs → Jobs
create_job r fresh now jobs =
    create fresh r.tenant r.job_type r.payload r.priority r.max_attempts r.dedupe_key now jobs

unfoldable pub enqueue : Request → Ident → ℕ → Action JobQueue Ident
enqueue r fresh now q =
    if admission_allowed r.priority q
    then (elim (find_duplicate r q.jobs) [
      | some j ↦ (ok j, q)
      | none ↦ (
        ok fresh,
        push_job r.job_type r.priority fresh (record q { jobs = create_job r fresh now q.jobs }),
      )
    ])
    else (err queue_full, q)

-- The loop of `_next`: items of the type are popped until one can be claimed.
unfoldable pub next : ℕ → ℕ → Ident → List Item → Jobs → Option Item × List Item × Jobs
next now lease t [] jobs = (none, [], jobs)
next now lease t (x ∷ xs) jobs =
    if x.job_type == t
    then (let (claimed, jobs') = claim now lease x.job_id jobs in
        let rest = next now lease t xs jobs' in if claimed then (some x, xs, jobs') else rest)
    else (let (found, xs', jobs') = next now lease t xs jobs in (found, x ∷ xs', jobs'))

abbrev pub next_job : ℕ → Ident → JobQueue → Option Item × JobQueue
next_job now t q =
    let (found, heap, jobs) = next now q.lease t q.heap q.jobs in
    (found, record q { heap = heap; jobs = jobs })

-- The outcome of a job's handler, or the text of its exception.
pub data Outcome : Type 0 where
  done : Outcome
  raised : Ident → Outcome

abbrev pub is_queued : JobState → Bool
is_queued queued = true
is_queued _ = false

-- `_process_job`, the handler being a parameter and a missing handler an exception.
unfoldable pub process_job :
    (Ident → Ident → Outcome) → ℕ → Ident → JobQueue → Option Ident × JobQueue
process_job handler now j q = elim (get j q.jobs) [
  | none ↦ (none, q)
  | some r ↦ (
    some j,
    elim (handler r.job_type r.payload) [
      | done ↦ record q { jobs = succeed now j q.jobs }
      | raised e ↦
          let (state, jobs) = fail now j e q.jobs in
          let q' = record q { jobs = jobs } in
          if is_queued state then push_job r.job_type r.priority j q' else q'
    ],
  )
]

unfoldable pub process :
    (Ident → Ident → Outcome) → ℕ → ℕ → Ident → JobQueue → Option Ident × JobQueue
process handler now later t q =
    let (found, q') = next_job now t q in
    elim found [ none ↦ (none, q') | some x ↦ process_job handler later x.job_id q' ]

-- `[item for item in heap if item[2] != job_id]` in each heap.
abbrev pub drop_job : Ident → List Item → List Item
drop_job j heap = select (λ x. not (x.job_id == j)) heap

abbrev pub is_cancelled : Option JobState → Bool
is_cancelled (some cancelled) = true
is_cancelled _ = false

unfoldable pub cancel_queued : ℕ → Ident → JobQueue → Option JobState × JobQueue
cancel_queued now j q =
    let (state, jobs) = cancel now j q.jobs in
    (
      state,
      record q { jobs = jobs; heap = if is_cancelled state then drop_job j q.heap else q.heap },
    )

-- The items of ids put back one after the other, when their jobs are QUEUED.
unfoldable pub push_queued : List Ident → JobQueue → JobQueue
push_queued [] q = q
push_queued (j ∷ js) q = push_queued js (elim (get j q.jobs) [
  | none ↦ q
  | some r ↦ if is_queued r.state then push_job r.job_type r.priority j q else q
])

unfoldable pub recover : ℕ → JobQueue → ℕ × JobQueue
recover now q =
    let (ids, jobs) = recover_zombies now q.jobs in
    (length ids, push_queued ids (record q { jobs = jobs }))

unfoldable pub drop_jobs : List Ident → List Item → List Item
drop_jobs [] heap = heap
drop_jobs (j ∷ js) heap = drop_jobs js (drop_job j heap)

unfoldable pub expire : ℕ → ℕ → JobQueue → List Ident × JobQueue
expire now ttl q =
    let (ids, jobs) = expire_old now ttl q.jobs in
    (ids, record q { jobs = jobs; heap = drop_jobs ids q.heap })

abbrev pub is_created : Option JobState → Bool
is_created (some created) = true
is_created _ = false

unfoldable pub replay : Ident → JobQueue → (Option JobState × Bool) × JobQueue
replay j q =
    let (answer, jobs) = requeue j q.jobs in
    let q' = record q { jobs = jobs } in
    (
      answer,
      if is_created answer.0 && not answer.1
          then (elim (get j jobs) [ none ↦ q' | some r ↦ push_job r.job_type r.priority j q' ])
          else q',
    )

-- `heap[0][0]` of a type.
abbrev pub top_priority : Ident → List Item → Option ℕ
top_priority t [] = none
top_priority t (x ∷ xs) =
    let rest = top_priority t xs in if x.job_type == t then some x.priority else rest

-- The loop of `process_once(None)`: the first type with the least top priority.
unfoldable pub best_type : List Ident → List Item → Option (Ident × ℕ) → Option (Ident × ℕ)
best_type [] heap best = best
best_type (t ∷ ts) heap best = best_type ts heap (elim (top_priority t heap) [
  | none ↦ best
  | some p ↦ elim best [
    | none ↦ some (t, p)
    | some (u, least) ↦ if ltb p least then some (t, p) else some (u, least)
  ]
])

unfoldable pub process_once :
    (Ident → Ident → Outcome) → ℕ → ℕ → Option Ident → JobQueue → Option Ident × JobQueue
process_once handler now later (some t) q = process handler now later t q
process_once handler now later none q = elim (best_type q.types q.heap none) [
  | none ↦ (none, q)
  | some (t, _) ↦ process handler now later t q
]
