-- ===== src/Queue/Heap/Admission.antt =====
-- Which jobs `JobQueue.enqueue` takes (app/queue/queue.py).
use new_rag.Base.{
  opt_eq, ◌&&◌, ℕ, Bool, true, none, some, List, [], ◌∷◌, ◌≡◌, arith, ◌+◌, ◌≤◌, ◌==◌, Ident, length,
  ok, Option-cases, inl, inr,
}
use new_rag.Base.Table.{first-select-append}
use new_rag.Queue.Store.{JobRow, Jobs, find_active, create, new_job, unfinished}
use new_rag.Queue.Heap.{
  Item, JobQueue, Request, push, push_job, pending, admission_allowed, enqueue, find_duplicate,
  create_job,
}

-- What is admitted for a priority is admitted for every more urgent one (0 being the most urgent).
pub admission_allowed-monotone :
    (p p' : ℕ) (q : JobQueue)
    → p ≤ p'
    → admission_allowed p' q ≡ true
    → admission_allowed p q ≡ true
unfolding admission_allowed
admission_allowed-monotone p p' q le e = ground arith

length-push : (x : Item) (xs : List Item) → length (push x xs) ≡ length xs + 1
unfolding push
length-push x [] = omega arith
length-push x (y ∷ ys) = ground (arith, length-push x ys)

-- A job that is admitted leaves at most as many pending items as the capacity, which is positive.
pub enqueue-bounded :
    (r : Request) (fresh : Ident) (now : ℕ) (q : JobQueue) {j : Ident}
    → 1 ≤ q.capacity
    → (enqueue r fresh now q).0 ≡ ok j
    → pending (enqueue r fresh now q).1 ≤ q.capacity
unfolding enqueue admission_allowed push_job
enqueue-bounded r fresh now q pos e = elim (Option-cases (find_duplicate r q.jobs)) [
  | inl n ↦ ground (
    arith,
    length-push
        (record { job_type = r.job_type; priority = r.priority; seq = q.seq; job_id = fresh })
        q.heap,
  )
  | inr (x, f) ↦ ground arith
]

-- The job that a request with a new key creates is found under the key.
find_active-create :
    (r : Request) (key fresh now : ℕ) (jobs : Jobs)
    → r.dedupe_key ≡ some key
    → find_duplicate r jobs ≡ none
    → find_duplicate r (create_job r fresh now jobs) ≡ some fresh
unfolding find_active create
find_active-create r key fresh now jobs e n =
    let p : JobRow → Bool = λ x.
      x.tenant_id == r.tenant
      && x.job_type == r.job_type
      && opt_eq x.dedupe_key key
      && unfinished x.state in
    let x =
      new_job fresh r.tenant r.job_type r.payload r.priority r.max_attempts r.dedupe_key now in
    ground (arith, first-select-append p jobs x)

enqueue-finds :
    (r : Request) (key fresh now : ℕ) (q : JobQueue) {j : Ident}
    → r.dedupe_key ≡ some key
    → (enqueue r fresh now q).0 ≡ ok j
    → find_duplicate r (enqueue r fresh now q).1.jobs ≡ some j
unfolding enqueue push_job
enqueue-finds r key fresh now q e f = elim (Option-cases (find_duplicate r q.jobs)) [
  | inl n ↦ ground (arith, find_active-create r key fresh now q.jobs e n)
  | inr (x, h) ↦ ground arith
]

enqueue-found :
    (r : Request) (fresh now : ℕ) (q : JobQueue) (j : Ident)
    → find_duplicate r q.jobs ≡ some j
    → admission_allowed r.priority q ≡ true
    → enqueue r fresh now q ≡ (ok j, q)
unfolding enqueue
enqueue-found r fresh now q j e g = ground arith

-- A request with a key that is repeated while its job is unfinished gets the same job, and changes
-- nothing, if it is admitted again.
pub enqueue-once :
    (r : Request) (key fresh again now later : ℕ) (q : JobQueue) {j : Ident}
    → r.dedupe_key ≡ some key
    → (enqueue r fresh now q).0 ≡ ok j
    → let q' = (enqueue r fresh now q).1 in
      admission_allowed r.priority q' ≡ true → enqueue r again later q' ≡ (ok j, q')
enqueue-once r key fresh again now later q {j = j} e f g =
    enqueue-found r again later (enqueue r fresh now q).1 j (enqueue-finds r key fresh now q e f) g
