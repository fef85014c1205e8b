-- ===== src/Queue/Heap/Pop.antt =====
-- Which job a worker is given (app/queue/queue.py).
use mathlib.Core.Option
use new_rag.Base.{
  Bool, ◌≤◌, ◌⊎◌, ◌<◌, not, sym, ℕ, true, false, some, List, [], ◌∷◌, ◌≡◌, arith, ◌==◌,
  if◌then◌else◌, Ident, All, All-mono, Bool-cases, inl, inr,
}
use new_rag.Queue.Store.{Jobs, get, claim, claimed}
use new_rag.Queue.Store.Lifecycle.{claim-exclusive, claim-refused}
use new_rag.Base.Table.{All-select, select}
use new_rag.Queue.Heap.{drop_job, Item, before, push, next}

-- Items in the order of (priority, seq).
unfoldable pub IsSorted : List Item → Type 0
IsSorted [] = Unit
IsSorted (x ∷ xs) = All (λ y. before y x ≡ false) xs × IsSorted xs

push-All : (P : Item → Type 0) (x : Item) (xs : List Item) → P x → All P xs → All P (push x xs)
unfolding push
push-All P x [] p all = (p, tt)
push-All P x (y ∷ ys) p all = ground (arith, push-All P x ys p all.1)

before_trans : (x y z : Item) → before y x ≡ false → before z y ≡ false → before z x ≡ false
before_trans x y z a b = ground arith

before-asym : (x y : Item) → before x y ≡ true → before y x ≡ false
before-asym x y a = ground arith

-- A push keeps the order.
pub push-IsSorted : (x : Item) (xs : List Item) → IsSorted xs → IsSorted (push x xs)
unfolding IsSorted push
push-IsSorted x [] s = (tt, tt)
push-IsSorted x (y ∷ ys) s = elim (Bool-cases (before x y)) [
  | inl e ↦
      rw (e, if◌then◌else◌)
        ((before-asym x y e, All-mono (λ z b. before_trans x y z (before-asym x y e) b) ys s.0), s)
  | inr e ↦
      rw (e, if◌then◌else◌) (push-All (λ z. before z y ≡ false) x ys e s.0, push-IsSorted x ys s.1)
]

next-All :
    (P : Item → Type 0) (now lease : ℕ) (t : Ident) (xs : List Item) (jobs : Jobs)
    → All P xs
    → All P (next now lease t xs jobs).1
unfolding next
next-All P now lease t [] jobs h = tt
next-All P now lease t (x ∷ xs) jobs h = ground (
  arith,
  next-All P now lease t xs jobs h.1,
  next-All P now lease t xs (claim now lease x.job_id jobs).1 h.1,
)

-- A pop keeps the order.
next-IsSorted :
    (now lease : ℕ) (t : Ident) (xs : List Item) (jobs : Jobs)
    → IsSorted xs
    → IsSorted (next now lease t xs jobs).1
unfolding next IsSorted
next-IsSorted now lease t [] jobs h = tt
next-IsSorted now lease t (x ∷ xs) jobs h = ground (
  arith,
  next-All (λ y. before y x ≡ false) now lease t xs jobs h.0,
  next-IsSorted now lease t xs jobs h.1,
  next-IsSorted now lease t xs (claim now lease x.job_id jobs).1 h.1,
)

-- A filter keeps the order.
select-IsSorted : (p : Item → Bool) (xs : List Item) → IsSorted xs → IsSorted (select p xs)
unfolding IsSorted select
select-IsSorted p [] h = tt
select-IsSorted p (x ∷ xs) h =
    let all =
      All-select (λ y. before y x ≡ false) p xs
        (All-mono {Q = λ y. p y ≡ true → before y x ≡ false} (λ y b _. b) xs h.0) in
    ground (arith, all, select-IsSorted p xs h.1)

-- What happens to the heaps of a queue: a job is pushed, a worker of a type takes one from the jobs as
-- they are then, or the items of a job are dropped.
pub data HeapCall : Type 0 where
  pushes : Item → HeapCall
  takes : ℕ → ℕ → Ident → Jobs → HeapCall
  drops : Ident → HeapCall

-- The heaps after calls, the last of which stands first, from empty ones.
unfoldable pub heap_after : List HeapCall → List Item
heap_after [] = []
heap_after (pushes x ∷ cs) = push x (heap_after cs)
heap_after (takes now lease t jobs ∷ cs) = (next now lease t (heap_after cs) jobs).1
heap_after (drops j ∷ cs) = drop_job j (heap_after cs)

heap_after-IsSorted : (cs : List HeapCall) → IsSorted (heap_after cs)
unfolding heap_after IsSorted
heap_after-IsSorted [] = tt
heap_after-IsSorted (pushes x ∷ cs) = push-IsSorted x (heap_after cs) (heap_after-IsSorted cs)
heap_after-IsSorted (takes now lease t jobs ∷ cs) =
    next-IsSorted now lease t (heap_after cs) jobs (heap_after-IsSorted cs)
heap_after-IsSorted (drops j ∷ cs) =
    select-IsSorted (λ x. not (x.job_id == j)) (heap_after cs) (heap_after-IsSorted cs)

-- The order of a heap: a lower priority value first, and of one value the earlier push.
abbrev pub NotAfter : Item → Item → Type 0
NotAfter x y = (x.priority < y.priority) ⊎ ((x.priority ≡ y.priority) × (x.seq ≤ y.seq))

before-NotAfter : (x y : Item) → before y x ≡ false → NotAfter x y
before-NotAfter x y h = elim (Bool-cases (x.priority == y.priority)) [
  | inl e ↦ inr (ground arith, ground arith)
  | inr n ↦ inl (ground arith)
]

next-first :
    (now lease : ℕ) (t : Ident) (heap : List Item) (jobs : Jobs) {x : Item}
    → IsSorted heap
    → (next now lease t heap jobs).0 ≡ some x
    → let (_, heap', jobs') = next now lease t heap jobs in
      ((x.job_type == t) ≡ true)
      × All (λ y. (y.job_type == t) ≡ true → before y x ≡ false) heap'
      × (get x.job_id jobs' ≡ Option.map (claimed now lease) (get x.job_id jobs))
unfolding IsSorted next
next-first now lease t [] jobs s e = ground arith
next-first now lease t (y ∷ ys) jobs {x = x} s e = elim (Bool-cases (y.job_type == t)) [
  | inr n ↦
      let e' : (next now lease t ys jobs).0 ≡ some x = rw (next, n, if◌then◌else◌) at e in
      let (same, least, got) = next-first now lease t ys jobs s.1 e' in
      rw (next, n, if◌then◌else◌) (same, (λ k. absurd (ground arith), least), got)
  | inl m ↦ elim (Bool-cases (claim now lease y.job_id jobs).0) [
    | inl c ↦
        let e' : some y ≡ some x = rw (next, m, c, if◌then◌else◌) at e in
        let is : y ≡ x = ground arith in
        rw (next, m, c, if◌then◌else◌, sym is)
          (m, All-mono (λ z b k. b) ys s.0, (claim-exclusive now now lease y.job_id jobs c).0)
    | inr c ↦
        let kept = claim-refused now lease y.job_id jobs c in
        let e' : (next now lease t ys jobs).0 ≡ some x =
          rw (next, m, c, kept, if◌then◌else◌) at e in
        rw (next, m, c, kept, if◌then◌else◌) (next-first now lease t ys jobs s.1 e')
  ]
]

-- Whatever pushes, takings and drops made the heaps from empty ones: the job that a worker of a type
-- is given is of the type and running afterwards, as this worker's claim left it; every item of the
-- type that stays has a greater priority value, or the same and no smaller sequence number.
pub next-least :
    (cs : List HeapCall) (now lease : ℕ) (t : Ident) (jobs : Jobs) {x : Item}
    → (next now lease t (heap_after cs) jobs).0 ≡ some x
    → let (_, heap, jobs') = next now lease t (heap_after cs) jobs in
      (x.job_type ≡ t)
      × All (λ y. y.job_type ≡ t → NotAfter x y) heap
      × (get x.job_id jobs' ≡ Option.map (claimed now lease) (get x.job_id jobs))
next-least cs now lease t jobs {x = x} e =
    let (of_type, least, got) =
      next-first now lease t (heap_after cs) jobs (heap_after-IsSorted cs) e in
    (
      ground arith,
      All-mono {Q = λ y. y.job_type ≡ t → NotAfter x y}
          (λ y b same. before-NotAfter x y (b (ground arith)))
          (next now lease t (heap_after cs) jobs).1 least,
      got,
    )
