-- ===== src/Queue/Shared/Best.antt =====
-- The job that is claimed from the shared table (app/queue/store.py).
use mathlib.Core.Path.{subst}
use new_rag.Base.{
  ◌≢◌, leb, ◌⊎◌, ◌||◌, ℕ, ◌≡◌, ◌≤◌, ◌==◌, ◌&&◌, ◌∙◌, Bool, true, false, Option, none, some, List,
  [], ◌∷◌, if◌then◌else◌, Ident, take, refl, sym, ap, arith, inl, inr, Bool-cases, All, All-mono,
  ltb,
}
use new_rag.Base.Table.{select, first, All-of-select, All-select, first-select-update_kept}
use new_rag.Base.Keys.{Distinct}
use new_rag.Base.Order.{sort_asc, insert_asc}
use new_rag.Queue.Store.{JobRow, Jobs, waiting, claim, claimed, get, has_id}
use new_rag.Queue.Shared.{is_candidate, candidates, claim_first, claim_queued}

-- Every element has a property before and after sorting.
module _ {A : Type 0} (key : A → ℕ) (P : A → Type 0) where
  insert_asc-All : (x : A) (ys : List A) → P x → All P ys → All P (insert_asc key x ys)
  unfolding insert_asc
  insert_asc-All x [] p h = (p, tt)
  insert_asc-All x (y ∷ ys) p h = ground (arith, insert_asc-All x ys p h.1)

  sort_asc-All : (xs : List A) → All P xs → All P (sort_asc key xs)
  unfolding sort_asc
  sort_asc-All [] h = tt
  sort_asc-All (x ∷ xs) h = insert_asc-All x (sort_asc key xs) h.0 (sort_asc-All xs h.1)

  All-of-insert_asc : (x : A) (ys : List A) → All P (insert_asc key x ys) → P x × All P ys
  unfolding insert_asc
  All-of-insert_asc x [] h = h
  All-of-insert_asc x (y ∷ ys) h = elim (Bool-cases (ltb (key y) (key x))) [
    | inl l ↦
        let h' : P y × All P (insert_asc key x ys) = rw (l, if◌then◌else◌) at h in
        let (px, rest) = All-of-insert_asc x ys h'.1 in (px, (h'.0, rest))
    | inr l ↦ let h' : P x × (P y × All P ys) = rw (l, if◌then◌else◌) at h in h'
  ]

  All-of-sort_asc : (xs : List A) → All P (sort_asc key xs) → All P xs
  unfolding sort_asc
  All-of-sort_asc [] h = tt
  All-of-sort_asc (x ∷ xs) h =
      let (px, rest) = All-of-insert_asc x (sort_asc key xs) h in (px, All-of-sort_asc xs rest)

-- The order of the query: the priority, and the age where it is the same.
abbrev pub not_after : JobRow → JobRow → Bool
not_after x y =
    ltb x.priority y.priority || (x.priority == y.priority && leb x.created_at y.created_at)

abbrev IsOldFirst : List JobRow → Type 0
IsOldFirst [] = Unit
IsOldFirst (x ∷ xs) = All (λ y. x.created_at ≤ y.created_at) xs × IsOldFirst xs

insert_asc-IsOldFirst :
    (x : JobRow) (ys : List JobRow)
    → IsOldFirst ys
    → IsOldFirst (insert_asc (λ r. r.created_at) x ys)
unfolding insert_asc
insert_asc-IsOldFirst x [] h = (tt, tt)
insert_asc-IsOldFirst x (y ∷ ys) h = elim (Bool-cases (ltb y.created_at x.created_at)) [
  | inl l ↦
      rw (l, if◌then◌else◌)
        (
          insert_asc-All (λ (r : JobRow). r.created_at) (λ r. y.created_at ≤ r.created_at) x ys
              (ground (arith, l)) h.0,
          insert_asc-IsOldFirst x ys h.1,
        )
  | inr l ↦
      rw (l, if◌then◌else◌)
        (
          (
            ground (arith, l),
            All-mono {Q = λ r. x.created_at ≤ r.created_at}
                (λ r (k : y.created_at ≤ r.created_at). ground (arith, l, k)) ys h.0,
          ),
          h,
        )
]

sort_asc-IsOldFirst : (xs : List JobRow) → IsOldFirst (sort_asc (λ r. r.created_at) xs)
unfolding sort_asc
sort_asc-IsOldFirst [] = tt
sort_asc-IsOldFirst (x ∷ xs) =
    insert_asc-IsOldFirst x (sort_asc (λ r. r.created_at) xs) (sort_asc-IsOldFirst xs)

-- The head of the rows sorted by age and then by priority comes after no other.
head-not_after :
    (ys : List JobRow)
    → IsOldFirst ys
    → (sort_asc (λ r. r.priority) ys ≡ [])
      ⊎ ((x : JobRow) × (rest : List JobRow) × (sort_asc (λ r. r.priority) ys ≡ x ∷ rest)
          × All (λ y. not_after x y ≡ true) ys)
unfolding sort_asc insert_asc
head-not_after [] h = inl refl
head-not_after (y ∷ ys) h = elim (head-not_after ys h.1) [
  | inl e ↦
      let none_left : All (λ z. not_after y z ≡ true) ys =
        All-of-sort_asc (λ (r : JobRow). r.priority) (λ z. not_after y z ≡ true) ys
          (subst (All (λ z. not_after y z ≡ true)) (sym e) tt) in
      inr (y, [], ap (insert_asc (λ r. r.priority) y) e, (ground arith, none_left))
  | inr (z, rest, e, least) ↦ elim (Bool-cases (ltb z.priority y.priority)) [
    | inl l ↦ inr (
      z,
      insert_asc (λ r. r.priority) y rest,
      ap (insert_asc (λ r. r.priority) y) e ∙ rw (l, if◌then◌else◌) refl,
      (ground (arith, l), least),
    )
    | inr l ↦ inr (
      y,
      z ∷ rest,
      ap (insert_asc (λ r. r.priority) y) e ∙ rw (l, if◌then◌else◌) refl,
      (ground arith, both z ys l least h.0),
    )
  ]
]
  where
    both :
        (z : JobRow) (xs : List JobRow)
        → ltb z.priority y.priority ≡ false
        → All (λ w. not_after z w ≡ true) xs
        → All (λ w. y.created_at ≤ w.created_at) xs
        → All (λ w. not_after y w ≡ true) xs
    both z [] l a b = tt
    both z (w ∷ xs) l a b = (ground (arith, l, a.0, b.0), both z xs l a.1 b.1)

-- A row that is found by its id is found behind a row of another id.
get-behind :
    (y : JobRow) (xs rows : List JobRow)
    → All (λ r. r.job_id ≢ y.job_id) xs
    → All (λ r. get r.job_id rows ≡ some r) xs
    → All (λ r. get r.job_id (y ∷ rows) ≡ some r) xs
unfolding get first select
get-behind y [] rows n h = tt
get-behind y (x ∷ xs) rows n h = (ground (arith, n.0, h.0), get-behind y xs rows n.1 h.1)

-- With distinct ids every row is found by its id.
get-own :
    (rows : List JobRow)
    → Distinct (λ (r : JobRow). r.job_id) rows
    → All (λ r. get r.job_id rows ≡ some r) rows
unfolding get first select
get-own [] d = tt
get-own (x ∷ rows) d = (ground arith, get-behind x rows rows d.0 (get-own rows d.1))

-- A waiting row that is found by its id is claimed.
claim-own :
    (now lease : ℕ) (x : JobRow) (jobs : Jobs)
    → get x.job_id jobs ≡ some x
    → waiting x.state ≡ true
    → ((claim now lease x.job_id jobs).0 ≡ true)
      × (get x.job_id (claim now lease x.job_id jobs).1 ≡ some (claimed now lease x))
unfolding claim get
claim-own now lease x jobs h w =
    let written =
      first-select-update_kept (has_id x.job_id) (has_id x.job_id) (claimed now lease) (λ r. refl)
        jobs in
    (ground (arith, h, w), ground (arith, h, w, written))

-- Where job ids are unique: `claim_queued` returns no job and changes nothing exactly where no job of
-- the type waits; else the job that it returns waited, came after no other waiting job of the type in
-- the order of priority and age, and is running afterwards as this worker's claim left it.
pub claim_queued-best :
    (now lease : ℕ) (job_type : Option Ident) (jobs : Jobs)
    → Distinct (λ (r : JobRow). r.job_id) jobs
    → ((claim_queued now lease job_type jobs ≡ (none, jobs))
        × All (λ r. is_candidate job_type r ≡ true → ⊥) jobs)
      ⊎ ((x : JobRow) × ((claim_queued now lease job_type jobs).0 ≡ some x.job_id)
          × (is_candidate job_type x ≡ true)
          × All (λ r. is_candidate job_type r ≡ true → not_after x r ≡ true) jobs
          × (get x.job_id (claim_queued now lease job_type jobs).1 ≡ some (claimed now lease x)))
unfolding claim_queued candidates claim_first
claim_queued-best now lease job_type jobs d =
    let rows = select (is_candidate job_type) jobs in
    let old_first = sort_asc (λ (r : JobRow). r.created_at) rows in
    let IsFound = λ (r : JobRow). (get r.job_id jobs ≡ some r) × (is_candidate job_type r ≡ true) in
    let found : All IsFound rows = All-select IsFound (is_candidate job_type) jobs (
      All-mono {Q = λ r. is_candidate job_type r ≡ true → IsFound r} (λ r g c. (g, c)) jobs
        (get-own jobs d)) in
    elim (head-not_after old_first (sort_asc-IsOldFirst rows)) [
      | inl e ↦
          let empty : All (λ (r : JobRow). ⊥) rows =
            All-of-sort_asc (λ (r : JobRow). r.created_at) (λ r. ⊥) rows
              (All-of-sort_asc (λ (r : JobRow). r.priority) (λ r. ⊥) old_first
                (subst (All (λ (r : JobRow). ⊥)) (sym e) tt)) in
          inl (
            ap (λ l. claim_first now lease (take 10 l) jobs) e,
            All-of-select (λ (r : JobRow). ⊥) (is_candidate job_type) jobs empty,
          )
      | inr (x, rest, e, least) ↦
          let all_found : All IsFound (x ∷ rest) = subst (All IsFound) e (
            sort_asc-All (λ (r : JobRow). r.priority) IsFound old_first
              (sort_asc-All (λ (r : JobRow). r.created_at) IsFound rows found)) in
          let (own, waits) = all_found.0 in
          let (won, got) = claim-own now lease x jobs own (ground (arith, waits)) in
          let done : claim_queued now lease job_type jobs
              ≡ (some x.job_id, (claim now lease x.job_id jobs).1) =
            ap (λ l. claim_first now lease (take 10 l) jobs) e
            ∙ rw (claim_first, won, if◌then◌else◌) refl in
          inr (
            x,
            ap (λ (p : Option Ident × Jobs). p.0) done,
            waits,
            All-of-select (λ r. not_after x r ≡ true) (is_candidate job_type) jobs
                (All-of-sort_asc (λ (r : JobRow). r.created_at) (λ r. not_after x r ≡ true) rows
                  least),
            ap (λ (p : Option Ident × Jobs). get x.job_id p.1) done ∙ got,
          )
    ]
