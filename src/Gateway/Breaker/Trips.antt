-- ===== src/Gateway/Breaker/Trips.antt =====
-- When the circuit breaker opens (app/common/circuit_breaker.py).
use new_rag.Base.{
  inr, All-mono, inl, All-append, Bool-cases, false, true, ℕ, Bool, List, [], ◌∷◌, ◌++◌, ◌≡◌, refl,
  arith, ltb, leb, ◌+◌, ◌<◌, ◌≤◌, if◌then◌else◌, length, All, length-append,
}
use new_rag.Base.Table.{select}
use new_rag.Gateway.Breaker.{CircuitBreaker, closed, opened, new, recent, trip, record_call}

-- A breaker that is told of failures at given times.
unfoldable pub fail_all : List ℕ → CircuitBreaker → CircuitBreaker
fail_all [] b = b
fail_all (t ∷ ts) b = fail_all ts (record_call false t b)

-- Failures do not close an open breaker.
fail_all-opened :
    (ts : List ℕ) (b : CircuitBreaker) → b.state ≡ opened → (fail_all ts b).state ≡ opened
unfolding fail_all record_call
fail_all-opened [] b e = e
fail_all-opened (t ∷ ts) b e = fail_all-opened ts (record_call false t b) (ground arith)

select-kept : (p : ℕ → Bool) (xs : List ℕ) → All (λ x. p x ≡ true) xs → select p xs ≡ xs
unfolding select
select-kept p [] a = refl
select-kept p (x ∷ xs) a = ground (arith, a.0, select-kept p xs a.1)

-- Times of one window.
abbrev pub Near : ℕ → ℕ → ℕ → Type 0
Near start window t = (start ≤ t) × (t < start + window)

recent-kept :
    (start now : ℕ) (b : CircuitBreaker)
    → All (Near start b.window) b.failures
    → Near start b.window now
    → recent now b ≡ b.failures ++ now ∷ []
recent-kept start now b all near =
    select-kept (λ t. ltb now (t + b.window)) (b.failures ++ now ∷ [])
      (All-append (λ x. ltb now (x + b.window) ≡ true) b.failures (now ∷ [])
        (All-mono (λ x n. ground (arith, n, near)) b.failures all) (ground (arith, near), tt))

-- A failure that a closed breaker is told of, all its failures being of one window.
record_call-Near :
    (start t : ℕ) (b : CircuitBreaker)
    → b.state ≡ closed
    → All (Near start b.window) b.failures
    → Near start b.window t
    → record_call false t b ≡ (
        if leb b.failure_threshold (length b.failures + 1)
        then trip t (b.failures ++ t ∷ []) b
        else record b { failures = b.failures ++ t ∷ [] })
unfolding record_call
record_call-Near start t b e past near =
    rw (e, recent-kept start t b past near, length-append b.failures (t ∷ [])) refl

fail_all-closed :
    (start : ℕ) (ts : List ℕ) (b : CircuitBreaker)
    → b.state ≡ closed
    → length b.failures < b.failure_threshold
    → All (Near start b.window) b.failures
    → All (Near start b.window) ts
    → (fail_all ts b).state
      ≡ (if leb b.failure_threshold (length b.failures + length ts) then opened else closed)
unfolding fail_all
fail_all-closed start [] b e lt past all = ground arith
fail_all-closed start (t ∷ ts) b e lt past all =
    let told = record_call-Near start t b e past all.0 in
    let b' = record b { failures = b.failures ++ t ∷ [] } in
    let n = length-append b.failures (t ∷ []) in
    elim (Bool-cases (leb b.failure_threshold (length b.failures + 1))) [
      | inl y ↦ ground (arith, fail_all-opened ts (trip t (b.failures ++ t ∷ []) b) refl)
      | inr y ↦
          let past' = All-append (Near start b.window) b.failures (t ∷ []) past (all.0, tt) in
          let rest = fail_all-closed start ts b' e (ground arith) past' all.1 in ground arith
    ]

-- A fresh breaker with a positive threshold that is told of failures, all within one window, is open
-- afterwards if they are at least as many as the threshold, and closed if they are fewer.
pub fail_all-new :
    (n window cooldown start : ℕ) (ts : List ℕ)
    → 1 ≤ n
    → All (Near start window) ts
    → (fail_all ts (new n window cooldown)).state ≡ (if leb n (length ts) then opened else closed)
unfolding new
fail_all-new n window cooldown start ts pos all =
    ground
      (arith, fail_all-closed start ts (new n window cooldown) refl (ground (arith, pos)) tt all)
