-- ===== src/Gateway/Limiter/Window.antt =====
-- What the limiter promises of the calls of one key (app/tool/limiter.py).
use new_rag.Base.{
  false, true, ◌==◌, count_if-le, ℕ, List, [], ◌∷◌, ◌++◌, ◌≡◌, refl, arith, ltb, leb, ◌+◌, ◌<◌, ◌≤◌,
  if◌then◌else◌, length, length-append, count_if, Bool-cases, inl, inr, Ident,
}
use new_rag.Gateway.Limiter.{new_limiter, RateLimiter, pop_old, put, acquire}

-- The times at which the calls of a key were let through, in a sequence of calls at given times.
unfoldable pub granted : Ident → List ℕ → RateLimiter → List ℕ × RateLimiter
granted key [] l = ([], l)
granted key (t ∷ ts) l =
    let (passed, l') = acquire t key l in
    let (later, l'') = granted key ts l' in (if passed then t ∷ later else later, l'')

-- Times that do not decrease, from a first one on.
unfoldable pub IsClock : ℕ → List ℕ → Type 0
IsClock now [] = Unit
IsClock now (t ∷ ts) = (now ≤ t) × IsClock t ts

-- `now` at the end of a sequence of calls.
unfoldable pub end_of : ℕ → List ℕ → ℕ
end_of now [] = now
end_of now (t ∷ ts) = end_of t ts

-- The calls of the window that ends at a time.
abbrev pub in_window : ℕ → ℕ → List ℕ → ℕ
in_window window now ts = count_if (λ t. ltb now (t + window)) ts

-- What is popped has left every window that ends now or later.
in_window-pop_old :
    (window now last : ℕ) (ts : List ℕ)
    → now ≤ last
    → in_window window last (pop_old window now ts) ≡ in_window window last ts
unfolding pop_old
in_window-pop_old window now last [] le = refl
in_window-pop_old window now last (t ∷ ts) le =
    ground (arith, in_window-pop_old window now last ts le)

length-pop_old : (window now : ℕ) (ts : List ℕ) → length (pop_old window now ts) ≤ length ts
unfolding pop_old
length-pop_old window now [] = omega arith
length-pop_old window now (t ∷ ts) = ground (arith, length-pop_old window now ts)

in_window-append :
    (window now : ℕ) (xs ys : List ℕ)
    → in_window window now (xs ++ ys) ≡ in_window window now xs + in_window window now ys
in_window-append window now [] ys = omega arith
in_window-append window now (x ∷ xs) ys = ground (arith, in_window-append window now xs ys)

end_of-ge : (now : ℕ) (ts : List ℕ) → IsClock now ts → now ≤ end_of now ts
unfolding IsClock end_of
end_of-ge now [] c = omega arith
end_of-ge now (t ∷ ts) c = omega (arith, end_of-ge t ts c.1)

eq_refl : (key : Ident) → (key == key) ≡ true
eq_refl key = ground arith

local-put : (key : Ident) (dq : List ℕ) (l : RateLimiter) → (put key dq l).local key ≡ dq
local-put key dq l = rw (eq_refl key) refl

acquire-full :
    (t : ℕ) (key : Ident) (l : RateLimiter)
    → leb l.default_limit (length (pop_old l.default_window t (l.local key))) ≡ true
    → acquire t key l ≡ (false, put key (pop_old l.default_window t (l.local key)) l)
unfolding acquire
acquire-full t key l e = rw (e) refl

acquire-room :
    (t : ℕ) (key : Ident) (l : RateLimiter)
    → leb l.default_limit (length (pop_old l.default_window t (l.local key))) ≡ false
    → acquire t key l ≡ (true, put key (pop_old l.default_window t (l.local key) ++ t ∷ []) l)
unfolding acquire
acquire-room t key l e = rw (e) refl

granted-bounded_from :
    (key : Ident) (now : ℕ) (ts : List ℕ) (l : RateLimiter)
    → IsClock now ts
    → length (l.local key) ≤ l.default_limit
    → in_window l.default_window (end_of now ts) (l.local key ++ (granted key ts l).0)
      ≤ l.default_limit
unfolding IsClock end_of granted
granted-bounded_from key now [] l c le = ground (
  arith,
  count_if-le (λ t. ltb now (t + l.default_window)) (l.local key),
  in_window-append l.default_window now (l.local key) [],
)
granted-bounded_from key now (t ∷ ts) l c le =
    let w = l.default_window in
    let dq = pop_old w t (l.local key) in
    let last = end_of t ts in
    let shorter = length-pop_old w t (l.local key) in
    let kept = in_window-pop_old w t last (l.local key) (end_of-ge t ts c.1) in
    let all = in_window-append w last (l.local key) in
    let some_dq = in_window-append w last dq in
    elim (Bool-cases (leb l.default_limit (length dq))) [
      | inl full ↦
          let l0 = put key dq l in
          let here = local-put key dq l in
          let rest = granted-bounded_from key t ts l0 c.1 (rw (here) (ground arith)) in
          let rest' : in_window w last (dq ++ (granted key ts l0).0) ≤ l.default_limit =
            rw (here) at rest in
          rw (acquire-full t key l full, if◌then◌else◌)
            (omega (arith, rest', all (granted key ts l0).0, some_dq (granted key ts l0).0, kept))
      | inr room ↦
          let dq' = dq ++ t ∷ [] in
          let l0 = put key dq' l in
          let here = local-put key dq' l in
          let g = (granted key ts l0).0 in
          let n = length-append dq (t ∷ []) in
          let rest = granted-bounded_from key t ts l0 c.1 (rw (here) (ground arith)) in
          let rest' : in_window w last (dq' ++ g) ≤ l.default_limit = rw (here) at rest in
          let both = in_window-append w last dq' g in
          let one = in_window-append w last (t ∷ []) g in
          rw (acquire-room t key l room, if◌then◌else◌)
            (omega (arith, rest', both, one, all (t ∷ g), some_dq (t ∷ []), kept))
    ]

in_window-clock :
    (window now first : ℕ) (ts : List ℕ)
    → IsClock first ts
    → now < first + window
    → in_window window now ts ≡ length ts
unfolding IsClock
in_window-clock window now first [] c lt = refl
in_window-clock window now first (t ∷ ts) c lt = ground (arith, in_window-clock window now t ts c.1)

in_window-all :
    (window now first : ℕ) (ts : List ℕ)
    → IsClock first ts
    → in_window window now (pop_old window now ts) ≡ length (pop_old window now ts)
unfolding IsClock pop_old
in_window-all window now first [] c = refl
in_window-all window now first (t ∷ ts) c =
    ground (arith, in_window-all window now t ts c.1, in_window-clock window now t ts c.1)

-- A call passes exactly when the deque, whose times do not decrease, holds fewer of the window.
pub acquire_iff :
    (now first : ℕ) (key : Ident) (l : RateLimiter)
    → IsClock first (l.local key)
    → (acquire now key l).0 ≡ ltb (in_window l.default_window now (l.local key)) l.default_limit
unfolding acquire
acquire_iff now first key l c = ground (
  arith,
  in_window-pop_old l.default_window now now (l.local key),
  in_window-all l.default_window now first (l.local key) c,
)

-- A limiter that starts empty lets at most its limit of calls of a key through in the window that
-- ends with the last call, for every sequence of calls at times that do not decrease.
pub granted-bounded :
    (limit window start : ℕ) (key : Ident) (ts : List ℕ)
    → IsClock start ts
    → in_window window (end_of start ts) (granted key ts (new_limiter limit window)).0 ≤ limit
granted-bounded limit window start key ts c =
    granted-bounded_from key start ts (new_limiter limit window) c (omega arith)
