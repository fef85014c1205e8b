-- ===== src/Gateway/Limiter.antt =====
-- The sliding-window limiter in one process (app/tool/limiter.py, the branch without Redis), in a
-- unit of time. A key that the dictionary lacks has an empty deque.
pub mod Window
use new_rag.Base.{
  ℕ, Bool, true, false, List, [], ◌∷◌, ◌++◌, leb, ◌==◌, ◌+◌, if◌then◌else◌, length, Ident,
}

pub record RateLimiter : Type 0 where
  pub default_limit : ℕ
  pub default_window : ℕ
  pub local : Ident → List ℕ

-- `while dq and dq[0] <= now - window_s: dq.popleft()`
unfoldable pub pop_old : ℕ → ℕ → List ℕ → List ℕ
pop_old window now [] = []
pop_old window now (t ∷ ts) =
    let rest = pop_old window now ts in if leb (t + window) now then rest else t ∷ ts

abbrev pub put : Ident → List ℕ → RateLimiter → RateLimiter
put key dq l = record l { local = λ k. if k == key then dq else l.local k }

unfoldable pub acquire : ℕ → Ident → RateLimiter → Bool × RateLimiter
unfolding pop_old
acquire now key l =
    let dq = pop_old l.default_window now (l.local key) in
    if leb l.default_limit (length dq)
    then (false, put key dq l)
    else (true, put key (dq ++ now ∷ []) l)

abbrev pub new_limiter : ℕ → ℕ → RateLimiter
new_limiter limit window = record {
  default_limit = limit;
  default_window = window;
  local = λ _. [];
}
