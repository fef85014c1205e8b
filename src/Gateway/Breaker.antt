-- ===== src/Gateway/Breaker.antt =====
-- The circuit breaker of the model gateway and of the tools (app/common/circuit_breaker.py). The
-- clock is a parameter of each call; times and durations are counts of one unit of time.
pub mod Trips
pub mod Recovery
use new_rag.Base.{
  ℕ, Bool, true, false, Option, none, some, List, [], ◌∷◌, ◌++◌, ltb, leb, ◌+◌, if◌then◌else◌,
  length,
}
use new_rag.Base.Table.{select}

pub data BreakerState : Type 0 where
  closed opened half_open : BreakerState

pub record CircuitBreaker : Type 0 where
  pub failure_threshold : ℕ
  pub window : ℕ
  pub cooldown : ℕ
  pub state : BreakerState
  pub failures : List ℕ
  pub opened_at : Option ℕ

unfoldable pub new : ℕ → ℕ → ℕ → CircuitBreaker
new n w c = record {
  failure_threshold = n;
  window = w;
  cooldown = c;
  state = closed;
  failures = [];
  opened_at = none;
}

-- `now - opened_at >= cooldown`
abbrev pub cooled : ℕ → CircuitBreaker → Bool
cooled now b = elim b.opened_at [ none ↦ false | some t ↦ leb (t + b.cooldown) now ]

unfoldable pub allow : ℕ → CircuitBreaker → Bool × CircuitBreaker
allow now b = elim b.state [
  | closed ↦ (true, b)
  | half_open ↦ (true, b)
  | opened ↦ if cooled now b then (true, record b { state = half_open }) else (false, b)
]

-- The failures of the window, with one of now.
abbrev pub recent : ℕ → CircuitBreaker → List ℕ
recent now b = select (λ t. ltb now (t + b.window)) (b.failures ++ now ∷ [])

abbrev pub trip : ℕ → List ℕ → CircuitBreaker → CircuitBreaker
trip now ts b = record b { state = opened; opened_at = some now; failures = ts }

unfoldable pub record_call : Bool → ℕ → CircuitBreaker → CircuitBreaker
unfolding select
record_call success now b = elim b.state [
  | half_open ↦
      if success then record b { state = closed; failures = [] } else trip now (now ∷ []) b
  | _ ↦
      if success
      then record b { failures = [] }
      else if leb b.failure_threshold (length (recent now b))
      then trip now (recent now b) b
      else record b { failures = recent now b }
]
