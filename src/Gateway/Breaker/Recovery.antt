-- ===== src/Gateway/Breaker/Recovery.antt =====
-- What the two operations of a circuit breaker keep (app/common/circuit_breaker.py).
use new_rag.Base.{is_some, ℕ, Bool, true, ◌≡◌, arith, ◌<◌, ◌≤◌, length}
use new_rag.Gateway.Breaker.{CircuitBreaker, closed, opened, allow, record_call}

-- A closed breaker has fewer failures than its threshold, an open one knows since when.
unfoldable pub IsSound : CircuitBreaker → Type 0
IsSound b =
    (b.state ≡ closed → length b.failures < b.failure_threshold)
    × (b.state ≡ opened → is_some b.opened_at ≡ true)

-- Both operations of the breaker keep this, when the threshold is positive.
pub record_call-IsSound :
    (success : Bool) (now : ℕ) (b : CircuitBreaker)
    → 1 ≤ b.failure_threshold
    → IsSound b
    → IsSound (record_call success now b)
unfolding IsSound record_call
record_call-IsSound success now b pos (few, since) =
    (λ e. ground (arith, few), λ e. ground (arith, since))

pub allow-IsSound : (now : ℕ) (b : CircuitBreaker) → IsSound b → IsSound (allow now b).1
unfolding IsSound allow
allow-IsSound now b (few, since) = (λ e. ground (arith, few), λ e. ground (arith, since))
