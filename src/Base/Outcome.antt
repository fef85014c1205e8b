-- ===== src/Base/Outcome.antt =====
-- Fallible calls. `Code` is the `code` of an `AgentError` (app/common/errors.py and the codes that
-- the services pass to its constructor); messages and details are not modelled.
use mathlib.Core.Path.{◌≡◌, refl}
use mathlib.Core.Logic.{◌⊎◌, inl, inr}

pub data Code : Type 0 where
  invalid_state_transition run_cancelled budget_exceeded agent_timeout agent_loop_detected : Code
  model_error model_timeout model_rate_limit model_unavailable model_breaker_open : Code
  tool_error tool_not_found tool_invalid_argument tool_permission_denied : Code
  tool_execution_failed tool_timeout tool_rate_limited tool_breaker_open : Code
  approval_required queue_full recovery_abandoned : Code
  release_flow_terminated agent_not_found agent_version_not_found release_contract_failed : Code
  invalid_gray_percentage rollback_failed release_order_not_found : Code
  concurrent_execution no_checkpoint run_not_found resume_failed internal_error : Code
  tool_timeout_unknown release_regression_failed : Code

pub data Result {ℓ} (A : Type ℓ) : Type ℓ where
  ok : A → Result A
  err : Code → Result A

pub Result-cases : {A : Type 0} (r : Result A) → ((a : A) × (r ≡ ok a)) ⊎ ((c : Code) × (r ≡ err c))
Result-cases (ok a) = inl (a, refl)
Result-cases (err c) = inr (c, refl)
