-- ===== src/Access/Budget.antt =====
-- The execution budget of a run (app/agent/runtime/budget.py). Costs and seconds are counts of a
-- small unit.
use new_rag.Base.{ℕ, true, Option, none, some, ◌≡◌, ◌≤◌, ◌+◌, leb, arith, if◌then◌else◌, is_some}

pub record ExecutionBudget : Type 0 where
  pub max_steps : ℕ
  pub max_tokens : ℕ
  pub max_cost : ℕ
  pub max_tool_calls : ℕ
  pub max_runtime : ℕ
  pub max_retries : ℕ
  pub step_timeout : Option ℕ

pub record BudgetSpent : Type 0 where
  pub steps : ℕ
  pub tokens_in : ℕ
  pub tokens_out : ℕ
  pub cost : ℕ
  pub tool_calls : ℕ
  pub elapsed : ℕ
  pub retries : ℕ

abbrev pub tokens_total : BudgetSpent → ℕ
tokens_total s = s.tokens_in + s.tokens_out

pub data Reason : Type 0 where
  steps_out tokens_used cost_out tool_calls_out runtime_out : Reason

-- The reason of an exceeded budget, `none` when it is not.
unfoldable pub check : ExecutionBudget → BudgetSpent → Option Reason
check b s =
    if leb b.max_steps s.steps
    then some steps_out
    else if leb b.max_tokens (tokens_total s)
    then some tokens_used
    else if leb b.max_cost s.cost
    then some cost_out
    else if leb b.max_tool_calls s.tool_calls
    then some tool_calls_out
    else if leb b.max_runtime s.elapsed
    then some runtime_out
    else none

-- Spending that is nowhere less.
abbrev pub IsLess : BudgetSpent → BudgetSpent → Type 0
IsLess s s' =
    (s.steps ≤ s'.steps)
    × (tokens_total s ≤ tokens_total s')
    × (s.cost ≤ s'.cost)
    × (s.tool_calls ≤ s'.tool_calls)
    × (s.elapsed ≤ s'.elapsed)

-- A budget that is exceeded stays so while the run spends more.
pub check-monotone :
    (b : ExecutionBudget) (s s' : BudgetSpent)
    → IsLess s s'
    → is_some (check b s) ≡ true
    → is_some (check b s') ≡ true
unfolding check
check-monotone b s s' le e = ground (arith, le)
