-- ===== src/Tool/Execute.antt =====
-- `execute_tool` (app/tool/registry.py) and the results of tool calls that are kept for replay
-- (app/agent/runtime/store.py, `get` and `set`). A tool acts on the world `W`; that a call is too slow
-- is `tool_timeout`, and an exception that is no error of the platform is `internal_error`. The
-- injection of a subject or a secret and the waits between attempts are not modelled.
use new_rag.Base.{
  ℕ, zero, suc, ◌==◌, Bool, true, false, Option, none, some, List, [], ◌∷◌, not, if◌then◌else◌,
  Ident, ok, err, Code, Action, tool_execution_failed, tool_invalid_argument, run_cancelled,
  internal_error,
}

pub data Risk : Type 0 where
  read low_risk_write high_risk_write critical : Risk

-- `ToolDefinition`, the schema being the test of it.
pub record ToolDefinition (W : Type 0) : Type 0 where
  pub ref : Ident
  pub risk_level : Risk
  pub accepts : Ident → Bool
  pub retry : ℕ
  pub fn : Ident → Action W Ident

pub record ToolResult : Type 0 where
  pub ok : Bool
  pub data_of : Option Ident
  pub error : Option Ident

abbrev pub Results : Type 0
Results = List (Ident × ToolResult)

-- `get` of the store: the row of the call has a result.
unfoldable pub get_result : Ident → Results → Option ToolResult
get_result call_id [] = none
get_result call_id ((c, r) ∷ rest) = if c == call_id then some r else get_result call_id rest

-- `set` of the store; the newest result of a call stands first.
unfoldable pub set_result : Ident → ToolResult → Results → Results
set_result call_id result rest = (call_id, result) ∷ rest

-- What the loop tries again: a failed execution, and an exception that is no `ToolError`.
unfoldable pub is_retried : Code → Bool
is_retried tool_execution_failed = true
is_retried internal_error = true
is_retried _ = false

abbrev pub succeeded : Ident → ToolResult
succeeded value = record { ok = true; data_of = some value; error = none }

module _ {W : Type 0} where
  -- One attempt, and `again` with what is left of them.
  abbrev pub attempt : (Ident → Action W Ident) → Ident → Action W ToolResult → Action W ToolResult
  attempt fn args again w =
      let (r, w') = fn args w in
      elim r [
        | ok value ↦ (ok (succeeded value), w')
        | err c ↦ if is_retried c then again w' else (err c, w')
      ]

  -- The loop over `range(tool.retry + 1)`, the argument being the retries that are left.
  unfoldable pub run_tool : ℕ → (Ident → Action W Ident) → Ident → Action W ToolResult
  run_tool zero fn args w = attempt fn args (λ w'. (err tool_execution_failed, w')) w
  run_tool (suc n) fn args w = attempt fn args (run_tool n fn args) w

  unfoldable pub execute_tool :
      ToolDefinition W → Ident → Ident → Bool → Action (Results × W) ToolResult
  execute_tool tool args call_id cancelled (results, w) = elim (get_result call_id results) [
    | some r ↦ (ok r, (results, w))
    | none ↦
        if not (tool.accepts args)
        then (err tool_invalid_argument, (results, w))
        else if cancelled
        then (err run_cancelled, (results, w))
        else (let (r, w') = run_tool tool.retry tool.fn args w in
            elim r [
              | ok result ↦ (ok result, (set_result call_id result results, w'))
              | err c ↦ (err c, (results, w'))
            ])
  ]
