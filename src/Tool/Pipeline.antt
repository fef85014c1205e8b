-- ===== src/Tool/Pipeline.antt =====
-- `ToolRuntime.execute` (app/tool/runtime.py): the checks around the execution of a tool, in their order.
-- The text of the limiter's key and the size of an output are parameters, and a refused or finished call
-- leaves an entry in the audit; notifications and secrets are not modelled.
pub mod Gates
pub mod Replay
use new_rag.Base.{
  ℕ, ◌==◌, ltb, ◌&&◌, Bool, true, false, Option, none, some, List, [], ◌∷◌, ◌++◌, if◌then◌else◌,
  Ident, ok, err, Code, Action, tool_execution_failed, tool_invalid_argument, tool_not_found,
  tool_permission_denied, tool_rate_limited, tool_breaker_open, tool_error, approval_required,
  run_cancelled, raise_if, gets, or_raise, ◌>>=◌, ◌>>◌,
}
use new_rag.Base.Table.{first, select}
use new_rag.Access.Policy.{PolicyRow, UserRoleRow, is_allowed}
use new_rag.Gateway.Limiter
use new_rag.Gateway.Limiter.{RateLimiter}
use new_rag.Gateway.Breaker
use new_rag.Gateway.Breaker.{CircuitBreaker, record_call}
use new_rag.Tool.Approvals.{Approvals, ApprovalRow, find_for_call, create, is_approved, is_rejected}
use new_rag.Tool.Execute.{Risk, ToolDefinition, ToolResult, Results, execute_tool}

pub record ToolCallRequest : Type 0 where
  pub call_id : Ident
  pub tenant_id : Ident
  pub user_id : Ident
  pub tool_ref : Ident
  pub args : Ident

pub data Audited : Type 0 where
  allowed_call denied_call rate_limited_call approval_rejected approval_asked succeeded_call
        failed_call :
      Audited

pub record ToolRuntime (W : Type 0) : Type 0 where
  pub tools : List (ToolDefinition W)
  pub roles : List UserRoleRow
  pub policies : List PolicyRow
  pub limiter : RateLimiter
  pub approvals : Approvals
  pub results : Results
  pub breakers : Ident → CircuitBreaker
  pub audit : List (Ident × Audited)
  pub world : W

-- `DEFAULT_RISK_THRESHOLD`
unfoldable pub is_risky : Risk → Bool
is_risky Risk.high_risk_write = true
is_risky Risk.critical = true
is_risky _ = false

-- A `ToolError` that does not count for the breaker.
unfoldable pub is_excused : Code → Bool
is_excused tool_error = true
is_excused tool_not_found = true
is_excused tool_invalid_argument = true
is_excused tool_permission_denied = true
is_excused tool_rate_limited = true
is_excused tool_breaker_open = true
is_excused approval_required = true
is_excused _ = false

-- The action "tool:execute"
abbrev pub tool_execute : Ident
tool_execute = 1

module _ {W : Type 0} (hour : ℕ) (limit_key : Ident → Ident → Ident → Ident)
    (size : Option Ident → ℕ) (max_output : Option ℕ) where
  unfoldable pub resolve : Ident → ToolRuntime W → Option (ToolDefinition W)
  resolve ref s = first (select (λ t. t.ref == ref) s.tools)

  abbrev pub audited : Ident → Audited → ToolRuntime W → ToolRuntime W
  audited call_id outcome s = record s { audit = s.audit ++ (call_id, outcome) ∷ [] }

  abbrev pub allowed_by_policy : ToolCallRequest → ToolRuntime W → Bool
  allowed_by_policy c s =
      (is_allowed (record { tenant_id = c.tenant_id; user_id = c.user_id }) tool_execute c.tool_ref
        s.roles s.policies).allowed

  unfoldable pub permission_gate : ToolCallRequest → Action (ToolRuntime W) (Unit {0})
  permission_gate c s =
      if allowed_by_policy c s
      then (ok tt, audited c.call_id allowed_call s)
      else (err tool_permission_denied, audited c.call_id denied_call s)

  unfoldable pub limit_gate : ℕ → ToolCallRequest → Action (ToolRuntime W) (Unit {0})
  limit_gate now c s =
      let (got, limiter) =
        Limiter.acquire now (limit_key c.tenant_id c.user_id c.tool_ref) s.limiter in
      if got then (ok tt, record s { limiter = limiter }) else (
        err tool_rate_limited,
        audited c.call_id rate_limited_call (record s { limiter = limiter }),
      )

  abbrev pub approval_of : ToolCallRequest → ToolRuntime W → Option ApprovalRow
  approval_of c s = find_for_call c.tenant_id c.call_id c.tool_ref s.approvals

  -- The approval of a risky call: it is asked for once, and only its APPROVED row lets the call through.
  unfoldable pub risk_gate : ℕ → Ident → Risk → ToolCallRequest → Action (ToolRuntime W) (Unit {0})
  risk_gate now new_id risk c s =
      if is_risky risk
      then (elim (approval_of c s) [
        | some a ↦
            if is_rejected a.status
            then (err approval_required, audited c.call_id approval_rejected s)
            else if is_approved a.status
            then (ok tt, s)
            else (err approval_required, audited c.call_id approval_asked s)
        | none ↦ (
          err approval_required,
          audited c.call_id approval_asked (record s {
            approvals =
                create hour now new_id c.tenant_id c.user_id c.tool_ref c.call_id s.approvals;
          }),
        )
      ])
      else (ok tt, s)

  abbrev pub put_breaker : Ident → CircuitBreaker → ToolRuntime W → ToolRuntime W
  put_breaker ref b s = record s { breakers = λ r. if r == ref then b else s.breakers r }

  unfoldable pub breaker_gate : ℕ → Ident → Action (ToolRuntime W) (Unit {0})
  breaker_gate now ref s =
      let (passed, b) = Breaker.allow now (s.breakers ref) in
      (if passed then ok tt else err tool_breaker_open, put_breaker ref b s)

  abbrev pub recorded : Bool → ℕ → Ident → ToolRuntime W → ToolRuntime W
  recorded success now ref s = put_breaker ref (record_call success now (s.breakers ref)) s

  -- The execution, its report to the breaker, and the size of its output.
  unfoldable pub run :
      ℕ → Bool → ToolDefinition W → ToolCallRequest → Action (ToolRuntime W) ToolResult
  run now cancelled tool c s =
      let (r, (results, w)) = execute_tool tool c.args c.call_id cancelled (s.results, s.world) in
      let s' : ToolRuntime W = record s { results = results; world = w } in
      elim r [
        | err code ↦ (err code, if is_excused code then s' else recorded false now tool.ref s')
        | ok result ↦
            if result.ok
              && (elim max_output [ none ↦ false | some m ↦ ltb m (size result.data_of) ])
            then (err tool_execution_failed, recorded result.ok now tool.ref s')
            else (
              ok result,
              audited c.call_id (if result.ok then succeeded_call else failed_call)
                  (recorded result.ok now tool.ref s'),
            )
      ]

  -- `execute`, with the id of an approval that it may create.
  unfoldable pub execute : ℕ → Ident → Bool → ToolCallRequest → Action (ToolRuntime W) ToolResult
  execute now new_id cancelled c = do
    raise_if cancelled run_cancelled
    found ← gets (resolve c.tool_ref)
    tool ← or_raise found tool_not_found
    permission_gate c
    limit_gate now c
    risk_gate now new_id tool.risk_level c
    breaker_gate now tool.ref
    run now cancelled tool c
