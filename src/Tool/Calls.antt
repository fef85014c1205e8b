-- ===== src/Tool/Calls.antt =====
-- A tool call of a run (`_execute_one_tool` of app/agent/runtime/runtime.py) with the rows of calls that
-- it writes (app/agent/runtime/store.py). The parsing of arguments and the id of a call are parameters;
-- latencies and the text of an error are not modelled.
pub mod Settled
pub mod Kept
mod Tests
pub mod Final
use new_rag.Base.{
  ℕ, ◌==◌, Bool, true, false, Option, none, some, List, [], ◌∷◌, ◌++◌, if◌then◌else◌, Ident, Result,
  ok, err, Code, Action, tool_error, tool_not_found, tool_invalid_argument, tool_permission_denied,
  tool_execution_failed, tool_rate_limited, tool_breaker_open, internal_error,
}
use new_rag.Base.Table.{first, select, update}
use new_rag.Tool.Execute.{ToolResult, set_result}
use new_rag.Tool.Pipeline.{ToolCallRequest, ToolRuntime, execute}

pub data CallStatus : Type 0 where
  running succeeded failed : CallStatus

pub record CallRow : Type 0 where
  pub call_id : Ident
  pub run_id : Ident
  pub tenant_id : Ident
  pub user_id : Ident
  pub tool_ref : Ident
  pub args : Ident
  pub status : CallStatus
  pub error_code : Option Code

-- The rows of calls, whose results are those of the tool runtime.
pub record Session (W : Type 0) : Type 0 where
  pub rows : List CallRow
  pub runtime : ToolRuntime W

-- The tool and the arguments that a model asks for.
pub record ToolCall : Type 0 where
  pub name : Ident
  pub arguments : Ident

-- What the text of arguments is: an object, another JSON value, or no JSON.
pub data Parsed : Type 0 where
  object : Ident → Parsed
  other_value broken : Parsed

pub record Observation : Type 0 where
  pub call_id : Ident
  pub ok : Bool
  pub data_of : Option Ident
  pub error : Option Code

-- A `ToolError` that is neither a missing approval nor a timeout.
unfoldable pub is_observed : Code → Bool
is_observed tool_error = true
is_observed tool_not_found = true
is_observed tool_invalid_argument = true
is_observed tool_permission_denied = true
is_observed tool_execution_failed = true
is_observed tool_rate_limited = true
is_observed tool_breaker_open = true
is_observed _ = false

abbrev pub has_call : Ident → CallRow → Bool
has_call call_id r = r.call_id == call_id

unfoldable pub find_call : Ident → List CallRow → Option CallRow
find_call call_id rows = first (select (has_call call_id) rows)

-- What `get` reads from a result that is `{}`.
abbrev pub empty_result : ToolResult
empty_result = record { ok = false; data_of = none; error = none }

module _ {W : Type 0} where
  unfoldable pub insert_tool_call : CallRow → Session W → Session W
  insert_tool_call row s = elim (find_call row.call_id s.rows) [
    | some _ ↦ s
    | none ↦ record s { rows = s.rows ++ row ∷ [] }
  ]

  unfoldable pub finalize_tool_call :
      Ident → ToolResult → CallStatus → Option Code → Session W → Session W
  finalize_tool_call call_id result status error_code s = elim (find_call call_id s.rows) [
    | none ↦ s
    | some _ ↦ record s {
      rows =
          update (has_call call_id) (λ r. record r { status = status; error_code = error_code })
            s.rows;
      runtime = record s.runtime { results = set_result call_id result s.runtime.results };
    }
  ]

-- "call_failed"
abbrev pub call_failed : Ident
call_failed = 0

-- The request of a call, whose id is `call_id_for` its run, tool and arguments.
abbrev pub request :
    (Ident → Ident → Ident → Ident) → Ident → Ident → Ident → Ident → ToolCall → ToolCallRequest
request call_id_for run_id tenant_id user_id args tc = record {
  call_id = call_id_for run_id tc.name args;
  tenant_id = tenant_id;
  user_id = user_id;
  tool_ref = tc.name;
  args = args;
}

abbrev pub new_call : Ident → ToolCallRequest → CallRow
new_call run_id c = record {
  call_id = c.call_id;
  run_id = run_id;
  tenant_id = c.tenant_id;
  user_id = c.user_id;
  tool_ref = c.tool_ref;
  args = c.args;
  status = running;
  error_code = none;
}

module _ {W : Type 0} where
  -- The `except` clauses: an observed error is written and returned, any other goes on.
  unfoldable pub observe_error : Ident → Code → Session W → Result Observation × Session W
  observe_error call_id code s =
      if is_observed code
      then (
        ok (record { call_id = call_id; ok = false; data_of = none; error = some code }),
        finalize_tool_call call_id empty_result failed (some code) s,
      )
      else (err code, s)

  -- The result of a call is written and returned.
  unfoldable pub observe_result : Ident → ToolResult → Session W → Result Observation × Session W
  observe_result call_id r s = (
    ok (record { call_id = call_id; ok = r.ok; data_of = r.data_of; error = none }),
    finalize_tool_call call_id r (if r.ok then succeeded else failed) none s,
  )

module _ {W : Type 0} (hour : ℕ) (limit_key : Ident → Ident → Ident → Ident)
    (size : Option Ident → ℕ) (max_output : Option ℕ) where
  -- The call of the tool runtime, after the row is there.
  unfoldable pub execute_call :
      ℕ → Ident → Bool → ToolCallRequest → Session W → Result Observation × Session W
  execute_call now new_id cancelled c s =
      let (r, t) = execute hour limit_key size max_output now new_id cancelled c s.runtime in
      let s' : Session W = record s { runtime = t } in
      elim r [
        | ok result ↦ observe_result c.call_id result s'
        | err code ↦ observe_error c.call_id code s'
      ]

  module _ (parse : Ident → Parsed) (call_id_for : Ident → Ident → Ident → Ident) where
    unfoldable pub execute_one_tool :
        ℕ → Ident → Bool → Ident → Ident → Ident → ToolCall → Action (Session W) Observation
    execute_one_tool now new_id cancelled run_id tenant_id user_id tc s =
        elim (parse tc.arguments) [
          | broken ↦ (err internal_error, s)
          | other_value ↦ observe_error call_failed tool_invalid_argument s
          | object args ↦
              let c = request call_id_for run_id tenant_id user_id args tc in
              execute_call now new_id cancelled c (insert_tool_call (new_call run_id c) s)
        ]
