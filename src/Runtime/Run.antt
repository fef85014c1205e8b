-- ===== src/Runtime/Run.antt =====
-- A run from its start to its end (app/agent/runtime/runtime.py, `execute_run` and `resume_run`, with
-- the row of the run that app/agent/runtime/store.py keeps). The recall of memories is part of the
-- system prompt here; the replay's and the release's fields of the row are not modelled.
pub mod Ending
pub mod Resume
use new_rag.Base.{
  ℕ, Bool, true, false, Option, none, some, List, [], if◌then◌else◌, Ident, Result, ok, err, Code,
  concurrent_execution, no_checkpoint,
}
use new_rag.Runtime.State.{AgentState, new, requested, planning, running, completed, failed}
use new_rag.Runtime.Context.{Message, apply_context_budget}
use new_rag.Runtime.Loop.{Deps, Checkpoint, StepRow, LoopState}
use new_rag.Runtime.Drive.{goto, store_state, drive}
use new_rag.Runtime.Rebuild.{initial_messages}
use new_rag.Access.Budget.{ExecutionBudget, BudgetSpent}

-- `AgentRunRow`
pub record RunRow : Type 0 where
  pub state : AgentState
  pub budget : ExecutionBudget
  pub system_prompt : Ident
  pub history : List Message
  pub text : Ident
  pub checkpoint : Option Checkpoint
  pub answer : Option Ident
  pub error : Option Code
  pub tokens_in : ℕ
  pub tokens_out : ℕ
  pub cost : ℕ
  pub finished : Bool
  pub steps : List StepRow
  pub llm_calls : List (ℕ × ℕ)

-- `RunResult`
pub record RunResult : Type 0 where
  pub state : AgentState
  pub answer : Option Ident
  pub steps : ℕ
  pub tokens_in : ℕ
  pub tokens_out : ℕ
  pub cost : ℕ
  pub error : Option Code

-- `RunInput`, with the prompt of the agent's version.
pub record RunInput : Type 0 where
  pub system_prompt : Ident
  pub history : List Message
  pub text : Ident

abbrev pub unspent : BudgetSpent
unspent = record {
  steps = 0;
  tokens_in = 0;
  tokens_out = 0;
  cost = 0;
  tool_calls = 0;
  elapsed = 0;
  retries = 0;
}

unfoldable pub create_run : RunInput → ExecutionBudget → RunRow
create_run request budget = record {
  state = requested;
  budget = budget;
  system_prompt = request.system_prompt;
  history = request.history;
  text = request.text;
  checkpoint = none;
  answer = none;
  error = none;
  tokens_in = 0;
  tokens_out = 0;
  cost = 0;
  finished = false;
  steps = [];
  llm_calls = [];
}

unfoldable pub finish_run : AgentState → Option Ident → Option Code → BudgetSpent → RunRow → RunRow
finish_run state answer error spent row = record row {
  state = state;
  answer = answer;
  error = error;
  tokens_in = spent.tokens_in;
  tokens_out = spent.tokens_out;
  cost = spent.cost;
  finished = true;
}

-- `_to_result`
abbrev pub to_result : AgentState → BudgetSpent → Option Ident → Option Code → RunResult
to_result state spent answer error = record {
  state = state;
  answer = answer;
  steps = spent.steps;
  tokens_in = spent.tokens_in;
  tokens_out = spent.tokens_out;
  cost = spent.cost;
  error = error;
}

-- The spending that a checkpoint keeps.
unfoldable pub restore : Checkpoint → BudgetSpent
restore cp = record {
  steps = cp.steps;
  tokens_in = cp.tokens_in;
  tokens_out = cp.tokens_out;
  cost = cp.cost;
  tool_calls = cp.tool_calls;
  elapsed = 0;
  retries = 0;
}

-- `run["state"] == AgentState.COMPLETED.value`
unfoldable pub is_completed : AgentState → Bool
is_completed completed = true
is_completed _ = false

module _ {W : Type 0} (deps : Deps W) where
  -- The variables of the loop at its start: PLANNING, RUNNING, and the bounded context.
  unfoldable pub start_loop : List Message → BudgetSpent → RunRow → W → LoopState W
  start_loop messages spent row w =
      let (_, planned) = goto planning (record {
        sm = new requested;
        spent = spent;
        messages = apply_context_budget deps.tokens deps.summary_text 4000 5 messages;
        loop_fp = [];
        stored_state = row.state;
        checkpoint = row.checkpoint;
        steps = row.steps;
        llm_calls = row.llm_calls;
        world = deps.start_clock w;
      }) in
      let (_, started) = goto running planned in store_state started

  -- The start of a new run.
  abbrev pub first_loop : RunInput → ExecutionBudget → W → LoopState W
  first_loop request budget w =
      start_loop (initial_messages request.system_prompt request.history request.text) unspent
        (create_run request budget) w

  -- What the loop has written of the row.
  abbrev pub written : RunRow → LoopState W → RunRow
  written row s = record row {
    state = s.stored_state;
    checkpoint = s.checkpoint;
    steps = s.steps;
    llm_calls = s.llm_calls;
  }

  -- The loop, then the release of the lock and the end of the run; `none` means that the fuel has run
  -- out. An error that leaves the loop leaves no result to write.
  unfoldable pub drive_and_finish :
      ℕ → ExecutionBudget → RunRow → LoopState W → Option (Result RunResult) × RunRow × W
  drive_and_finish fuel budget row start =
      let (r, s) = drive deps budget fuel start in
      elim r [
        | none ↦ (none, written row s, s.world)
        | some (err c) ↦ (some (err c), written row s, deps.release s.world)
        | some (ok f) ↦ (
          some (ok (to_result f.terminal s.spent f.answer f.error)),
          finish_run f.terminal f.answer f.error s.spent (written row s),
          deps.release s.world,
        )
      ]

  unfoldable pub execute_run :
      ℕ → RunInput → ExecutionBudget → W → Option (Result RunResult) × RunRow × W
  execute_run fuel request budget w =
      let row = create_run request budget in
      let (got, w') = deps.acquire w in
      if got then drive_and_finish fuel budget row (first_loop request budget w') else (
        some (ok (to_result requested unspent none (some concurrent_execution))),
        finish_run failed none (some concurrent_execution) unspent row,
        w',
      )

  unfoldable pub resume_run : ℕ → RunRow → W → Option (Result RunResult) × RunRow × W
  resume_run fuel row w =
      let cleared = deps.clear_pause w in
      if is_completed row.state
      then (some (ok (to_result row.state unspent row.answer row.error)), row, cleared)
      else (let (got, w') = deps.acquire cleared in
          if got
          then (elim row.checkpoint [
            | none ↦ (
              some (ok (to_result failed unspent none (some no_checkpoint))),
              finish_run failed none (some no_checkpoint) unspent row,
              deps.release w',
            )
            | some cp ↦
                drive_and_finish fuel row.budget row (start_loop cp.messages (restore cp) row w')
          ])
          else (some (ok (to_result requested unspent none (some concurrent_execution))), row, w'))
