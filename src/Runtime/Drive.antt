-- ===== src/Runtime/Drive.antt =====
-- The rounds of the loop of a run (app/agent/runtime/runtime.py, `_call_llm_with_retry` and
-- `_drive_loop`). Reasons of transitions are texts, here 0.
pub mod Frame
pub mod Outcome
pub mod Tools
pub mod Rounds
pub mod Bounds
use new_rag.Base.{
  ℕ, zero, suc, ◌+◌, Bool, false, Option, none, some, List, [], ◌∷◌, ◌++◌, ltb, if◌then◌else◌,
  Ident, Result, ok, err, Code, Action, pure, gets, modify, raise_if, ◌>>=◌, ◌>>◌, model_error,
  budget_exceeded, run_cancelled, agent_timeout, agent_loop_detected, tool_timeout,
  approval_required, tool_timeout_unknown,
}
use new_rag.Runtime.State.{AgentState, transition}
use new_rag.Runtime.Context.{ToolDraft, append_tool_call_block, append_tool_result}
use new_rag.Runtime.Loop.{
  LlmResult, Deps, Checkpoint, StepRow, LoopState, Finish, finish, is_transient, fingerprint,
  push_fp, is_stuck,
}
use new_rag.Access.Budget.{ExecutionBudget, check}

-- `sm.transition(target)`
unfoldable pub goto : {W : Type 0} → AgentState → Action (LoopState W) (Unit {0})
goto target s =
    let (r, sm) = transition s.sm target none 0 in
    elim r [ ok _ ↦ (ok tt, record s { sm = sm }) | err c ↦ (err c, s) ]

-- `store.set_state(run_id, sm.state.value)`
abbrev pub store_state : {W : Type 0} → LoopState W → LoopState W
store_state s = record s { stored_state = s.sm.state }

abbrev pub snapshot : {W : Type 0} → Option ℕ → LoopState W → Checkpoint
snapshot current_step s = record {
  current_step = current_step;
  messages = s.messages;
  steps = s.spent.steps;
  tokens_in = s.spent.tokens_in;
  tokens_out = s.spent.tokens_out;
  cost = s.spent.cost;
  tool_calls = s.spent.tool_calls;
}

abbrev pub step_row :
    {W : Type 0} → AgentState → LlmResult → List ToolDraft → List Ident → LoopState W → StepRow
step_row state result calls observations s = record {
  seq = s.spent.steps;
  state = state;
  calls = calls;
  observations = observations;
  tokens_used = result.tokens_in + result.tokens_out;
  cost = result.cost;
}

abbrev pub add_step : {W : Type 0} → StepRow → LoopState W → LoopState W
add_step row s = record s { steps = s.steps ++ row ∷ [] }

-- `record_llm_call` under the number of the step, and the spending of the call.
abbrev pub book : {W : Type 0} → LlmResult → LoopState W → LoopState W
book result s = record s {
  llm_calls = s.llm_calls ++ (s.spent.steps, result.cost) ∷ [];
  spent = record s.spent {
    steps = s.spent.steps + 1;
    tokens_in = s.spent.tokens_in + result.tokens_in;
    tokens_out = s.spent.tokens_out + result.tokens_out;
    cost = s.spent.cost + result.cost;
  };
}

module _ {W : Type 0} (deps : Deps W) (budget : ExecutionBudget) where
  -- A call of what the loop depends on.
  abbrev pub lift : {A : Type 0} → Action W A → Action (LoopState W) A
  lift m s = let (r, w) = m s.world in (r, record s { world = w })

  abbrev pub one_retry : LoopState W → LoopState W
  one_retry s = record s { spent = record s.spent { retries = s.spent.retries + 1 } }

  -- One turn of the retry loop, `again` being the next one.
  abbrev pub attempt_llm : Action (LoopState W) LlmResult → Action (LoopState W) LlmResult
  attempt_llm again s =
      let (r, s') = lift (deps.complete s.messages) s in
      elim r [
        | ok a ↦ (ok a, s')
        | err c ↦
            if is_transient c
            then (if deps.streaming then (err c, s') else again (one_retry s'))
            else (err c, s')
      ]

  -- `_call_llm_with_retry`, the argument being the retries that are left. A streamed call is not
  -- retried; the waits between the calls are not modelled.
  unfoldable pub call_llm : ℕ → Action (LoopState W) LlmResult
  call_llm zero s = attempt_llm (λ s'. (err model_error, s')) s
  call_llm (suc n) s = attempt_llm (call_llm n) s

  -- One call of a step: it is counted, and its observation is appended.
  unfoldable pub run_tool : ToolDraft → Action (LoopState W) Ident
  run_tool c = do
    modify (λ s. record s { spent = record s.spent { tool_calls = s.spent.tool_calls + 1 } })
    obs ← lift (deps.execute_tool c)
    modify (λ s. record s { messages = append_tool_result c.id obs s.messages })
    pure obs

  -- The calls of one step, one after the other.
  unfoldable pub run_tools : List ToolDraft → Action (LoopState W) (List Ident)
  run_tools [] = pure []
  run_tools (c ∷ cs) = do obs ← run_tool c; rest ← run_tools cs; pure (obs ∷ rest)

  -- A round that ends the loop after a transition.
  unfoldable pub stop :
      Option Ident → Option Code → AgentState → Action (LoopState W) (Option Finish)
  stop answer error target = do goto target; pure (some (finish answer error target))

  unfoldable pub answer_with : LlmResult → Action (LoopState W) (Option Finish)
  answer_with result = do
    goto AgentState.reflecting
    goto AgentState.completed
    modify (λ s. add_step (step_row AgentState.completed result [] [] s) s)
    pure (some (finish (some result.content) none AgentState.completed))

  abbrev pub push_calls : List ToolDraft → LoopState W → LoopState W
  push_calls calls s = record s { loop_fp = push_fp (fingerprint calls) s.loop_fp }

  -- After the tools have answered: the test for a loop, the step, the checkpoint.
  unfoldable pub observe : LlmResult → List Ident → Action (LoopState W) (Option Finish)
  observe result observations = do
    goto AgentState.observing
    goto AgentState.reflecting
    modify (push_calls result.tool_calls)
    stuck ← gets (λ s. is_stuck s.loop_fp)
    raise_if stuck agent_loop_detected
    modify
        (λ s. add_step (step_row AgentState.reflecting result result.tool_calls observations s) s)
    modify (λ s. record s { checkpoint = some (snapshot (some s.spent.steps) s) })
    goto AgentState.running
    modify store_state
    pure none

  unfoldable pub use_tools : LlmResult → Action (LoopState W) (Option Finish)
  use_tools result = do
    modify (λ s. record s { checkpoint = some (snapshot none s) })
    goto AgentState.waiting_tool
    modify store_state
    modify (λ s. record s { messages = append_tool_call_block result.tool_calls s.messages })
    observations ← run_tools result.tool_calls
    observe result observations

  abbrev pub step_late : W → Bool
  step_late w = elim budget.step_timeout [ none ↦ false | some t ↦ ltb t (deps.step_elapsed w) ]

  -- After the model has answered.
  unfoldable pub take_result : LlmResult → Action (LoopState W) (Option Finish)
  take_result result s =
      if step_late s.world
      then stop none (some agent_timeout) AgentState.timeout s
      else (elim result.tool_calls [
        | [] ↦ answer_with result (book result s)
        | _ ∷ _ ↦ use_tools result (book result s)
      ])

  abbrev pub clocked : LoopState W → LoopState W
  clocked s = record s { spent = record s.spent { elapsed = deps.elapsed s.world } }

  abbrev pub touched : LoopState W → LoopState W
  touched s = record s { world = deps.touch s.world }

  unfoldable pub round : Action (LoopState W) (Option Finish)
  round start =
      let s = clocked start in
      elim (check budget s.spent) [
        | some _ ↦ stop none (some budget_exceeded) AgentState.timeout s
        | none ↦
            if deps.is_cancelled s.world
            then stop (deps.partial_answer s.world) (some run_cancelled) AgentState.cancelled s
            else if deps.is_paused s.world
            then stop none none AgentState.paused s
            else (call_llm budget.max_retries >>= take_result) (touched s)
      ]

  -- The `except` clauses; the machine's own refusal of UNKNOWN leaves the loop as an exception.
  unfoldable pub handle : Code → Action (LoopState W) Finish
  handle run_cancelled s =
      (ok (finish (deps.partial_answer s.world) (some run_cancelled) AgentState.cancelled), s)
  handle tool_timeout s =
      (do
        goto AgentState.unknown
        pure (finish none (some tool_timeout_unknown) AgentState.unknown))
        s
  handle approval_required s =
      (ok (finish none (some approval_required) AgentState.waiting_approval), s)
  handle c s = (ok (finish none (some c) AgentState.failed), s)

  -- What follows a round, `again` being the loop from the next state.
  unfoldable pub settle :
      (LoopState W → Option (Result Finish) × LoopState W)
      → Result (Option Finish) × LoopState W
      → Option (Result Finish) × LoopState W
  settle again (ok none, s) = again s
  settle again (ok (some f), s) = (some (ok f), s)
  settle again (err c, s) = let (h, s') = handle c s in (some h, s')

  -- The loop on fuel; `none` means that the fuel has run out.
  unfoldable pub drive : ℕ → LoopState W → Option (Result Finish) × LoopState W
  drive zero s = (none, s)
  drive (suc fuel) s = settle (drive fuel) (round s)
