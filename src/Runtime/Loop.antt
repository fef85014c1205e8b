-- ===== src/Runtime/Loop.antt =====
-- The loop of a run (app/agent/runtime/runtime.py, `_drive_loop` and `_call_llm_with_retry`). What it
-- calls is a record of operations over a world `W` that they share. The framework's own task
-- cancellation, traces and streamed events are not modelled.
use new_rag.Base.{
  model_timeout, model_rate_limit, ℕ, Bool, true, false, Option, List, [], ◌∷◌, ltb, ◌==◌, ◌&&◌,
  if◌then◌else◌, Ident, Code, Action,
}
use new_rag.Runtime.State.{AgentState, StateMachine}
use new_rag.Runtime.Context.{ToolDraft, Message}
use new_rag.Access.Budget.{BudgetSpent}

-- `ModelResult`; a content that is missing is the empty text.
pub record LlmResult : Type 0 where
  pub content : Ident
  pub tool_calls : List ToolDraft
  pub tokens_in : ℕ
  pub tokens_out : ℕ
  pub cost : ℕ
  pub model : Ident

-- `RuntimeDeps` as a run uses it: the clock since the start of the run, which `start_clock` sets, and
-- of the step, the cancellation and pause flags, the lock of the run, the gateway, and the execution
-- of one tool, which answers with an observation or raises. `partial_answer` is the text streamed in
-- this step; `tokens` and `summary_text` are those of the context.
pub record Deps (W : Type 0) : Type 0 where
  pub start_clock : W → W
  pub elapsed : W → ℕ
  pub step_elapsed : W → ℕ
  pub is_cancelled : W → Bool
  pub is_paused : W → Bool
  pub clear_pause : W → W
  pub acquire : W → Bool × W
  pub touch : W → W
  pub release : W → W
  pub tokens : Option Ident → ℕ
  pub summary_text : ℕ → List Ident → Ident
  pub streaming : Bool
  pub partial_answer : W → Option Ident
  pub complete : List Message → Action W LlmResult
  pub execute_tool : ToolDraft → Action W Ident

pub record Checkpoint : Type 0 where
  pub current_step : Option ℕ
  pub messages : List Message
  pub steps : ℕ
  pub tokens_in : ℕ
  pub tokens_out : ℕ
  pub cost : ℕ
  pub tool_calls : ℕ

-- `AgentStepRow`: `calls` are the drafts in its `llm_json`.
pub record StepRow : Type 0 where
  pub seq : ℕ
  pub state : AgentState
  pub calls : List ToolDraft
  pub observations : List Ident
  pub tokens_used : ℕ
  pub cost : ℕ

-- A sorted tuple of (name, arguments)
abbrev pub Fingerprint : Type 0
Fingerprint = List (Ident × Ident)

-- The variables of the loop, and what it has written of the run's row, steps and calls.
pub record LoopState (W : Type 0) : Type 0 where
  pub sm : StateMachine
  pub spent : BudgetSpent
  pub messages : List Message
  pub loop_fp : List Fingerprint
  pub stored_state : AgentState
  pub checkpoint : Option Checkpoint
  pub steps : List StepRow
  pub llm_calls : List (ℕ × ℕ)
  pub world : W

-- What `_drive_loop` returns.
pub record Finish : Type 0 where
  pub answer : Option Ident
  pub error : Option Code
  pub terminal : AgentState

abbrev pub finish : Option Ident → Option Code → AgentState → Finish
finish answer error terminal = record { answer = answer; error = error; terminal = terminal }

-- `except (ModelTimeoutError, ModelRateLimitError)`
unfoldable pub is_transient : Code → Bool
is_transient model_timeout = true
is_transient model_rate_limit = true
is_transient _ = false

abbrev pub pair_before : Ident × Ident → Ident × Ident → Bool
pair_before (a, b) (c, d) = if a == c then ltb b d else ltb a c

unfoldable pub insert_pair : Ident × Ident → Fingerprint → Fingerprint
insert_pair p [] = p ∷ []
insert_pair p (q ∷ qs) =
    let rest = insert_pair p qs in if pair_before q p then q ∷ rest else p ∷ q ∷ qs

unfoldable pub fingerprint : List ToolDraft → Fingerprint
unfolding insert_pair
fingerprint [] = []
fingerprint (c ∷ cs) = insert_pair (c.name, c.arguments) (fingerprint cs)

unfoldable pub same_fp : Fingerprint → Fingerprint → Bool
same_fp [] [] = true
same_fp ((a, b) ∷ p) ((c, d) ∷ q) = a == c && b == d && same_fp p q
same_fp _ _ = false

-- `deque(maxlen=3)`: the newest first.
unfoldable pub push_fp : Fingerprint → List Fingerprint → List Fingerprint
push_fp p [] = p ∷ []
push_fp p (q ∷ []) = p ∷ q ∷ []
push_fp p (q ∷ r ∷ _) = p ∷ q ∷ r ∷ []

-- `len(loop_fp) == loop_fp.maxlen and len(set(loop_fp)) == 1`
unfoldable pub is_stuck : List Fingerprint → Bool
is_stuck (p ∷ q ∷ r ∷ []) = same_fp p q && same_fp q r
is_stuck _ = false
