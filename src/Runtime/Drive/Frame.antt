-- ===== src/Runtime/Drive/Frame.antt =====
-- What the parts of a round leave alone (app/agent/runtime/runtime.py).
use new_rag.Runtime.Rebuild.{append_results}
use new_rag.Base.{Ident, ℕ, zero, suc, ◌≡◌, refl, arith, List, [], ◌∷◌, Result-cases, ok, inl, inr}
use new_rag.Runtime.State.{StateMachine, AgentState}
use new_rag.Runtime.Context.{ToolDraft, append_tool_result}
use new_rag.Runtime.Loop.{Deps, LoopState, StepRow, Fingerprint}
use new_rag.Runtime.Drive.{run_tool, call_llm, run_tools, one_retry}
use new_rag.Access.Budget.{ExecutionBudget}

-- The machine, the count of the steps, and the records of the loop.
pub record Core : Type 0 where
  pub sm : StateMachine
  pub spent_steps : ℕ
  pub steps : List StepRow
  pub loop_fp : List Fingerprint
  pub stored_state : AgentState

module _ {W : Type 0} where
  abbrev pub core : LoopState W → Core
  core s = record {
    sm = s.sm;
    spent_steps = s.spent.steps;
    steps = s.steps;
    loop_fp = s.loop_fp;
    stored_state = s.stored_state;
  }

module _ {W : Type 0} (deps : Deps W) (budget : ExecutionBudget) where
  -- A call of the model, with its retries, changes the count of retries and the world.
  pub call_llm-core : (n : ℕ) (s : LoopState W) → core (call_llm deps budget n s).1 ≡ core s
  unfolding call_llm
  call_llm-core zero s = ground arith
  call_llm-core (suc n) s = ground (
    arith,
    call_llm-core n
        (one_retry deps budget (record s { world = (deps.complete s.messages s.world).1 })),
  )

  run_tool-core : (c : ToolDraft) (s : LoopState W) → core (run_tool deps budget c s).1 ≡ core s
  unfolding run_tool
  run_tool-core c s = ground arith

  -- The tools change their count, the messages and the world.
  pub run_tools-core :
      (cs : List ToolDraft) (s : LoopState W) → core (run_tools deps budget cs s).1 ≡ core s
  unfolding run_tools
  run_tools-core [] s = refl
  run_tools-core (c ∷ cs) s =
      let s' = (run_tool deps budget c s).1 in
      ground (arith, run_tool-core c s, run_tools-core cs s')

  pub call_llm-messages :
      (n : ℕ) (s : LoopState W) → (call_llm deps budget n s).1.messages ≡ s.messages
  unfolding call_llm
  call_llm-messages zero s = ground arith
  call_llm-messages (suc n) s = ground (
    arith,
    call_llm-messages n
        (one_retry deps budget (record s { world = (deps.complete s.messages s.world).1 })),
  )

  run_tool-messages :
      (c : ToolDraft) (obs : Ident) (s : LoopState W)
      → (run_tool deps budget c s).0 ≡ ok obs
      → (run_tool deps budget c s).1.messages ≡ append_tool_result c.id obs s.messages
  unfolding run_tool
  run_tool-messages c obs s h = ground (arith, h)

  -- Tools that all answer append one result each, as the steps do when they are told again.
  pub run_tools-messages :
      (f : Ident → Ident) (cs : List ToolDraft) (obs : List Ident) (s : LoopState W)
      → (run_tools deps budget cs s).0 ≡ ok obs
      → (run_tools deps budget cs s).1.messages ≡ append_results f cs obs s.messages
  unfolding run_tools append_results
  run_tools-messages f [] obs s h = ground (arith, h)
  run_tools-messages f (c ∷ cs) obs s h =
      let s' = (run_tool deps budget c s).1 in
      elim (Result-cases (run_tool deps budget c s).0) [
        | inl (o, r) ↦ elim (Result-cases (run_tools deps budget cs s').0) [
          | inl (os, k) ↦
              ground (arith, h, r, k, run_tool-messages c o s r, run_tools-messages f cs os s' k)
          | inr (e, k) ↦ absurd (ground (arith, h, r, k))
        ]
        | inr (e, r) ↦ absurd (ground (arith, h, r))
      ]
