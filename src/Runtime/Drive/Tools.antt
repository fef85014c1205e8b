-- ===== src/Runtime/Drive/Tools.antt =====
-- A round with tools (app/agent/runtime/runtime.py).
use mathlib.Core.Path.{subst}
use new_rag.Runtime.Rebuild.{append_results, append_step}
use new_rag.Runtime.Rebuild.Order.{IsRebuilt, IsRebuilt-last, append_step-calls}
use new_rag.Base.{
  ◌+◌, ◌<◌, ◌≡◌, inl, inr, refl, ap, sym, ◌∙◌, arith, Bool-cases, some, none, List, [], ◌∷◌, ◌++◌,
  Ident, Result-cases, ok, err, agent_loop_detected,
}
use new_rag.Runtime.State.{
  allowed, mem_state, running, waiting_tool, observing, reflecting, unknown,
}
use new_rag.Runtime.Context.{ToolDraft, append_tool_call_block}
use new_rag.Runtime.Loop.{LlmResult, Deps, LoopState, is_stuck}
use new_rag.Runtime.Drive.{
  step_row, store_state, snapshot, add_step, run_tools, push_calls, observe, use_tools,
}
use new_rag.Runtime.Drive.Frame.{run_tools-messages, Core, run_tools-core}
use new_rag.Access.Budget.{ExecutionBudget}
use new_rag.Runtime.Drive.Outcome.{can-state, moved, goto-moved, Keeps, Outcome, goes_on, raises}

module _ {W : Type 0} (deps : Deps W) (budget : ExecutionBudget) where
  observe-Outcome :
      (result : LlmResult) (observations : List Ident) (start s : LoopState W)
      → Keeps start (add_step (step_row reflecting result result.tool_calls observations s) s)
      → s.sm.state ≡ waiting_tool
      → s.spent.steps ≡ start.spent.steps + 1
      → start.spent.steps < budget.max_steps
      → Outcome budget start (observe deps budget result observations s)
  unfolding observe allowed mem_state
  observe-Outcome result observations start s k e n lt =
      let s1 = moved observing s in
      let s2 = moved reflecting s1 in
      let s3 = push_calls deps budget result.tool_calls s2 in
      let s4 = add_step (step_row reflecting result result.tool_calls observations s3) s3 in
      let s5 : LoopState W = record s4 { checkpoint = some (snapshot (some s4.spent.steps) s4) } in
      let g1 = goto-moved observing s (can-state waiting_tool observing s.sm e refl) in
      let g2 = goto-moved reflecting s1 (can-state observing reflecting s1.sm refl refl) in
      let g3 = goto-moved running s5 (can-state reflecting running s5.sm refl refl) in
      elim (Bool-cases (is_stuck s3.loop_fp)) [
        | inl y ↦
            let eq : observe deps budget result observations s ≡ (err agent_loop_detected, s3) =
              ground (arith, g1, g2) in
            subst (Outcome budget start) (sym eq) (raises (inr refl))
        | inr y ↦
            let eq : observe deps budget result observations s
                ≡ (ok none, store_state (moved running s5)) =
              ground (arith, g1, g2, g3) in
            subst (Outcome budget start) (sym eq)
              (goes_on {t = store_state (moved running s5)} refl refl n lt refl k)
      ]

  -- A step with its calls and their results.
  tools-Keeps :
      (result : LlmResult) (c : ToolDraft) (cs : List ToolDraft) (obs : List Ident)
      (start s t : LoopState W)
      → result.tool_calls ≡ c ∷ cs
      → Keeps start s
      → ((f : Ident → Ident)
          → t.messages
            ≡ append_results f result.tool_calls obs
                (append_tool_call_block result.tool_calls s.messages))
      → t.steps ≡ s.steps
      → t.spent.steps ≡ s.spent.steps
      → Keeps start (add_step (step_row reflecting result result.tool_calls obs t) t)
  tools-Keeps result c cs obs start s t some_calls k m steps n f base h =
      let row = step_row reflecting result result.tool_calls obs t in
      let told =
        IsRebuilt-last f base s.messages s.steps s.spent.steps row (k f base h)
          (omega (arith, n)) in
      let same = append_step-calls f row c cs s.messages some_calls in
      subst (λ ms. IsRebuilt f base ms (t.steps ++ row ∷ []) row.seq) (same ∙ sym (m f))
        (subst (λ rs. IsRebuilt f base (append_step f row s.messages) (rs ++ row ∷ []) row.seq)
          (sym steps) told)

  pub use_tools-Outcome :
      (result : LlmResult) (c : ToolDraft) (cs : List ToolDraft) (start s : LoopState W)
      → result.tool_calls ≡ c ∷ cs
      → Keeps start s
      → s.sm.state ≡ running
      → s.spent.steps ≡ start.spent.steps + 1
      → start.spent.steps < budget.max_steps
      → Outcome budget start (use_tools deps budget result s)
  unfolding use_tools allowed mem_state
  use_tools-Outcome result c cs start s some_calls k e n lt =
      let s1 : LoopState W = record s { checkpoint = some (snapshot none s) } in
      let s2 = store_state (moved waiting_tool s1) in
      let s3 : LoopState W = record s2 {
        messages = append_tool_call_block result.tool_calls s2.messages;
      } in
      let g1 = goto-moved waiting_tool s1 (can-state running waiting_tool s1.sm e refl) in
      let tools = run_tools deps budget result.tool_calls s3 in
      let kept = run_tools-core deps budget result.tool_calls s3 in
      let at : tools.1.sm.state ≡ waiting_tool = ap (λ (c : Core). c.sm.state) kept in
      elim (Result-cases tools.0) [
        | inl (obs, r) ↦
            let eq : use_tools deps budget result s ≡ observe deps budget result obs tools.1 =
              ground (arith, g1, r) in
            subst (Outcome budget start) (sym eq) (
              observe-Outcome result obs start tools.1
                (tools-Keeps result c cs obs start s tools.1 some_calls k
                  (λ f. run_tools-messages deps budget f result.tool_calls obs s3 r)
                  (ap (λ (c : Core). c.steps) kept) (ap (λ (c : Core). c.spent_steps) kept))
                at (ap (λ (c : Core). c.spent_steps) kept ∙ n) lt)
        | inr (c, r) ↦
            let eq : use_tools deps budget result s ≡ (err c, tools.1) = ground (arith, g1, r) in
            subst (Outcome budget start) (sym eq)
              (raises (inl (can-state waiting_tool unknown tools.1.sm at refl)))
      ]
