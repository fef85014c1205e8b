-- ===== src/Runtime/Drive/Rounds.antt =====
-- One round of the loop, from a running machine (app/agent/runtime/runtime.py).
use mathlib.Core.Path.{subst}
use new_rag.Runtime.Rebuild.Order.{IsRebuilt}
use new_rag.Base.{
  ◌≤◌, All-mono, budget_exceeded, ◌>>=◌, run_cancelled, agent_timeout, ◌+◌, ◌<◌, ◌≡◌, inl, inr,
  refl, ap, sym, ◌∙◌, arith, false, Bool-cases, Option-cases, some, none, List, [], ◌∷◌,
  Result-cases, err,
}
use new_rag.Runtime.State.{allowed, mem_state, running, timeout, cancelled, paused, unknown}
use new_rag.Runtime.Context.{ToolDraft}
use new_rag.Runtime.Loop.{LlmResult, Deps, LoopState}
use new_rag.Runtime.Drive.{
  StepRow, book, call_llm, stop, answer_with, use_tools, step_late, take_result, clocked, touched,
  round,
}
use new_rag.Runtime.Drive.Frame.{call_llm-messages, Core, call_llm-core}
use new_rag.Access.Budget.{ExecutionBudget, check}
use new_rag.Runtime.Drive.Outcome.{
  can-state, Keeps, Outcome, raises, check-none, stop-Outcome, answer_with-Outcome,
}
use new_rag.Runtime.Drive.Tools.{use_tools-Outcome}

module _ {W : Type 0} (deps : Deps W) (budget : ExecutionBudget) where
  -- The count of the steps grows before the step is written.
  book-Keeps :
      (result : LlmResult) (start s : LoopState W) → Keeps start s → Keeps start (book result s)
  book-Keeps result start s k f base h =
      let told = k f base h in
      record {
        rebuilt = told.rebuilt;
        ordered = told.ordered;
        bounded =
            All-mono (λ (q : StepRow) (n : q.seq ≤ s.spent.steps). omega (arith, n)) s.steps
              told.bounded;
      }

  take_result-Outcome :
      (result : LlmResult) (start s : LoopState W)
      → Keeps start s
      → s.sm.state ≡ running
      → s.spent.steps ≡ start.spent.steps
      → start.spent.steps < budget.max_steps
      → Outcome budget start (take_result deps budget result s)
  unfolding take_result allowed mem_state
  take_result-Outcome result start s kept e n lt =
      elim (Bool-cases (step_late deps budget s.world)) [
        | inl y ↦
            let eq : take_result deps budget result s
                ≡ stop deps budget none (some agent_timeout) timeout s =
              ground (arith, y) in
            subst (Outcome budget start) (sym eq) (
              stop-Outcome deps budget none (some agent_timeout) timeout start s kept
                (can-state running timeout s.sm e refl))
        | inr y ↦ go y result.tool_calls refl
      ]
    where
      go :
          step_late deps budget s.world ≡ false
          → (cs : List ToolDraft) → result.tool_calls ≡ cs
          → Outcome budget start (take_result deps budget result s)
      go y [] k =
          let eq : take_result deps budget result s
              ≡ answer_with deps budget result (book result s) =
            ground (arith, y, k) in
          subst (Outcome budget start) (sym eq) (
            answer_with-Outcome deps budget result start (book result s)
              (book-Keeps result start s kept) e)
      go y (c ∷ cs) k =
          let eq : take_result deps budget result s ≡ use_tools deps budget result (book result s) =
            ground (arith, y, k) in
          subst (Outcome budget start) (sym eq) (
            use_tools-Outcome deps budget result c cs start (book result s) k
              (book-Keeps result start s kept) e (ap (λ m. m + 1) n) lt)

  -- A round that has passed the tests.
  ask-Outcome :
      (start s : LoopState W)
      → Keeps start s
      → s.sm.state ≡ running
      → s.spent.steps ≡ start.spent.steps
      → start.spent.steps < budget.max_steps
      → Outcome budget start
          ((call_llm deps budget budget.max_retries >>= take_result deps budget) s)
  unfolding allowed mem_state
  ask-Outcome start s k e n lt =
      let called = call_llm deps budget budget.max_retries s in
      let kept = call_llm-core deps budget budget.max_retries s in
      let at : called.1.sm.state ≡ running = ap (λ (c : Core). c.sm.state) kept ∙ e in
      elim (Result-cases called.0) [
        | inl (result, r) ↦
            let eq : (call_llm deps budget budget.max_retries >>= take_result deps budget) s
                ≡ take_result deps budget result called.1 =
              ground (arith, r) in
            subst (Outcome budget start) (sym eq) (
              take_result-Outcome result start called.1
                (λ f base h.
                  subst (λ ms. IsRebuilt f base ms called.1.steps called.1.spent.steps)
                    (sym (call_llm-messages deps budget budget.max_retries s))
                    (subst (λ (c : Core). IsRebuilt f base s.messages c.steps c.spent_steps)
                      (sym kept) (k f base h)))
                at (ap (λ (c : Core). c.spent_steps) kept ∙ n) lt)
        | inr (c, r) ↦
            let eq : (call_llm deps budget budget.max_retries >>= take_result deps budget) s
                ≡ (err c, called.1) =
              ground (arith, r) in
            subst (Outcome budget start) (sym eq)
              (raises (inl (can-state running unknown called.1.sm at refl)))
      ]

  -- The outcome of a round that starts with a running machine.
  pub round-Outcome :
      (s : LoopState W) → s.sm.state ≡ running → Outcome budget s (round deps budget s)
  unfolding round allowed mem_state
  round-Outcome start e =
      let s = clocked deps budget start in
      elim (Option-cases (check budget s.spent)) [
        | inl k ↦ elim (Bool-cases (deps.is_cancelled s.world)) [
          | inl x ↦
              let eq : round deps budget start
                  ≡ stop deps budget (deps.partial_answer s.world) (some run_cancelled) cancelled
                      s =
                ground (arith, k, x) in
              subst (Outcome budget start) (sym eq) (
                stop-Outcome deps budget (deps.partial_answer s.world) (some run_cancelled)
                  cancelled start s (λ _ _ h. h) (can-state running cancelled s.sm e refl))
          | inr x ↦ elim (Bool-cases (deps.is_paused s.world)) [
            | inl y ↦
                let eq : round deps budget start ≡ stop deps budget none none paused s =
                  ground (arith, k, x, y) in
                subst (Outcome budget start) (sym eq) (
                  stop-Outcome deps budget none none paused start s (λ _ _ h. h)
                    (can-state running paused s.sm e refl))
            | inr y ↦
                let t = touched deps budget s in
                let eq : round deps budget start
                    ≡ (call_llm deps budget budget.max_retries >>= take_result deps budget) t =
                  ground (arith, k, x, y) in
                subst (Outcome budget start) (sym eq)
                  (ask-Outcome start t (λ _ _ h. h) e refl (check-none budget s.spent k))
          ]
        ]
        | inr (why, k) ↦
            let eq : round deps budget start
                ≡ stop deps budget none (some budget_exceeded) timeout s =
              ground (arith, k) in
            subst (Outcome budget start) (sym eq) (
              stop-Outcome deps budget none (some budget_exceeded) timeout start s (λ _ _ h. h)
                (can-state running timeout s.sm e refl))
      ]
