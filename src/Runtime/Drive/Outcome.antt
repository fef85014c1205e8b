-- ===== src/Runtime/Drive/Outcome.antt =====
-- What a round can do, and the rounds that end (app/agent/runtime/runtime.py).
use mathlib.Core.Path.{subst}
use new_rag.Runtime.Rebuild.{append_results, append_step}
use new_rag.Runtime.Rebuild.Order.{IsRebuilt, IsRebuilt-last}
use new_rag.Base.{
  ◌+◌, ◌<◌, ◌≡◌, ◌⊎◌, refl, sym, arith, true, Option, some, none, List, [], ◌∷◌, ◌++◌, Ident, Code,
  Result, ok, err, agent_loop_detected,
}
use new_rag.Runtime.State.{
  AgentState, StateMachine, allowed, mem_state, can, transition, running, reflecting, completed,
  unknown,
}
use new_rag.Runtime.Context.{Message}
use new_rag.Runtime.Loop.{LlmResult, Deps, LoopState, Finish, finish}
use new_rag.Runtime.Drive.{step_row, goto, snapshot, add_step, stop, answer_with}
use new_rag.Access.Budget.{BudgetSpent, ExecutionBudget, check}

pub can-state :
    (source target : AgentState) (sm : StateMachine)
    → sm.state ≡ source
    → mem_state target (allowed source) ≡ true
    → can sm target ≡ true
unfolding can
can-state source target sm e h = rw (e) h

module _ {W : Type 0} where
  -- The state after a transition.
  abbrev pub moved : AgentState → LoopState W → LoopState W
  moved target s = record s {
    sm = record {
      state = target;
      history = s.sm.history ++ record { source = s.sm.state; target = target; reason = 0 } ∷ [];
    };
  }

  pub goto-moved :
      (target : AgentState) (s : LoopState W)
      → can s.sm target ≡ true
      → goto target s ≡ (ok tt, moved target s)
  unfolding goto transition
  goto-moved target s h = ground arith

pub check-none : (b : ExecutionBudget) (s : BudgetSpent) → check b s ≡ none → s.steps < b.max_steps
unfolding check
check-none b s k = ground arith

-- What the steps tell of the messages, they still tell.
abbrev pub Keeps : {W : Type 0} → LoopState W → LoopState W → Type 0
Keeps s t =
    (f : Ident → Ident) (base : List Message)
    → IsRebuilt f base s.messages s.steps s.spent.steps
    → IsRebuilt f base t.messages t.steps t.spent.steps

-- What a round does to the count of the steps and the machine: it goes on with a running machine, it
-- ends in the machine's state, or it raises where UNKNOWN can follow, or because of a loop.
pub data Outcome {W : Type 0} (budget : ExecutionBudget) (s : LoopState W)
    : Result (Option Finish) × LoopState W → Type 0 where
  goes_on :
      {t : LoopState W}
      → t.sm.state ≡ running
      → t.stored_state ≡ running
      → t.spent.steps ≡ s.spent.steps + 1
      → s.spent.steps < budget.max_steps
      → t.checkpoint ≡ some (snapshot (some t.spent.steps) t)
      → Keeps s t
      → Outcome budget s (ok none, t)
  ends :
      {t : LoopState W} {f : Finish}
      → f.terminal ≡ t.sm.state
      → Keeps s t
      → Outcome budget s (ok (some f), t)
  raises :
      {t : LoopState W} {c : Code}
      → (can t.sm unknown ≡ true) ⊎ (c ≡ agent_loop_detected)
      → Outcome budget s (err c, t)

module _ {W : Type 0} (deps : Deps W) (budget : ExecutionBudget) where
  pub stop-Outcome :
      (answer : Option Ident) (error : Option Code) (target : AgentState) (start s : LoopState W)
      → Keeps start s
      → can s.sm target ≡ true
      → Outcome budget start (stop deps budget answer error target s)
  unfolding stop
  stop-Outcome answer error target start s k h =
      let eq : stop deps budget answer error target s
          ≡ (ok (some (finish answer error target)), moved target s) =
        ground (arith, goto-moved target s h) in
      subst (Outcome budget start) (sym eq) (ends {t = moved target s} refl k)

  pub answer_with-Outcome :
      (result : LlmResult) (start s : LoopState W)
      → Keeps start s
      → s.sm.state ≡ running
      → Outcome budget start (answer_with deps budget result s)
  unfolding answer_with allowed mem_state append_step append_results
  answer_with-Outcome result start s k e =
      let s1 = moved reflecting s in
      let s2 = moved completed s1 in
      let g1 = goto-moved reflecting s (can-state running reflecting s.sm e refl) in
      let g2 = goto-moved completed s1 (can-state reflecting completed s1.sm refl refl) in
      let eq : answer_with deps budget result s ≡ (
        ok (some (finish (some result.content) none completed)),
        add_step (step_row completed result [] [] s2) s2,
      ) =
        ground (arith, g1, g2) in
      subst (Outcome budget start) (sym eq) (
        ends {t = add_step (step_row completed result [] [] s2) s2} refl (λ f base h.
          IsRebuilt-last f base s.messages s.steps s.spent.steps (step_row completed result [] [] s)
            (k f base h) (omega arith)))
