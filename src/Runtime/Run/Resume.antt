-- ===== src/Runtime/Run/Resume.antt =====
-- What a checkpoint and the steps keep of a run (app/agent/runtime/runtime.py, `resume_run` and
-- `rebuild_messages_from_run`).
use mathlib.Core.Path.{subst}
use new_rag.Base.{
  ℕ, ◌≤◌, ◌≡◌, ◌∙◌, refl, ap, sym, arith, Option, none, some, Result, ok, Ident, List, length,
}
use new_rag.Runtime.State.{new, transition, can, allowed, mem_state, running}
use new_rag.Runtime.Context.{Message, apply_context_budget, total_tokens}
use new_rag.Runtime.Loop.{Deps, Checkpoint, LoopState, Finish}
use new_rag.Runtime.Drive.{goto, round, drive, snapshot}
use new_rag.Runtime.Drive.Rounds.{round-Outcome}
use new_rag.Runtime.Drive.Outcome.{Outcome, goes_on, ends, raises}
use new_rag.Runtime.Drive.Bounds.{Rebuilt, drive-IsRebuilt}
use new_rag.Runtime.Rebuild.{initial_messages, sort_steps, append_steps, rebuild_messages_from_run}
use new_rag.Runtime.Rebuild.Order.{IsOrdered}
use new_rag.Runtime.Run.{first_loop, RunRow, RunInput, start_loop, restore, create_run, unspent}
use new_rag.Runtime.Run.Ending.{start_loop-running}
use new_rag.Access.Budget.{ExecutionBudget, BudgetSpent}

-- Messages that the context budget of the loop leaves alone.
abbrev pub Fits : {W : Type 0} → Deps W → List Message → Type 0
Fits deps ms = (length ms ≤ 10) × (total_tokens deps.tokens deps.summary_text ms ≤ 4000)

Outcome-checkpoint :
    {W : Type 0} {budget : ExecutionBudget} {s t : LoopState W}
    (p : Result (Option Finish) × LoopState W)
    → Outcome budget s p
    → p ≡ (ok none, t)
    → (t.checkpoint ≡ some (snapshot (some t.spent.steps) t)) × (t.sm.state ≡ running)
Outcome-checkpoint {W = W} p (goes_on {t = u} st _ _ _ cp _) e =
    subst
      (λ (t : LoopState W).
        (t.checkpoint ≡ some (snapshot (some t.spent.steps) t)) × (t.sm.state ≡ running))
      (ap (λ q. q.1) e) (cp, st)
Outcome-checkpoint p (ends _ _) e = absurd (ground (arith, e))
Outcome-checkpoint p (raises _) e = absurd (ground (arith, e))

module _ {W : Type 0} (deps : Deps W) where
  apply_context_budget-id :
      (ms : List Message)
      → Fits deps ms
      → apply_context_budget deps.tokens deps.summary_text 4000 5 ms ≡ ms
  unfolding apply_context_budget
  apply_context_budget-id ms h = ground (arith, h)

  start_loop-messages :
      (ms : List Message) (spent : BudgetSpent) (row : RunRow) (w : W)
      → Fits deps ms
      → (start_loop deps ms spent row w).messages ≡ ms
  unfolding start_loop goto transition can allowed mem_state new
  start_loop-messages ms spent row w h = apply_context_budget-id ms h

  -- After a round of a running machine that goes on, a run that is resumed from the checkpoint starts
  -- its loop with the messages of the round's end, which the context budget is assumed to leave alone,
  -- and with its spending, the clock and the count of retries being set back.
  pub round-restore :
      (budget : ExecutionBudget) (s t : LoopState W) (row : RunRow) (w : W)
      → s.sm.state ≡ running
      → round deps budget s ≡ (ok none, t)
      → Fits deps t.messages
      → (cp : Checkpoint) × (t.checkpoint ≡ some cp)
        × (cp.current_step ≡ some t.spent.steps)
        × ((start_loop deps cp.messages (restore cp) row w).messages ≡ t.messages)
        × ((start_loop deps cp.messages (restore cp) row w).spent
            ≡ record t.spent { elapsed = 0; retries = 0 })
        × ((start_loop deps cp.messages (restore cp) row w).sm.state ≡ t.sm.state)
  unfolding restore
  round-restore budget s t row w st e fits =
      let cp = snapshot (some t.spent.steps) t in
      let (saved, at) =
        Outcome-checkpoint {t = t} (round deps budget s) (round-Outcome deps budget s st) e in
      let begun = start_loop-running deps t.messages (restore cp) row w in
      (
        cp,
        saved,
        refl,
        start_loop-messages t.messages (restore cp) row w fits,
        begun.1,
        begun.0 ∙ sym at,
      )

  first_loop-IsRebuilt :
      (g : Ident → Ident) (request : RunInput) (budget : ExecutionBudget) (w : W)
      → Fits deps (initial_messages request.system_prompt request.history request.text)
      → Rebuilt g
          (initial_messages request.system_prompt request.history request.text)
          (first_loop deps request budget w)
  unfolding start_loop goto transition can allowed mem_state new create_run sort_steps append_steps
      IsOrdered
  first_loop-IsRebuilt g request budget w fits =
      let ms = initial_messages request.system_prompt request.history request.text in
      record { rebuilt = sym (apply_context_budget-id ms fits); ordered = tt; bounded = tt }

  -- Where the context budget leaves the first messages of a run alone, and its loop ends without an
  -- error, the run being completed or paused, `rebuild_messages_from_run` makes the loop's messages
  -- again from the input and the steps.
  pub rebuild-drive :
      (fuel : ℕ) (g : Ident → Ident) (request : RunInput) (budget : ExecutionBudget) (fin : Finish)
      (w : W)
      → Fits deps (initial_messages request.system_prompt request.history request.text)
      → (drive deps budget fuel (first_loop deps request budget w)).0 ≡ some (ok fin)
      → fin.error ≡ none
      → rebuild_messages_from_run g request.system_prompt request.history request.text
          (drive deps budget fuel (first_loop deps request budget w)).1.steps
        ≡ (drive deps budget fuel (first_loop deps request budget w)).1.messages
  unfolding rebuild_messages_from_run
  rebuild-drive fuel g request budget fin w fits e none_e =
      let ms = initial_messages request.system_prompt request.history request.text in
      let begun = start_loop-running deps ms unspent (create_run request budget) w in
      (drive-IsRebuilt deps budget fuel g ms fin (first_loop deps request budget w) begun.0 none_e e
        (first_loop-IsRebuilt g request budget w fits)).rebuilt
