-- ===== src/Runtime/Run/Ending.antt =====
-- What a run leaves behind (app/agent/runtime/runtime.py).
use new_rag.Base.{List, false, suc, ℕ, ◌+◌, ◌≤◌, ◌≡◌, refl, arith, Option, some, Result, ok, true}
use new_rag.Runtime.State.{allowed, mem_state, can, transition, running, new}
use new_rag.Runtime.Loop.{Deps, Checkpoint, LoopState}
use new_rag.Runtime.Run.{
  first_loop, Message, new, is_completed, unspent, written, initial_messages, to_result, RunInput,
  drive, goto, RunRow, RunResult, drive_and_finish, resume_run, execute_run, start_loop, restore,
  create_run, finish_run,
}
use new_rag.Runtime.Drive.{goto}
use mathlib.Core.Path.{sym, subst}
use new_rag.Runtime.Drive.Bounds.{IsAnswered, drive-returns}
use new_rag.Access.Budget.{ExecutionBudget, BudgetSpent}

-- A result that the row of the run repeats, the lock being released.
pub record IsFinished {W : Type 0} (deps : Deps W) (p : Option (Result RunResult) × RunRow × W)
    : Type 0 where
  pub result : RunResult
  pub world : W
  pub is_result : p.0 ≡ some (ok result)
  pub is_released : p.2 ≡ deps.release world
  pub same_state : p.1.state ≡ result.state
  pub same_answer : p.1.answer ≡ result.answer
  pub same_error : p.1.error ≡ result.error
  pub same_tokens_in : p.1.tokens_in ≡ result.tokens_in
  pub same_tokens_out : p.1.tokens_out ≡ result.tokens_out
  pub same_cost : p.1.cost ≡ result.cost
  pub is_finished : p.1.finished ≡ true

module _ {W : Type 0} (deps : Deps W) where
  pub start_loop-running :
      (ms : List Message) (spent : BudgetSpent) (row : RunRow) (w : W)
      → ((start_loop deps ms spent row w).sm.state ≡ running)
        × ((start_loop deps ms spent row w).spent ≡ spent)
  unfolding start_loop goto transition can allowed mem_state new
  start_loop-running ms spent row w = (refl, refl)

  drive_and_finish-IsFinished :
      (fuel : ℕ) (budget : ExecutionBudget) (row : RunRow) (s : LoopState W)
      → IsAnswered (drive deps budget fuel s)
      → IsFinished deps (drive_and_finish deps fuel budget row s)
  unfolding drive_and_finish finish_run
  drive_and_finish-IsFinished fuel budget row s (f, e, _) =
      let t = (drive deps budget fuel s).1 in
      let eq : drive_and_finish deps fuel budget row s ≡ (
        some (ok (to_result f.terminal t.spent f.answer f.error)),
        finish_run f.terminal f.answer f.error t.spent (written deps row t),
        deps.release t.world,
      ) =
        ground (arith, e) in
      subst (IsFinished deps) (sym eq) (record {
        result = to_result f.terminal t.spent f.answer f.error;
        world = t.world;
        is_result = refl;
        is_released = refl;
        same_state = refl;
        same_answer = refl;
        same_error = refl;
        same_tokens_in = refl;
        same_tokens_out = refl;
        same_cost = refl;
        is_finished = refl;
      })

  -- A run that gets its lock, with at least one unit of fuel for each step of its budget and one
  -- more, returns a result, its lock is released, and the row is finished with the state, the answer,
  -- the error, the tokens in and out and the cost of the result.
  pub execute_run-IsFinished :
      (fuel : ℕ) (request : RunInput) (budget : ExecutionBudget) (w : W)
      → (deps.acquire w).0 ≡ true
      → budget.max_steps ≤ fuel
      → IsFinished deps (execute_run deps (suc fuel) request budget w)
  unfolding execute_run
  execute_run-IsFinished fuel request budget w got le =
      let row = create_run request budget in
      let s = first_loop deps request budget (deps.acquire w).1 in
      let at =
        start_loop-running (initial_messages request.system_prompt request.history request.text)
          unspent row (deps.acquire w).1 in
      let eq : execute_run deps (suc fuel) request budget w
          ≡ drive_and_finish deps (suc fuel) budget row s =
        ground (arith, got) in
      subst (IsFinished deps) (sym eq) (
        drive_and_finish-IsFinished (suc fuel) budget row s (
          drive-returns deps budget fuel s at.0 (
            subst (λ (x : BudgetSpent). budget.max_steps ≤ fuel + x.steps) (sym at.1)
              (omega (arith, le)))))

  -- A run that is not completed, has a checkpoint and gets its lock, resumed with one unit of fuel for
  -- each step that the checkpoint leaves of its budget and one more, is finished in the same way: it
  -- returns a result, its lock is released, and its row repeats the state, the answer, the error, the
  -- tokens in and out and the cost of the result.
  pub resume_run-IsFinished :
      (fuel : ℕ) (row : RunRow) (cp : Checkpoint) (w : W)
      → is_completed row.state ≡ false
      → row.checkpoint ≡ some cp
      → (deps.acquire (deps.clear_pause w)).0 ≡ true
      → row.budget.max_steps ≤ fuel + cp.steps
      → IsFinished deps (resume_run deps (suc fuel) row w)
  unfolding resume_run restore
  resume_run-IsFinished fuel row cp w ne has got le =
      let w' = (deps.acquire (deps.clear_pause w)).1 in
      let s = start_loop deps cp.messages (restore cp) row w' in
      let at = start_loop-running cp.messages (restore cp) row w' in
      let eq : resume_run deps (suc fuel) row w
          ≡ drive_and_finish deps (suc fuel) row.budget row s =
        ground (arith, ne, has, got) in
      subst (IsFinished deps) (sym eq) (
        drive_and_finish-IsFinished (suc fuel) row.budget row s (
          drive-returns deps row.budget fuel s at.0
            (subst (λ (x : BudgetSpent). row.budget.max_steps ≤ fuel + x.steps) (sym at.1) le)))
