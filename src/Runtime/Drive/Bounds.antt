-- ===== src/Runtime/Drive/Bounds.antt =====
-- The loop of a run ends, and its retries are bounded (app/agent/runtime/runtime.py).
use mathlib.Core.Path.{ap}
use new_rag.Runtime.Rebuild.Order.{IsRebuilt}
use new_rag.Runtime.Context.{Message}
use new_rag.Base.{
  List, Ident, tool_timeout_unknown, is_some, agent_loop_detected, Option, ℕ, zero, suc, ◌+◌, ◌≤◌,
  ◌<◌, ◌≡◌, ◌⊎◌, inl, inr, refl, arith, true, none, some, Result, ok, Code, tool_timeout,
  run_cancelled, approval_required,
}
use new_rag.Runtime.State.{failed, waiting_approval, cancelled, can, running, unknown}
use new_rag.Runtime.Loop.{Deps, LoopState, Finish}
use new_rag.Runtime.Drive.{one_retry, finish, settle, handle, drive, round, call_llm}
use new_rag.Runtime.Drive.Rounds.{round-Outcome}
use new_rag.Runtime.Drive.Outcome.{Outcome, goes_on, ends, raises, goto-moved}
use new_rag.Access.Budget.{ExecutionBudget}

-- An answered run: its state is the machine's, or it carries an error.
abbrev pub IsAnswered : {W : Type 0} → Option (Result Finish) × LoopState W → Type 0
IsAnswered p =
    (f : Finish) × (p.0 ≡ some (ok f)) × ((f.terminal ≡ p.1.sm.state) ⊎ (is_some f.error ≡ true))

abbrev pub Rebuilt : {W : Type 0} → (Ident → Ident) → List Message → LoopState W → Type 0
Rebuilt g base s = IsRebuilt g base s.messages s.steps s.spent.steps

module _ {W : Type 0} (deps : Deps W) (budget : ExecutionBudget) where
  -- An error of a round becomes a result.
  handle-ok :
      (c : Code) (s : LoopState W)
      → (can s.sm unknown ≡ true) ⊎ (c ≡ agent_loop_detected)
      → (f : Finish) × ((handle deps budget c s).0 ≡ ok f) × (is_some f.error ≡ true)
  unfolding handle
  handle-ok tool_timeout s (inl h) = (
    finish none (some tool_timeout_unknown) unknown,
    ground (arith, goto-moved unknown s h),
    refl,
  )
  handle-ok tool_timeout s (inr h) = absurd (ground (arith, h))
  handle-ok run_cancelled s h =
      (finish (deps.partial_answer s.world) (some run_cancelled) cancelled, refl, refl)
  handle-ok approval_required s h =
      (finish none (some approval_required) waiting_approval, refl, refl)
  handle-ok c s h = (finish none (some c) failed, refl, refl)

  settle-IsAnswered :
      (again : LoopState W → Option (Result Finish) × LoopState W) (s : LoopState W)
      (p : Result (Option Finish) × LoopState W)
      → ((t : LoopState W)
          → t.sm.state ≡ running
          → t.spent.steps ≡ s.spent.steps + 1
          → s.spent.steps < budget.max_steps
          → IsAnswered (again t))
      → Outcome budget s p
      → IsAnswered (settle deps budget again p)
  unfolding settle
  settle-IsAnswered again s p next (goes_on {t = t} e _ n lt _ _) = next t e n lt
  settle-IsAnswered again s p next (ends {f = f} e _) = (f, refl, inl e)
  settle-IsAnswered again s p next (raises {t = t} {c = c} h) =
      let (f, eq, e) = handle-ok c t h in (f, ap some eq, inr e)

  -- The loop of a running machine, with one unit of fuel for each step that the budget leaves and one
  -- more, returns a result: it ends, no refused transition leaves it, and the result has the state of
  -- the machine or an error.
  pub drive-returns :
      (fuel : ℕ) (s : LoopState W)
      → s.sm.state ≡ running
      → budget.max_steps ≤ fuel + s.spent.steps
      → IsAnswered (drive deps budget (suc fuel) s)
  unfolding drive
  drive-returns zero s e le =
      settle-IsAnswered (drive deps budget zero) s (round deps budget s)
        (λ t _ _ lt. absurd (ground (arith, le, lt))) (round-Outcome deps budget s e)
  drive-returns (suc fuel) s e le =
      settle-IsAnswered (drive deps budget (suc fuel)) s (round deps budget s)
        (λ t e' n _. drive-returns fuel t e' (ground (arith, n, le)))
        (round-Outcome deps budget s e)

  -- A call of the model with `n` retries allowed counts at most `n + 1` failures that are retried,
  -- and none where the answer is streamed.
  pub call_llm-retries :
      (n : ℕ) (s : LoopState W)
      → ((call_llm deps budget n s).1.spent.retries ≤ s.spent.retries + n + 1)
        × (deps.streaming ≡ true → (call_llm deps budget n s).1.spent.retries ≡ s.spent.retries)
  unfolding call_llm
  call_llm-retries zero s = ground arith
  call_llm-retries (suc n) s = ground (
    arith,
    call_llm-retries n
        (one_retry deps budget (record s { world = (deps.complete s.messages s.world).1 })),
  )

  handle-error :
      (c : Code) (s : LoopState W) (f : Finish)
      → (handle deps budget c s).0 ≡ ok f
      → is_some f.error ≡ true
  unfolding handle
  handle-error c s f h = ground (arith, h)

  settle-IsRebuilt :
      (again : LoopState W → Option (Result Finish) × LoopState W) (g : Ident → Ident)
      (base : List Message) (fin : Finish) (s : LoopState W)
      (p : Result (Option Finish) × LoopState W)
      → fin.error ≡ none
      → (settle deps budget again p).0 ≡ some (ok fin)
      → ((t : LoopState W)
          → t.sm.state ≡ running
          → (again t).0 ≡ some (ok fin)
          → Rebuilt g base t
          → Rebuilt g base (again t).1)
      → Rebuilt g base s
      → Outcome budget s p
      → Rebuilt g base (settle deps budget again p).1
  unfolding settle
  settle-IsRebuilt again g base fin s p none_e e next told (goes_on {t = t} st _ _ _ _ k) =
      next t st e (k g base told)
  settle-IsRebuilt again g base fin s p none_e e next told (ends _ k) = k g base told
  settle-IsRebuilt again g base fin s p none_e e next told (raises {t = t} {c = c} _) =
      absurd (ground (arith, handle-error c t fin (ground (arith, e)), none_e))

  -- The steps of a run that ends without an error tell all its messages.
  pub drive-IsRebuilt :
      (fuel : ℕ) (g : Ident → Ident) (base : List Message) (fin : Finish) (s : LoopState W)
      → s.sm.state ≡ running
      → fin.error ≡ none
      → (drive deps budget fuel s).0 ≡ some (ok fin)
      → Rebuilt g base s
      → Rebuilt g base (drive deps budget fuel s).1
  unfolding drive
  drive-IsRebuilt zero g base fin s st none_e e told = told
  drive-IsRebuilt (suc fuel) g base fin s st none_e e told =
      settle-IsRebuilt (drive deps budget fuel) g base fin s (round deps budget s) none_e e
        (λ t st' e' told'. drive-IsRebuilt fuel g base fin t st' none_e e' told') told
        (round-Outcome deps budget s st)
