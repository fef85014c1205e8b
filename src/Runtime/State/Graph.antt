-- ===== src/Runtime/State/Graph.antt =====
-- The transition table as a graph: where it ends, what a terminal state refuses, which states a
-- run can reach, and from which it can be cancelled (app/agent/runtime/state.py).
use new_rag.Base.{
  ◌≡◌, refl, ◌↔◌, ◌⊎◌, inr, Bool, true, false, Option, [], arith, Ident, err,
  invalid_state_transition,
}
use new_rag.Runtime.State.{
  AgentState, requested, planning, running, waiting_tool, observing, reflecting, completed, failed,
  retrying, cancelled, timeout, waiting_approval, unknown, paused, allowed, mem_state,
  in_terminal_states, StateMachine, can, transition, is_terminal,
}

-- A state is in `TERMINAL_STATES` exactly when the table gives it no successor.
pub terminal_iff_no_successor : (s : AgentState) → (in_terminal_states s ≡ true) ↔ (allowed s ≡ [])
unfolding in_terminal_states allowed
terminal_iff_no_successor requested = (λ h. cc, λ h. cc)
terminal_iff_no_successor _ = (λ h. ground arith, λ h. ground arith)

-- A machine in a terminal state refuses every transition, under every guard, and stays as it is.
pub terminal_absorbs :
    (m : StateMachine) (target : AgentState) (guard : Option Bool) (reason : Ident)
    → is_terminal m ≡ true
    → transition m target guard reason ≡ (err invalid_state_transition, m)
unfolding transition is_terminal can
terminal_absorbs m target guard reason h = ground (arith, (terminal_iff_no_successor m.state).0)

cancellable :
    (s : AgentState)
    → (mem_state cancelled (allowed s) ≡ false) ↔ ((in_terminal_states s ≡ true) ⊎ (s ≡ paused))
unfolding mem_state allowed in_terminal_states
cancellable paused = (λ _. inr refl, λ _. refl)
cancellable requested = (λ h. cc, λ h. ground arith)
cancellable _ = (λ h. ground arith, λ h. ground arith)

-- A machine refuses to be cancelled exactly in the terminal states and in PAUSED.
pub cannot_cancel_iff :
    (m : StateMachine) → (can m cancelled ≡ false) ↔ ((is_terminal m ≡ true) ⊎ (m.state ≡ paused))
unfolding can is_terminal
cannot_cancel_iff m = cancellable m.state

-- The paths of the table.
pub data Reach (s : AgentState) : AgentState → Type 0 where
  here : Reach s s
  next : {t : AgentState} (u : AgentState) → Reach s t → mem_state u (allowed t) ≡ true → Reach s u

running_path : Reach requested running
unfolding mem_state allowed
running_path = next running (next planning here refl) refl

-- A requested run can come to every one of the states.
pub requested-Reach : (s : AgentState) → Reach requested s
unfolding mem_state allowed
requested-Reach requested = here
requested-Reach planning = next planning here refl
requested-Reach running = running_path
requested-Reach retrying = next retrying (next planning here refl) refl
requested-Reach observing = next observing (next waiting_tool running_path refl) refl
requested-Reach completed = next completed (next reflecting running_path refl) refl
requested-Reach s = next s running_path refl

Reach-trans : {s t u : AgentState} → Reach s t → Reach t u → Reach s u
Reach-trans r here = r
Reach-trans r (next v q e) = next v (Reach-trans r q) e

to_running : (s : AgentState) → in_terminal_states s ≡ false → Reach s running
unfolding mem_state allowed in_terminal_states
to_running requested h = running_path
to_running running h = here
to_running waiting_tool h = next running (next waiting_approval here refl) refl
to_running observing h = next running (next reflecting here refl) refl
to_running completed h = cc
to_running failed h = cc
to_running cancelled h = cc
to_running timeout h = cc
to_running unknown h = cc
to_running s h = next running here refl

-- No state but the terminal ones is a dead end: each can still come to COMPLETED.
pub live-Reach_completed : (s : AgentState) → in_terminal_states s ≡ false → Reach s completed
unfolding mem_state allowed
live-Reach_completed s h =
    Reach-trans (to_running s h) (next completed (next reflecting here refl) refl)
