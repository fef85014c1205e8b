-- ===== src/Runtime/State/Tests.antt =====
-- The theorems on the state machine of a run at concrete inputs.
use new_rag.Base.{◌≡◌, refl, some, none, true, false, List, [], ◌∷◌}
use new_rag.Runtime.State.{
  AgentState, planning, running, waiting_tool, completed, paused, cancelled, in_terminal_states,
  StateMachine, is_terminal,
}
use new_rag.Runtime.State.Trace.{Call}

abbrev to : AgentState → Call
to s = record { target = s; guard = none; reason = 0 }

abbrev calls : List Call
calls =
    to planning
    ∷ to completed
    ∷ to running
    ∷ record { target = paused; guard = some false; reason = 1 }
    ∷ to waiting_tool
    ∷ []

abbrev ended : StateMachine
ended = record { state = cancelled; history = [] }

ended-is_terminal : is_terminal ended ≡ true
unfolding is_terminal in_terminal_states
ended-is_terminal = refl

paused-is_live : in_terminal_states paused ≡ false
unfolding in_terminal_states
paused-is_live = refl
