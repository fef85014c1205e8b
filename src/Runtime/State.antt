-- ===== src/Runtime/State.antt =====
-- The state machine of a run (app/agent/runtime/state.py): `AgentState`, the table `_ALLOWED`,
-- `TERMINAL_STATES` and `StateMachine`. The `reason` of a transition is an identifier; a guard
-- is the Boolean that the callable returns.
pub mod Graph
pub mod Trace
mod Tests
use new_rag.Base.{
  Bool, true, false, ◌||◌, not, Option, none, some, List, [], ◌∷◌, ◌++◌, if◌then◌else◌, Ident,
  Result, ok, err, invalid_state_transition,
}
use mathlib.Core.Bool.{decide}

pub data AgentState : Type 0 where
  requested planning running waiting_tool observing reflecting completed failed : AgentState
  retrying cancelled timeout waiting_approval unknown paused : AgentState

pub AgentState-discrete : Discrete AgentState
AgentState-discrete = hlevel

-- `_ALLOWED[s]`
unfoldable pub allowed : AgentState → List AgentState
allowed requested = planning ∷ cancelled ∷ failed ∷ []
allowed planning = running ∷ retrying ∷ failed ∷ cancelled ∷ timeout ∷ []
allowed running =
    waiting_tool ∷ reflecting ∷ waiting_approval ∷ timeout ∷ cancelled ∷ failed ∷ unknown ∷ paused
    ∷ []
allowed waiting_tool =
    observing ∷ waiting_approval ∷ cancelled ∷ timeout ∷ failed ∷ unknown ∷ paused ∷ []
allowed waiting_approval = running ∷ cancelled ∷ timeout ∷ failed ∷ []
allowed observing = reflecting ∷ failed ∷ cancelled ∷ timeout ∷ unknown ∷ paused ∷ []
allowed reflecting = running ∷ completed ∷ cancelled ∷ failed ∷ timeout ∷ paused ∷ []
allowed retrying = planning ∷ running ∷ waiting_tool ∷ failed ∷ cancelled ∷ timeout ∷ []
allowed completed = []
allowed failed = []
allowed cancelled = []
allowed timeout = []
allowed unknown = []
allowed paused = running ∷ []

-- `s in TERMINAL_STATES`
unfoldable pub in_terminal_states : AgentState → Bool
in_terminal_states completed = true
in_terminal_states failed = true
in_terminal_states cancelled = true
in_terminal_states timeout = true
in_terminal_states unknown = true
in_terminal_states _ = false

unfoldable pub mem_state : AgentState → List AgentState → Bool
unfolding AgentState-discrete decide
mem_state s [] = false
mem_state s (t ∷ ts) = decide (AgentState-discrete t s) || mem_state s ts

pub record Entry : Type 0 where
  pub source : AgentState
  pub target : AgentState
  pub reason : Ident

pub record StateMachine : Type 0 where
  pub state : AgentState
  pub history : List Entry

unfoldable pub new : AgentState → StateMachine
new initial = record { state = initial; history = [] }

unfoldable pub can : StateMachine → AgentState → Bool
unfolding mem_state allowed
can m target = mem_state target (allowed m.state)

-- `transition`: `none` is the absent guard; a refused call leaves the machine alone.
unfoldable pub transition :
    StateMachine → AgentState → Option Bool → Ident → Result AgentState × StateMachine
transition m target guard reason =
    if not (can m target)
    then (err invalid_state_transition, m)
    else if (elim guard [ none ↦ false | some g ↦ not g ])
    then (err invalid_state_transition, m)
    else (
      ok target,
      record {
        state = target;
        history = m.history ++ record { source = m.state; target = target; reason = reason } ∷ [];
      },
    )

unfoldable pub is_terminal : StateMachine → Bool
unfolding in_terminal_states
is_terminal m = in_terminal_states m.state
