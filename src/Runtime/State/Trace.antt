-- ===== src/Runtime/State/Trace.antt =====
-- The audit history of `StateMachine` (app/agent/runtime/state.py) under any sequence of calls.
use new_rag.Base.{◌≡◌, refl, Bool, true, Option, List, [], ◌∷◌, ◌++◌, arith, Ident}
use new_rag.Runtime.State.{
  AgentState, allowed, mem_state, Entry, StateMachine, new, can, transition,
}

-- A history is a walk in the table: each entry starts where the one before it ended.
abbrev pub IsWalk : AgentState → List Entry → AgentState → Type 0
IsWalk s [] t = s ≡ t
IsWalk s (e ∷ es) t =
    (e.source ≡ s) × (mem_state e.target (allowed s) ≡ true) × IsWalk e.target es t

IsWalk-snoc :
    (s : AgentState) (es : List Entry) (t u : AgentState) (reason : Ident)
    → IsWalk s es t
    → mem_state u (allowed t) ≡ true
    → IsWalk s (es ++ record { source = t; target = u; reason = reason } ∷ []) u
IsWalk-snoc s [] t u reason w e = ground arith
IsWalk-snoc s (x ∷ es) t u reason w e = (w.0, w.1, IsWalk-snoc x.target es t u reason w.2 e)

transition-IsWalk :
    (s : AgentState) (m : StateMachine) (target : AgentState) (guard : Option Bool) (reason : Ident)
    → IsWalk s m.history m.state
    → let m' = (transition m target guard reason).1 in IsWalk s m'.history m'.state
unfolding transition can
transition-IsWalk s m target guard reason w =
    ground (arith, IsWalk-snoc s m.history m.state target reason w)

-- The arguments of a call of `transition`.
pub record Call : Type 0 where
  pub target : AgentState
  pub guard : Option Bool
  pub reason : Ident

pub run : StateMachine → List Call → StateMachine
run m [] = m
run m (c ∷ cs) = run (transition m c.target c.guard c.reason).1 cs

run_from-IsWalk :
    (s : AgentState) (m : StateMachine) (cs : List Call)
    → IsWalk s m.history m.state
    → IsWalk s (run m cs).history (run m cs).state
unfolding run
run_from-IsWalk s m [] w = w
run_from-IsWalk s m (c ∷ cs) w =
    run_from-IsWalk s (transition m c.target c.guard c.reason).1 cs
      (transition-IsWalk s m c.target c.guard c.reason w)

-- After any calls of `transition` on a new machine, refused ones included, the history is a walk
-- along the table from the initial state to the current one.
pub run-IsWalk :
    (initial : AgentState) (cs : List Call)
    → IsWalk initial (run (new initial) cs).history (run (new initial) cs).state
unfolding new
run-IsWalk initial cs = run_from-IsWalk initial (new initial) cs refl
