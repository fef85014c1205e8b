-- ===== src/Runtime/Recovery/Versions.antt =====
-- A version of a run is overwritten once (app/agent/runtime/store.py).
use new_rag.Base.{ℕ, ◌≡◌, ◌<◌, refl, arith, true, false, List, [], ◌∷◌, Ident, All}
use new_rag.Base.Table.{select, first, update}
use new_rag.Runtime.State.{AgentState}
use new_rag.Runtime.Recovery.{Runs, at_run, set_state, set_state_cas}

pub data Write : Type 0 where
  sets : Ident → AgentState → Write
  swaps : Ident → AgentState → ℕ → Write

unfoldable pub write_all : List Write → Runs → Runs
write_all [] rows = rows
write_all (sets run_id state ∷ ws) rows = write_all ws (set_state run_id state rows)
write_all (swaps run_id state expected ∷ ws) rows =
    write_all ws (set_state_cas run_id state expected rows).1

-- The version of the run is above `v`.
abbrev Above : Ident → ℕ → Runs → Type 0
Above run_id v rows = All (λ r. at_run run_id r ≡ true → v < r.version) rows

set_state-Above :
    (run_id other : Ident) (v : ℕ) (state : AgentState) (rows : Runs)
    → Above run_id v rows
    → Above run_id v (set_state other state rows)
unfolding set_state update
set_state-Above run_id other v state [] h = tt
set_state-Above run_id other v state (r ∷ rows) h =
    (λ e. ground (arith, h.0, e), set_state-Above run_id other v state rows h.1)

set_state_cas-Above :
    (run_id other : Ident) (v expected : ℕ) (state : AgentState) (rows : Runs)
    → Above run_id v rows
    → Above run_id v (set_state_cas other state expected rows).1
unfolding set_state_cas update
set_state_cas-Above run_id other v expected state [] h = tt
set_state_cas-Above run_id other v expected state (r ∷ rows) h =
    (λ e. ground (arith, h.0, e), set_state_cas-Above run_id other v expected state rows h.1)

write_all-Above :
    (run_id : Ident) (v : ℕ) (ws : List Write) (rows : Runs)
    → Above run_id v rows
    → Above run_id v (write_all ws rows)
unfolding write_all
write_all-Above run_id v [] rows h = h
write_all-Above run_id v (sets other state ∷ ws) rows h =
    write_all-Above run_id v ws (set_state other state rows)
      (set_state-Above run_id other v state rows h)
write_all-Above run_id v (swaps other state expected ∷ ws) rows h =
    write_all-Above run_id v ws (set_state_cas other state expected rows).1
      (set_state_cas-Above run_id other v expected state rows h)

Above-refused :
    (run_id : Ident) (v : ℕ) (state : AgentState) (rows : Runs)
    → Above run_id v rows
    → set_state_cas run_id state v rows ≡ (false, rows)
unfolding set_state_cas update first select
Above-refused run_id v state [] h = refl
Above-refused run_id v state (r ∷ rows) h =
    ground (arith, h.0, Above-refused run_id v state rows h.1)

written-Above :
    (run_id : Ident) (v : ℕ) (state : AgentState) (rows : Runs)
    → All (λ r. at_run run_id r ≡ true → r.version ≡ v) rows
    → Above run_id v (set_state run_id state rows)
      × Above run_id v (set_state_cas run_id state v rows).1
unfolding set_state set_state_cas update
written-Above run_id v state [] h = (tt, tt)
written-Above run_id v state (r ∷ rows) h =
    let rest = written-Above run_id v state rows h.1 in
    ((λ e. ground (arith, h.0, e), rest.0), (λ e. ground (arith, h.0, e), rest.1))

-- Where the row of a run has version `v`, a compare-and-set on `v` is refused, and changes nothing, after
-- the state was set or swapped from `v` once, through whatever writes follow on this run and on others:
-- a version is replaced by one writer only.
pub set_state_cas-sole :
    (run_id : Ident) (v : ℕ) (by_other state : AgentState) (ws : List Write) (rows : Runs)
    → All (λ r. at_run run_id r ≡ true → r.version ≡ v) rows
    → (set_state_cas run_id state v (write_all ws (set_state run_id by_other rows))
        ≡ (false, write_all ws (set_state run_id by_other rows)))
      × (set_state_cas run_id state v (write_all ws (set_state_cas run_id by_other v rows).1)
          ≡ (false, write_all ws (set_state_cas run_id by_other v rows).1))
set_state_cas-sole run_id v by_other state ws rows h =
    let above = written-Above run_id v by_other rows h in
    (
      Above-refused run_id v state (write_all ws (set_state run_id by_other rows))
          (write_all-Above run_id v ws (set_state run_id by_other rows) above.0),
      Above-refused run_id v state (write_all ws (set_state_cas run_id by_other v rows).1)
          (write_all-Above run_id v ws (set_state_cas run_id by_other v rows).1 above.1),
    )
