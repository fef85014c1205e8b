-- ===== src/Runtime/Recovery.antt =====
-- The writes of a run's state with their version (app/agent/runtime/store.py, `set_state` and
-- `set_state_cas`) and the recovery of runs whose executor is gone (app/agent/runtime/recovery.py).
pub mod Versions
use new_rag.Base.{
  ℕ, ◌+◌, ◌==◌, ◌&&◌, not, Bool, true, false, Option, none, some, List, [], ◌∷◌, Ident,
  if◌then◌else◌, is_some, Code, recovery_abandoned,
}
use new_rag.Base.Table.{select, first, update}
use new_rag.Runtime.State.{AgentState, planning, running, waiting_tool, failed}

-- The columns of `AgentRunRow` that recovery reads and writes.
pub record StateRow : Type 0 where
  pub run_id : Ident
  pub state : AgentState
  pub version : ℕ
  pub has_checkpoint : Bool
  pub error : Option Code

abbrev pub Runs : Type 0
Runs = List StateRow

abbrev pub at_run : Ident → StateRow → Bool
at_run run_id r = r.run_id == run_id

unfoldable pub get_run : Ident → Runs → Option StateRow
get_run run_id rows = first (select (at_run run_id) rows)

unfoldable pub set_state : Ident → AgentState → Runs → Runs
set_state run_id state rows =
    update (at_run run_id) (λ r. record r { state = state; version = r.version + 1 }) rows

abbrev pub at_version : Ident → ℕ → StateRow → Bool
at_version run_id expected r = r.run_id == run_id && r.version == expected

-- One UPDATE, and whether it has hit a row.
unfoldable pub set_state_cas : Ident → AgentState → ℕ → Runs → Bool × Runs
set_state_cas run_id state expected rows = (
  is_some (first (select (at_version run_id expected) rows)),
  update (at_version run_id expected) (λ r. record r { state = state; version = expected + 1 })
      rows,
)

-- `finish_run` of a recovered run; the tokens, the cost and the time that it also writes are left out.
unfoldable pub abandon : Ident → Runs → Runs
abandon run_id rows =
    update (at_run run_id) (λ r. record r { state = failed; error = some recovery_abandoned }) rows

-- `STALE_STATES`
unfoldable pub in_stale_states : AgentState → Bool
in_stale_states planning = true
in_stale_states running = true
in_stale_states waiting_tool = true
in_stale_states _ = false

unfoldable pub stale_run_ids : (Ident → Bool) → Runs → List Ident
stale_run_ids is_expired [] = []
stale_run_ids is_expired (r ∷ rs) =
    let rest = stale_run_ids is_expired rs in
    if in_stale_states r.state && is_expired r.run_id then r.run_id ∷ rest else rest

-- The loop of `recover_stale_runs`.
unfoldable pub recover_all : List Ident → Runs → List Ident × Runs
recover_all [] rows = ([], rows)
recover_all (id ∷ ids) rows = elim (get_run id rows) [
  | none ↦ let (recovered, rows') = recover_all ids rows in (id ∷ recovered, rows')
  | some full ↦
      let kept = recover_all ids rows in
      let (won, swapped) = set_state_cas id failed full.version rows in
      let lost = recover_all ids swapped in
      let (recovered, rows') = recover_all ids (abandon id swapped) in
      if full.has_checkpoint then kept else if not won then lost else (id ∷ recovered, rows')
]

unfoldable pub recover_stale_runs : (Ident → Bool) → Runs → List Ident × Runs
recover_stale_runs is_expired rows = recover_all (stale_run_ids is_expired rows) rows
