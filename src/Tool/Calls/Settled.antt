-- ===== src/Tool/Calls/Settled.antt =====
-- A tool call that has an observation is settled for its run (app/agent/runtime/runtime.py).
use mathlib.Core.Path.{subst}
use new_rag.Base.{
  ℕ, ◌≡◌, ◌==◌, ◌∙◌, Bool, true, false, Option, some, if◌then◌else◌, is_some, refl, sym, ap, arith,
  inl, inr, Bool-cases, Option-cases, Result-cases, Ident, Result, ok, Code,
}
use new_rag.Base.Table.{first, select, first-select-append}
use new_rag.Tool.Execute.{
  ToolDefinition, ToolResult, Results, get_result, set_result, execute_tool, run_tool,
}
use new_rag.Tool.Pipeline.{ToolCallRequest, ToolRuntime, run, execute}
use new_rag.Tool.Pipeline.Gates.{Stage, refused, runs, execute-Stage}
use new_rag.Tool.Calls.{
  CallRow, CallStatus, Session, find_call, has_call, insert_tool_call, finalize_tool_call,
}

-- A result that is no success is stored for a call.
abbrev pub IsFailed : Ident → Results → Type 0
IsFailed k results = (r : ToolResult) × (get_result k results ≡ some r) × (r.ok ≡ false)

get_result-set_result :
    (k j : Ident) (r : ToolResult) (results : Results)
    → get_result k (set_result j r results) ≡ (if j == k then some r else get_result k results)
unfolding get_result set_result
get_result-set_result k j r results = refl

module _ {W : Type 0} (hour : ℕ) (limit_key : Ident → Ident → Ident → Ident)
    (size : Option Ident → ℕ) (max_output : Option ℕ) where
  -- The stored results after a run of a tool.
  run-results :
      (now : ℕ) (cancelled : Bool) (tool : ToolDefinition W) (c : ToolCallRequest)
      (t : ToolRuntime W)
      → (run hour limit_key size max_output now cancelled tool c t).1.results
        ≡ (execute_tool tool c.args c.call_id cancelled (t.results, t.world)).1.0
  unfolding run
  run-results now cancelled tool c t =
      elim (Result-cases (execute_tool tool c.args c.call_id cancelled (t.results, t.world)).0) [
        | inl (r, e) ↦ ground (arith, e)
        | inr (code, e) ↦ ground (arith, e)
      ]

  execute_tool-other :
      (tool : ToolDefinition W) (args j k : Ident) (cancelled : Bool) (results : Results) (w : W)
      → (j == k) ≡ false
      → get_result k (execute_tool tool args j cancelled (results, w)).1.0 ≡ get_result k results
  unfolding execute_tool
  execute_tool-other tool args j k cancelled results w h =
      elim (Result-cases (run_tool tool.retry tool.fn args w).0) [
        | inl (r, e) ↦ ground (arith, e, get_result-set_result k j r results, h)
        | inr (code, e) ↦ ground (arith, e)
      ]

  run-replays :
      (now : ℕ) (cancelled : Bool) (tool : ToolDefinition W) (c : ToolCallRequest)
      (t : ToolRuntime W) (r : ToolResult)
      → get_result c.call_id t.results ≡ some r
      → r.ok ≡ false
      → ((run hour limit_key size max_output now cancelled tool c t).0 ≡ ok r)
        × ((run hour limit_key size max_output now cancelled tool c t).1.results ≡ t.results)
  unfolding run execute_tool
  run-replays now cancelled tool c t r h f = (ground (arith, h, f), ground (arith, h, f))

  -- A call of the runtime for a failed key does not succeed, and keeps the key failed.
  pub execute-IsFailed :
      (now : ℕ) (new_id k : Ident) (cancelled : Bool) (c : ToolCallRequest) (s : ToolRuntime W)
      → IsFailed k s.results
      → let (r, t) = execute hour limit_key size max_output now new_id cancelled c s in
        IsFailed k t.results × ((x : ToolResult) → c.call_id ≡ k → r ≡ ok x → x.ok ≡ false)
  execute-IsFailed now new_id k cancelled c s (r, found, f) =
      go (execute hour limit_key size max_output now new_id cancelled c s)
        (execute-Stage hour limit_key size max_output now new_id cancelled c s)
    where
      go :
          (p : Result ToolResult × ToolRuntime W)
          → Stage hour limit_key size max_output now cancelled c s p
          → IsFailed k p.1.results × ((x : ToolResult) → c.call_id ≡ k → p.0 ≡ ok x → x.ok ≡ false)
      go p (refused {t} {code} _ same) =
          ((r, ap (get_result k) same ∙ found, f), λ x e h. absurd (ground (arith, h)))
      go p (runs tool t _ _ same) =
          let found' : get_result k t.results ≡ some r = ap (get_result k) same ∙ found in
          elim (Bool-cases (c.call_id == k)) [
            | inl hit ↦
                let id : c.call_id ≡ k = ground (arith, hit) in
                let (answer, kept) =
                  run-replays now cancelled tool c t r
                    (subst (λ j. get_result j t.results ≡ some r) (sym id) found') f in
                ((r, ap (get_result k) kept ∙ found', f), λ x _ h. ground (arith, answer, h, f))
            | inr miss ↦ (
              (
                r,
                ap (get_result k) (run-results now cancelled tool c t)
                    ∙ execute_tool-other tool c.args c.call_id k cancelled t.results t.world miss
                    ∙ found',
                f,
              ),
              λ x e _. absurd (ground (arith, miss, e)),
            )
          ]

module _ {W : Type 0} where
  -- The stored results after a call is finalized.
  pub finalize_tool_call-IsFailed :
      (k j : Ident) (r : ToolResult) (status : CallStatus) (code : Option Code) (s : Session W)
      → IsFailed k s.runtime.results
      → (j ≡ k → r.ok ≡ false)
      → IsFailed k (finalize_tool_call j r status code s).runtime.results
  unfolding finalize_tool_call
  finalize_tool_call-IsFailed k j r status code s w h = elim (Option-cases (find_call j s.rows)) [
    | inl n ↦
        let eq : (finalize_tool_call j r status code s).runtime.results ≡ s.runtime.results =
          ground (arith, n) in
        subst (IsFailed k) (sym eq) w
    | inr (row, e) ↦
        let eq : (finalize_tool_call j r status code s).runtime.results
            ≡ set_result j r s.runtime.results =
          ground (arith, e) in
        subst (IsFailed k) (sym eq) (elim (Bool-cases (j == k)) [
          | inl hit ↦ (
            r,
            get_result-set_result k j r s.runtime.results ∙ ground (arith, hit),
            h (ground (arith, hit)),
          )
          | inr miss ↦
              (w.0, get_result-set_result k j r s.runtime.results ∙ ground (arith, miss, w.1), w.2)
        ])
  ]

  -- A call whose row is there is settled when it is finalized.
  pub finalize_tool_call-settles :
      (j : Ident) (r : ToolResult) (status : CallStatus) (code : Option Code) (s : Session W)
      → is_some (find_call j s.rows) ≡ true
      → get_result j (finalize_tool_call j r status code s).runtime.results ≡ some r
  unfolding finalize_tool_call
  finalize_tool_call-settles j r status code s h = elim (Option-cases (find_call j s.rows)) [
    | inl n ↦ absurd (ground (arith, n, h))
    | inr (row, e) ↦ ground (arith, e, get_result-set_result j j r s.runtime.results)
  ]

  pub insert_tool_call-found :
      (row : CallRow) (s : Session W)
      → is_some (find_call row.call_id (insert_tool_call row s).rows) ≡ true
  unfolding insert_tool_call find_call
  insert_tool_call-found row s =
      elim (Option-cases (first (select (has_call row.call_id) s.rows))) [
        | inl n ↦
            let hit = first-select-append (has_call row.call_id) s.rows row n (ground arith) in
            ground (arith, n, hit)
        | inr (x, e) ↦ ground (arith, e)
      ]

  pub insert_tool_call-runtime :
      (row : CallRow) (s : Session W) → (insert_tool_call row s).runtime ≡ s.runtime
  unfolding insert_tool_call
  insert_tool_call-runtime row s = elim (Option-cases (find_call row.call_id s.rows)) [
    | inl n ↦ ground (arith, n)
    | inr (x, e) ↦ ground (arith, e)
  ]
