-- ===== src/Tool/Pipeline/Replay.antt =====
-- A tool call that has answered is not executed again (app/tool/runtime.py and app/tool/registry.py);
-- within one call the tool may be tried several times.
use new_rag.Base.{
  inl, inr, Bool-cases, ◌==◌, ◌⊎◌, refl, err, Code, List, [], ◌∷◌, tool_execution_failed, Action, ℕ,
  ◌≡◌, ◌∙◌, ap, arith, Bool, Option, some, Ident, Result, ok,
}
use new_rag.Tool.Execute.{ToolDefinition, ToolResult, execute_tool, get_result, set_result}
use new_rag.Tool.Pipeline.{ToolCallRequest, ToolRuntime, run, execute}
use new_rag.Tool.Pipeline.Gates.{Stage, refused, runs, execute-Stage}

-- A call with its time, the id of an approval that it may create, and whether its run is cancelled.
pub record Called : Type 0 where
  pub now : ℕ
  pub new_id : Ident
  pub is_cancelled : Bool
  pub call : ToolCallRequest

module _ {W : Type 0} (hour : ℕ) (limit_key : Ident → Ident → Ident → Ident)
    (size : Option Ident → ℕ) (max_output : Option ℕ) where
  run-replay :
      (now : ℕ) (cancelled : Bool) (tool : ToolDefinition W) (c : ToolCallRequest) (r : ToolResult)
      (t : ToolRuntime W)
      → get_result c.call_id t.results ≡ some r
      → (run hour limit_key size max_output now cancelled tool c t).1.world ≡ t.world
  unfolding run execute_tool
  run-replay now cancelled tool c r t e = ground (arith, e)

  run-set :
      (now : ℕ) (cancelled : Bool) (tool : ToolDefinition W) (c : ToolCallRequest) (r : ToolResult)
      (t : ToolRuntime W)
      → (run hour limit_key size max_output now cancelled tool c t).0 ≡ ok r
      → get_result c.call_id (run hour limit_key size max_output now cancelled tool c t).1.results
        ≡ some r
  unfolding run execute_tool get_result set_result
  run-set now cancelled tool c r t e = ground (arith, e)

  set-after :
      (now : ℕ) (cancelled : Bool) (c : ToolCallRequest) (s : ToolRuntime W) (r : ToolResult)
      (p : Result ToolResult × ToolRuntime W)
      → Stage hour limit_key size max_output now cancelled c s p
      → p.0 ≡ ok r
      → get_result c.call_id p.1.results ≡ some r
  set-after now cancelled c s r p (refused _ _) e = absurd (ground (arith, e))
  set-after now cancelled c s r p (runs tool t _ _ _) e = run-set now cancelled tool c r t e

  pub replay-after :
      (now : ℕ) (cancelled : Bool) (c : ToolCallRequest) (s : ToolRuntime W) (r : ToolResult)
      (p : Result ToolResult × ToolRuntime W)
      → Stage hour limit_key size max_output now cancelled c s p
      → get_result c.call_id s.results ≡ some r
      → p.1.world ≡ s.world
  replay-after now cancelled c s r p (refused w _) e = w
  replay-after now cancelled c s r p (runs tool t _ w same) e =
      run-replay now cancelled tool c r t (ap (get_result c.call_id) same ∙ e) ∙ w

  run-keeps :
      (now : ℕ) (cancelled : Bool) (tool : ToolDefinition W) (c : ToolCallRequest) (i : Ident)
      (r : ToolResult) (t : ToolRuntime W)
      → get_result i t.results ≡ some r
      → get_result i (run hour limit_key size max_output now cancelled tool c t).1.results ≡ some r
  unfolding run execute_tool get_result set_result
  run-keeps now cancelled tool c i r t e = elim (Bool-cases (c.call_id == i)) [
    | inl k ↦
        let same : c.call_id ≡ i = ground arith in
        let hit : get_result c.call_id t.results ≡ some r = rw same e in ground (arith, e, hit)
    | inr k ↦ ground (arith, e, k)
  ]

  kept-after :
      (now : ℕ) (cancelled : Bool) (c : ToolCallRequest) (s : ToolRuntime W) (i : Ident)
      (r : ToolResult) (p : Result ToolResult × ToolRuntime W)
      → Stage hour limit_key size max_output now cancelled c s p
      → get_result i s.results ≡ some r
      → get_result i p.1.results ≡ some r
  kept-after now cancelled c s i r p (refused _ same) e = ap (get_result i) same ∙ e
  kept-after now cancelled c s i r p (runs tool t _ _ same) e =
      run-keeps now cancelled tool c i r t (ap (get_result i) same ∙ e)

  run-answers :
      (now : ℕ) (cancelled : Bool) (tool : ToolDefinition W) (c : ToolCallRequest) (r : ToolResult)
      (t : ToolRuntime W)
      → get_result c.call_id t.results ≡ some r
      → let answer = (run hour limit_key size max_output now cancelled tool c t).0 in
        (answer ≡ ok r) ⊎ (answer ≡ err tool_execution_failed)
  unfolding run execute_tool
  run-answers now cancelled tool c r t e = ground (arith, e)

  answer-after :
      (now : ℕ) (cancelled : Bool) (c : ToolCallRequest) (s : ToolRuntime W) (r : ToolResult)
      (p : Result ToolResult × ToolRuntime W)
      → Stage hour limit_key size max_output now cancelled c s p
      → get_result c.call_id s.results ≡ some r
      → (p.0 ≡ ok r) ⊎ ((code : Code) × (p.0 ≡ err code))
  answer-after now cancelled c s r p (refused {code = code} _ _) e = inr (code, refl)
  answer-after now cancelled c s r p (runs tool t _ _ same) e =
      elim (run-answers now cancelled tool c r t (ap (get_result c.call_id) same ∙ e)) [
        | inl a ↦ inl a
        | inr f ↦ inr (tool_execution_failed, f)
      ]

  abbrev pub execute_one : Called → Action (ToolRuntime W) ToolResult
  execute_one c = execute hour limit_key size max_output c.now c.new_id c.is_cancelled c.call

  unfoldable pub execute_all : List Called → ToolRuntime W → ToolRuntime W
  execute_all [] s = s
  execute_all (c ∷ cs) s = execute_all cs (execute_one c s).1

  execute_all-keeps :
      (cs : List Called) (s : ToolRuntime W) (i : Ident) (r : ToolResult)
      → get_result i s.results ≡ some r
      → get_result i (execute_all cs s).results ≡ some r
  unfolding execute_all
  execute_all-keeps [] s i r e = e
  execute_all-keeps (c ∷ cs) s i r e = execute_all-keeps cs (execute_one c s).1 i r (
      kept-after c.now c.is_cancelled c.call s i r (execute_one c s)
        (execute-Stage hour limit_key size max_output c.now c.new_id c.is_cancelled c.call s) e)

  -- After a call that has answered with a result, and any calls after it, a further call with the same
  -- id leaves the world as it is, and answers with that result or an error.
  pub execute-once :
      (c again : Called) (between : List Called) (s : ToolRuntime W) (r : ToolResult)
      → (execute_one c s).0 ≡ ok r
      → again.call.call_id ≡ c.call.call_id
      → let t = execute_all between (execute_one c s).1 in
        ((execute_one again t).1.world ≡ t.world)
        × (((execute_one again t).0 ≡ ok r)
            ⊎ ((code : Code) × ((execute_one again t).0 ≡ err code)))
  execute-once c again between s r e same =
      let p = execute_one c s in
      let t = execute_all between p.1 in
      let q = execute_one again t in
      let set =
        set-after c.now c.is_cancelled c.call s r p
          (execute-Stage hour limit_key size max_output c.now c.new_id c.is_cancelled c.call s) e in
      let kept = execute_all-keeps between p.1 c.call.call_id r set in
      let has = ap (λ i. get_result i t.results) same ∙ kept in
      let stage =
        execute-Stage hour limit_key size max_output again.now again.new_id again.is_cancelled
          again.call t in
      (
        replay-after again.now again.is_cancelled again.call t r q stage has,
        answer-after again.now again.is_cancelled again.call t r q stage has,
      )
