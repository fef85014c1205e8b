-- ===== src/Tool/Calls/Final.antt =====
-- A tool call that has failed stays failed for its run (app/agent/runtime/runtime.py).
use mathlib.Core.Path.{subst}
use new_rag.Base.{
  ◌⊎◌, ℕ, ◌≡◌, ◌∙◌, Bool, false, Option, List, [], ◌∷◌, refl, sym, ap, arith, inl, inr, Ident,
  Result, ok, tool_invalid_argument,
}
use new_rag.Tool.Pipeline.{ToolCallRequest, ToolRuntime}
use new_rag.Tool.Calls.{
  Session, ToolCall, Parsed, object, other_value, broken, Observation, insert_tool_call, request,
  new_call, observe_error, execute_call, execute_one_tool, call_failed,
}
use new_rag.Tool.Calls.Settled.{IsFailed, insert_tool_call-found, insert_tool_call-runtime}
use new_rag.Tool.Calls.Kept.{
  observe_error-KeepsFailed, execute_call-KeepsFailed, execute_call-settles, execute_call-world,
}

-- The arguments of a call of `_execute_one_tool`.
pub record Asked : Type 0 where
  pub now : ℕ
  pub new_id : Ident
  pub cancelled : Bool
  pub run_id : Ident
  pub tenant_id : Ident
  pub user_id : Ident
  pub tool_call : ToolCall

-- The request of a call whose arguments are an object.
abbrev asked_request : (Ident → Ident → Ident → Ident) → Asked → Ident → ToolCallRequest
asked_request call_id_for a args =
    request call_id_for a.run_id a.tenant_id a.user_id args a.tool_call

Parsed-cases :
    (x : Parsed) → ((args : Ident) × (x ≡ object args)) ⊎ ((x ≡ other_value) ⊎ (x ≡ broken))
Parsed-cases (object args) = inl (args, refl)
Parsed-cases other_value = inr (inl refl)
Parsed-cases broken = inr (inr refl)

module _ {W : Type 0} (hour : ℕ) (limit_key : Ident → Ident → Ident → Ident)
    (size : Option Ident → ℕ) (max_output : Option ℕ) where
  module _ (parse : Ident → Parsed) (call_id_for : Ident → Ident → Ident → Ident) where
    abbrev pub ask : Asked → Session W → Result Observation × Session W
    ask a =
        execute_one_tool hour limit_key size max_output parse call_id_for a.now a.new_id a.cancelled
          a.run_id a.tenant_id a.user_id a.tool_call

    unfoldable pub ask_all : List Asked → Session W → Session W
    ask_all [] s = s
    ask_all (a ∷ rest) s = ask_all rest (ask a s).1

    -- The call after its row was inserted.
    abbrev asked_call : Asked → Ident → Session W → Result Observation × Session W
    asked_call a args s =
        let c = asked_request call_id_for a args in
        execute_call hour limit_key size max_output a.now a.new_id a.cancelled c
          (insert_tool_call (new_call a.run_id c) s)

    ask-object :
        (a : Asked) (args : Ident) (s : Session W)
        → parse a.tool_call.arguments ≡ object args
        → ask a s ≡ asked_call a args s
    unfolding execute_one_tool
    ask-object a args s e = ground (arith, e)

    ask-IsFailed :
        (a : Asked) (k : Ident) (s : Session W)
        → IsFailed k s.runtime.results
        → IsFailed k (ask a s).1.runtime.results
    unfolding execute_one_tool
    ask-IsFailed a k s w = elim (Parsed-cases (parse a.tool_call.arguments)) [
      | inl (args, e) ↦
          let c = asked_request call_id_for a args in
          let s' = insert_tool_call (new_call a.run_id c) s in
          let w' : IsFailed k s'.runtime.results =
            subst (λ (t : ToolRuntime W). IsFailed k t.results)
              (sym (insert_tool_call-runtime (new_call a.run_id c) s)) w in
          subst (λ (q : Result Observation × Session W). IsFailed k q.1.runtime.results)
            (sym (ask-object a args s e))
            (execute_call-KeepsFailed hour limit_key size max_output a.now a.new_id k a.cancelled c
              s' w').0
      | inr (inl e) ↦
          let eq : ask a s ≡ observe_error call_failed tool_invalid_argument s =
            ground (arith, e) in
          subst (λ (q : Result Observation × Session W). IsFailed k q.1.runtime.results) (sym eq)
            (observe_error-KeepsFailed k call_failed tool_invalid_argument s w).0
      | inr (inr e) ↦
          let eq : (ask a s).1 ≡ s = ground (arith, e) in
          subst (λ (q : Session W). IsFailed k q.runtime.results) (sym eq) w
    ]

    ask_all-IsFailed :
        (calls : List Asked) (k : Ident) (s : Session W)
        → IsFailed k s.runtime.results
        → IsFailed k (ask_all calls s).runtime.results
    unfolding ask_all
    ask_all-IsFailed [] k s w = w
    ask_all-IsFailed (a ∷ rest) k s w = ask_all-IsFailed rest k (ask a s).1 (ask-IsFailed a k s w)

    -- A call of a run that was observed as failed is never executed again: whatever calls follow it, a
    -- call of the same run, tool and arguments leaves the world as it is and is not observed as a success.
    pub execute_one_tool-failed :
        (a b : Asked) (args : Ident) (between : List Asked) (s : Session W) (o : Observation)
        → parse a.tool_call.arguments ≡ object args
        → parse b.tool_call.arguments ≡ object args
        → call_id_for b.run_id b.tool_call.name args ≡ call_id_for a.run_id a.tool_call.name args
        → (ask a s).0 ≡ ok o
        → o.ok ≡ false
        → let t = ask_all between (ask a s).1 in
          ((ask b t).1.runtime.world ≡ t.runtime.world)
          × ((o' : Observation) → (ask b t).0 ≡ ok o' → o'.ok ≡ false)
    execute_one_tool-failed a b args between s o e e' same h f =
        let c = asked_request call_id_for a args in
        let d = asked_request call_id_for b args in
        let s' = insert_tool_call (new_call a.run_id c) s in
        let first_failed : IsFailed c.call_id (ask a s).1.runtime.results =
          subst (λ (q : Result Observation × Session W). IsFailed c.call_id q.1.runtime.results)
            (sym (ask-object a args s e))
            (execute_call-settles hour limit_key size max_output a.now a.new_id a.cancelled c s' o
              (insert_tool_call-found (new_call a.run_id c) s)
              (ap (λ (q : Result Observation × Session W). q.0) (sym (ask-object a args s e)) ∙ h)
              f) in
        let t = ask_all between (ask a s).1 in
        let then_failed = ask_all-IsFailed between c.call_id (ask a s).1 first_failed in
        let t' = insert_tool_call (new_call b.run_id d) t in
        let runtime_eq = insert_tool_call-runtime (new_call b.run_id d) t in
        let now_failed : IsFailed d.call_id t'.runtime.results =
          subst (λ (r : ToolRuntime W). IsFailed d.call_id r.results) (sym runtime_eq)
            (subst (λ i. IsFailed i t.runtime.results) (sym same) then_failed) in
        let eq = ask-object b args t e' in
        (
          ap (λ (q : Result Observation × Session W). q.1.runtime.world) eq
              ∙ execute_call-world hour limit_key size max_output b.now b.new_id b.cancelled d t'
                  now_failed
              ∙ ap (λ (r : ToolRuntime W). r.world) runtime_eq,
          λ o' h'.
              (execute_call-KeepsFailed hour limit_key size max_output b.now b.new_id d.call_id
                  b.cancelled d t' now_failed).1
                o' refl (ap (λ (q : Result Observation × Session W). q.0) (sym eq) ∙ h'),
        )
