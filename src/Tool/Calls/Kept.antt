-- ===== src/Tool/Calls/Kept.antt =====
-- The steps of a tool call keep a failed one failed (app/agent/runtime/runtime.py).
use mathlib.Core.Path.{subst}
use new_rag.Base.{
  ℕ, ◌≡◌, Bool, true, false, Option, none, some, if◌then◌else◌, is_some, refl, sym, arith, inl, inr,
  Bool-cases, Result-cases, Ident, Result, ok, Code,
}
use new_rag.Tool.Pipeline.{ToolCallRequest, execute}
use new_rag.Tool.Pipeline.Gates.{execute-Stage}
use new_rag.Tool.Pipeline.Replay.{replay-after}
use new_rag.Tool.Calls.{
  Session, Observation, is_observed, find_call, empty_result, finalize_tool_call, observe_error,
  observe_result, execute_call, succeeded, failed,
}
use new_rag.Tool.Calls.Settled.{
  IsFailed, execute-IsFailed, finalize_tool_call-IsFailed, finalize_tool_call-settles,
}

-- A step that keeps a failed key failed, and does not succeed for it.
abbrev pub KeepsFailed : {W : Type 0} → Ident → Ident → Result Observation × Session W → Type 0
KeepsFailed k j p =
    IsFailed k p.1.runtime.results × ((o : Observation) → j ≡ k → p.0 ≡ ok o → o.ok ≡ false)

module _ {W : Type 0} where
  pub observe_error-KeepsFailed :
      (k j : Ident) (code : Code) (s : Session W)
      → IsFailed k s.runtime.results
      → KeepsFailed k j (observe_error j code s)
  unfolding observe_error
  observe_error-KeepsFailed k j code s w = elim (Bool-cases (is_observed code)) [
    | inl h ↦
        let kept =
          finalize_tool_call-IsFailed k j empty_result failed (some code) s w (λ _. refl) in
        rw (h, if◌then◌else◌) (kept, λ o _ e. ground (arith, e))
    | inr h ↦ rw (h, if◌then◌else◌) (w, λ o _ e. absurd (ground (arith, e)))
  ]

module _ {W : Type 0} (hour : ℕ) (limit_key : Ident → Ident → Ident → Ident)
    (size : Option Ident → ℕ) (max_output : Option ℕ) where
  pub execute_call-KeepsFailed :
      (now : ℕ) (new_id k : Ident) (cancelled : Bool) (c : ToolCallRequest) (s : Session W)
      → IsFailed k s.runtime.results
      → KeepsFailed k c.call_id
          (execute_call hour limit_key size max_output now new_id cancelled c s)
  unfolding execute_call observe_result
  execute_call-KeepsFailed now new_id k cancelled c s w =
      let p = execute hour limit_key size max_output now new_id cancelled c s.runtime in
      let s' : Session W = record s { runtime = p.1 } in
      let (w', false_ok) =
        execute-IsFailed hour limit_key size max_output now new_id k cancelled c s.runtime w in
      elim (Result-cases p.0) [
        | inl (r, e) ↦
            let eq : execute_call hour limit_key size max_output now new_id cancelled c s
                ≡ observe_result c.call_id r s' =
              ground (arith, e) in
            let kept =
              finalize_tool_call-IsFailed k c.call_id r (if r.ok then succeeded else failed) none s'
                w' (λ id. false_ok r id e) in
            subst (KeepsFailed k c.call_id) (sym eq)
              (kept, λ o id h. let x = false_ok r id e in ground (arith, h, x))
        | inr (code, e) ↦
            let eq : execute_call hour limit_key size max_output now new_id cancelled c s
                ≡ observe_error c.call_id code s' =
              ground (arith, e) in
            subst (KeepsFailed k c.call_id) (sym eq)
              (observe_error-KeepsFailed k c.call_id code s' w')
      ]

  -- A failed observation of a call whose row is there is stored.
  pub execute_call-settles :
      (now : ℕ) (new_id : Ident) (cancelled : Bool) (c : ToolCallRequest) (s : Session W)
      (o : Observation)
      → is_some (find_call c.call_id s.rows) ≡ true
      → (execute_call hour limit_key size max_output now new_id cancelled c s).0 ≡ ok o
      → o.ok ≡ false
      → IsFailed c.call_id
          (execute_call hour limit_key size max_output now new_id cancelled c s).1.runtime.results
  unfolding execute_call observe_result observe_error
  execute_call-settles now new_id cancelled c s o there h f =
      let p = execute hour limit_key size max_output now new_id cancelled c s.runtime in
      let s' : Session W = record s { runtime = p.1 } in
      elim (Result-cases p.0) [
        | inl (r, e) ↦
            let eq : execute_call hour limit_key size max_output now new_id cancelled c s
                ≡ observe_result c.call_id r s' =
              ground (arith, e) in
            let r_false : r.ok ≡ false = ground (arith, h, e, f) in
            let set =
              finalize_tool_call-settles c.call_id r (if r.ok then succeeded else failed) none s'
                there in
            subst (λ (q : Result Observation × Session W). IsFailed c.call_id q.1.runtime.results)
              (sym eq) (r, set, r_false)
        | inr (code, e) ↦ elim (Bool-cases (is_observed code)) [
          | inl seen ↦
              let eq : (execute_call hour limit_key size max_output now new_id cancelled c s).1
                  ≡ finalize_tool_call c.call_id empty_result failed (some code) s' =
                ground (arith, e, seen) in
              let set =
                finalize_tool_call-settles c.call_id empty_result failed (some code) s' there in
              subst (λ (q : Session W). IsFailed c.call_id q.runtime.results) (sym eq)
                (empty_result, set, refl)
          | inr unseen ↦ absurd (ground (arith, h, e, unseen))
        ]
      ]

  pub execute_call-world :
      (now : ℕ) (new_id : Ident) (cancelled : Bool) (c : ToolCallRequest) (s : Session W)
      → IsFailed c.call_id s.runtime.results
      → (execute_call hour limit_key size max_output now new_id cancelled c s).1.runtime.world
        ≡ s.runtime.world
  unfolding execute_call observe_result observe_error finalize_tool_call
  execute_call-world now new_id cancelled c s (r, found, _) =
      let p = execute hour limit_key size max_output now new_id cancelled c s.runtime in
      let same =
        replay-after hour limit_key size max_output now cancelled c s.runtime r p
          (execute-Stage hour limit_key size max_output now new_id cancelled c s.runtime) found in
      elim (Result-cases p.0) [
        | inl (x, e) ↦ ground (arith, e, same)
        | inr (code, e) ↦ ground (arith, e, same)
      ]
