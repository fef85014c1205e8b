-- ===== src/Tool/Pipeline/Gates.antt =====
-- What the checks around a tool guarantee (app/tool/runtime.py).
use mathlib.Core.Path.{subst}
use new_rag.Base.{
  ℕ, ◌≡◌, ◌⊎◌, inl, inr, refl, sym, arith, Bool, Bool-cases, true, false, Option, Option-cases,
  some, Ident, Result, ok, err, Code, tool_not_found, tool_permission_denied, tool_rate_limited,
  tool_breaker_open, approval_required,
}
use new_rag.Gateway.Limiter
use new_rag.Gateway.Breaker
use new_rag.Tool.Approvals.{ApprovalRow, is_approved, is_rejected}
use new_rag.Tool.Execute.{ToolDefinition, ToolResult}
use new_rag.Tool.Pipeline.{
  approval_asked, approval_rejected, ToolCallRequest, ToolRuntime, is_risky, resolve, audited,
  allowed_by_policy, allowed_call, denied_call, permission_gate, limit_gate, approval_of, risk_gate,
  put_breaker, breaker_gate, run, execute,
}

module _ {W : Type 0} (hour : ℕ) (limit_key : Ident → Ident → Ident → Ident)
    (size : Option Ident → ℕ) (max_output : Option ℕ) where
  -- A call that may run `tool`: the policies allow it, the limiter lets it through, a risky one has an
  -- approval that was given, and the tool's breaker lets it through.
  pub record IsCleared (now : ℕ) (c : ToolCallRequest) (s : ToolRuntime W) (tool : ToolDefinition W)
      : Type 0 where
    pub is_found : resolve hour limit_key size max_output c.tool_ref s ≡ some tool
    pub is_permitted : allowed_by_policy hour limit_key size max_output c s ≡ true
    pub is_in_limit :
        (Limiter.acquire now (limit_key c.tenant_id c.user_id c.tool_ref) s.limiter).0 ≡ true
    pub is_approved_call :
        (is_risky tool.risk_level ≡ false)
        ⊎ ((a : ApprovalRow) × (approval_of hour limit_key size max_output c s ≡ some a)
            × (is_approved a.status ≡ true))
    pub is_closed : (Breaker.allow now (s.breakers tool.ref)).0 ≡ true

  -- A call ends before the tool, or it is cleared and runs the tool.
  pub data Stage (now : ℕ) (cancelled : Bool) (c : ToolCallRequest) (s : ToolRuntime W)
      : Result ToolResult × ToolRuntime W → Type 0 where
    refused :
        {t : ToolRuntime W} {code : Code}
        → t.world ≡ s.world
        → t.results ≡ s.results
        → Stage now cancelled c s (err code, t)
    runs :
        (tool : ToolDefinition W) (t : ToolRuntime W)
        → IsCleared now c s tool
        → t.world ≡ s.world
        → t.results ≡ s.results
        → Stage now cancelled c s (run hour limit_key size max_output now cancelled tool c t)

  limit_gate-ok :
      (now : ℕ) (c : ToolCallRequest) (s : ToolRuntime W)
      → (Limiter.acquire now (limit_key c.tenant_id c.user_id c.tool_ref) s.limiter).0 ≡ true
      → limit_gate hour limit_key size max_output now c s ≡ (
        ok tt,
        record s {
          limiter = (Limiter.acquire now (limit_key c.tenant_id c.user_id c.tool_ref) s.limiter).1;
        },
      )
  unfolding limit_gate
  limit_gate-ok now c s e = ground (arith, e)

  limit_gate-err :
      (now : ℕ) (c : ToolCallRequest) (s : ToolRuntime W)
      → (Limiter.acquire now (limit_key c.tenant_id c.user_id c.tool_ref) s.limiter).0 ≡ false
      → (t : ToolRuntime W) × (limit_gate hour limit_key size max_output now c s
          ≡ (err tool_rate_limited, t))
        × (t.world ≡ s.world)
        × (t.results ≡ s.results)
  unfolding limit_gate
  limit_gate-err now c s e = (
    (limit_gate hour limit_key size max_output now c s).1,
    ground (arith, e),
    ground (arith, e),
    ground (arith, e),
  )

  risk_gate-cases :
      (now : ℕ) (new_id : Ident) (tool : ToolDefinition W) (c : ToolCallRequest) (s : ToolRuntime W)
      → ((risk_gate hour limit_key size max_output now new_id tool.risk_level c s ≡ (ok tt, s))
          × ((is_risky tool.risk_level ≡ false)
              ⊎ ((a : ApprovalRow) × (approval_of hour limit_key size max_output c s ≡ some a)
                  × (is_approved a.status ≡ true))))
        ⊎ ((t : ToolRuntime W) × (risk_gate hour limit_key size max_output now new_id
                tool.risk_level c s
              ≡ (err approval_required, t))
            × (t.world ≡ s.world)
            × (t.results ≡ s.results))
  unfolding risk_gate
  risk_gate-cases now new_id tool c s = elim (Bool-cases (is_risky tool.risk_level)) [
    | inr safe ↦ inl (ground (arith, safe), inl safe)
    | inl risky ↦ elim (Option-cases (approval_of hour limit_key size max_output c s)) [
      | inl n ↦ inr (
        (risk_gate hour limit_key size max_output now new_id tool.risk_level c s).1,
        ground (arith, risky, n),
        ground (arith, risky, n),
        ground (arith, risky, n),
      )
      | inr (a, e) ↦ elim (Bool-cases (is_rejected a.status)) [
        | inl turned ↦ inr (
          audited hour limit_key size max_output c.call_id approval_rejected s,
          ground (arith, risky, e, turned),
          refl,
          refl,
        )
        | inr not_turned ↦ elim (Bool-cases (is_approved a.status)) [
          | inl given ↦ inl (ground (arith, risky, e, not_turned, given), inr (a, e, given))
          | inr wait ↦ inr (
            audited hour limit_key size max_output c.call_id approval_asked s,
            ground (arith, risky, e, not_turned, wait),
            refl,
            refl,
          )
        ]
      ]
    ]
  ]

  permitted-Stage :
      (now : ℕ) (new_id : Ident) (c : ToolCallRequest) (s : ToolRuntime W) (tool : ToolDefinition W)
      → resolve hour limit_key size max_output c.tool_ref s ≡ some tool
      → allowed_by_policy hour limit_key size max_output c s ≡ true
      → Stage now false c s (execute hour limit_key size max_output now new_id false c s)
  unfolding execute permission_gate breaker_gate
  permitted-Stage now new_id c s tool found permitted =
      let s1 = audited hour limit_key size max_output c.call_id allowed_call s in
      let (got, limiter) =
        Limiter.acquire now (limit_key c.tenant_id c.user_id c.tool_ref) s.limiter in
      let s2 : ToolRuntime W = record s1 { limiter = limiter } in
      let s3 =
        put_breaker hour limit_key size max_output tool.ref
          (Breaker.allow now (s.breakers tool.ref)).1 s2 in
      elim (Bool-cases got) [
        | inr over ↦
            let (t, l, w, r) = limit_gate-err now c s1 over in
            let eq : execute hour limit_key size max_output now new_id false c s
                ≡ (err tool_rate_limited, t) =
              ground (arith, found, permitted, l) in
            subst (Stage now false c s) (sym eq) (refused w r)
        | inl under ↦
            let l = limit_gate-ok now c s1 under in
            elim (risk_gate-cases now new_id tool c s2) [
              | inr (t, k, w, r) ↦
                  let eq : execute hour limit_key size max_output now new_id false c s
                      ≡ (err approval_required, t) =
                    ground (arith, found, permitted, l, k) in
                  subst (Stage now false c s) (sym eq) (refused w r)
              | inl (k, given) ↦ elim (Bool-cases (Breaker.allow now (s.breakers tool.ref)).0) [
                | inr shut ↦
                    let eq : execute hour limit_key size max_output now new_id false c s
                        ≡ (err tool_breaker_open, s3) =
                      ground (arith, found, permitted, l, k, shut) in
                    subst (Stage now false c s) (sym eq) (refused refl refl)
                | inl passed ↦
                    let eq : execute hour limit_key size max_output now new_id false c s
                        ≡ run hour limit_key size max_output now false tool c s3 =
                      ground (arith, found, permitted, l, k, passed) in
                    subst (Stage now false c s) (sym eq) (
                      runs tool s3
                        (record {
                          is_found = found;
                          is_permitted = permitted;
                          is_in_limit = under;
                          is_approved_call = given;
                          is_closed = passed;
                        })
                        refl refl)
              ]
            ]
      ]

  -- A call either ends before its tool, with the world and the results as they were, or it runs the tool
  -- and is cleared.
  pub execute-Stage :
      (now : ℕ) (new_id : Ident) (cancelled : Bool) (c : ToolCallRequest) (s : ToolRuntime W)
      → Stage now cancelled c s (execute hour limit_key size max_output now new_id cancelled c s)
  unfolding execute permission_gate breaker_gate
  execute-Stage now new_id true c s = refused refl refl
  execute-Stage now new_id false c s =
      elim (Option-cases (resolve hour limit_key size max_output c.tool_ref s)) [
        | inl n ↦
            let eq : execute hour limit_key size max_output now new_id false c s
                ≡ (err tool_not_found, s) =
              ground (arith, n) in
            subst (Stage now false c s) (sym eq) (refused refl refl)
        | inr (tool, found) ↦
            elim (Bool-cases (allowed_by_policy hour limit_key size max_output c s)) [
              | inr denied ↦
                  let t = audited hour limit_key size max_output c.call_id denied_call s in
                  let eq : execute hour limit_key size max_output now new_id false c s
                      ≡ (err tool_permission_denied, t) =
                    ground (arith, found, denied) in
                  subst (Stage now false c s) (sym eq) (refused refl refl)
              | inl permitted ↦ permitted-Stage now new_id c s tool found permitted
            ]
      ]

  -- The world changes only by a call that is cleared: the policies allow it, the limiter and the breaker let
  -- it through, and a risky one has an approval that was given.
  pub execute-IsCleared :
      (now : ℕ) (new_id : Ident) (cancelled : Bool) (c : ToolCallRequest) (s : ToolRuntime W)
      → ((execute hour limit_key size max_output now new_id cancelled c s).1.world ≡ s.world)
        ⊎ ((tool : ToolDefinition W) × IsCleared now c s tool)
  execute-IsCleared now new_id cancelled c s =
      go (execute hour limit_key size max_output now new_id cancelled c s)
        (execute-Stage now new_id cancelled c s)
    where
      go :
          (p : Result ToolResult × ToolRuntime W)
          → Stage now cancelled c s p
          → (p.1.world ≡ s.world) ⊎ ((tool : ToolDefinition W) × IsCleared now c s tool)
      go p (refused w _) = inl w
      go p (runs tool t cleared _ _) = inr (tool, cleared)
