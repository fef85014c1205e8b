-- ===== src/Tool/Tests.antt =====
-- The theorems on tools at concrete inputs: a counter that a risky tool raises, with its approval.
use new_rag.Base.{err, Code, ℕ, ◌+◌, ◌≡◌, ◌⊎◌, refl, true, false, none, some, [], ◌∷◌, Ident, ok}
use new_rag.Base.Table.{first, select, latest}
use new_rag.Access.Policy.{
  Effect, is_allowed, decide, decision, rows_for, concerns, matches, user_role_ids,
}
use new_rag.Gateway.Limiter
use new_rag.Gateway.Breaker
use new_rag.Gateway.Limiter.{new_limiter, pop_old}
use new_rag.Gateway.Breaker.{new, record_call}
use new_rag.Tool.Approvals.{
  ApprovalRow, Approvals, approved, pending, rejected, is_approved, is_rejected, is_pending,
  find_for_call, decided,
}
use new_rag.Tool.Approvals
use new_rag.Tool.Approvals.Decisions.{Decision, decide_all, decide-final}
use new_rag.Tool.Execute.{
  ToolDefinition, Risk, succeeded, execute_tool, get_result, set_result, run_tool,
}
use new_rag.Tool.Pipeline.{
  ToolCallRequest, ToolRuntime, execute, resolve, is_risky, permission_gate, limit_gate, risk_gate,
  breaker_gate, run,
}
use new_rag.Tool.Pipeline.Gates.{IsCleared, execute-IsCleared}
use new_rag.Tool.Pipeline.Replay.{Called, execute_one, execute_all, execute-once}

abbrev counter : ToolDefinition ℕ
counter = record {
  ref = 4;
  risk_level = Risk.critical;
  accepts = λ _. true;
  retry = 1;
  fn = λ args n. (ok args, n + 1);
}

abbrev approval : ApprovalRow
approval = record {
  id = 50;
  tenant_id = 1;
  requester_id = 2;
  approver_id = none;
  tool_ref = 4;
  call_id = 9;
  status = pending;
  reason = 0;
  decided_at = none;
  expires_at = 100;
  created_at = 10;
}

abbrev given : ApprovalRow
given = record approval { status = approved; approver_id = some 3; decided_at = some 20 }

abbrev shop : ToolRuntime ℕ
shop = record {
  tools = counter ∷ [];
  roles = [];
  policies =
      record {
        id = 7;
        tenant_id = 1;
        user_id = none;
        role_id = none;
        action = 1;
        resource = 4;
        effect = Effect.allow;
        enabled = true;
      }
      ∷ [];
  limiter = new_limiter 5 60;
  approvals = given ∷ [];
  results = [];
  breakers = λ _. new 5 60 30;
  audit = [];
  world = 0;
}

abbrev call : ToolCallRequest
call = record { call_id = 9; tenant_id = 1; user_id = 2; tool_ref = 4; args = 6 }

abbrev key_of : Ident → Ident → Ident → Ident
key_of t u r = t + u + r

call_answers : (execute 3600 key_of (λ _. 1) none 30 51 false call shop).0 ≡ ok (succeeded 6)
unfolding execute resolve permission_gate limit_gate risk_gate breaker_gate run execute_tool
    run_tool get_result set_result first select latest is_allowed decide decision rows_for concerns
    matches user_role_ids Limiter.acquire pop_old Breaker.allow record_call find_for_call
    is_approved is_rejected is_risky new
call_answers = refl

abbrev called : Called
called = record { now = 30; new_id = 51; is_cancelled = false; call = call }

abbrev called_between : Called
called_between = record {
  now = 35;
  new_id = 52;
  is_cancelled = false;
  call = record call { call_id = 8 };
}

execute-once_example :
    let t =
      execute_all 3600 key_of
        (λ _. 1)
        none
        (called_between ∷ [])
        (execute_one 3600 key_of (λ _. 1) none called shop).1 in
    ((execute_one 3600 key_of (λ _. 1) none called t).1.world ≡ t.world)
    × (((execute_one 3600 key_of (λ _. 1) none called t).0 ≡ ok (succeeded 6))
        ⊎ ((code : Code) × ((execute_one 3600 key_of (λ _. 1) none called t).0 ≡ err code)))
execute-once_example =
    execute-once 3600 key_of (λ _. 1) none called called (called_between ∷ []) shop (succeeded 6)
      call_answers refl

execute-IsCleared_example :
    ((execute 3600 key_of (λ _. 1) none 30 51 false call shop).1.world ≡ 0)
    ⊎ ((tool : ToolDefinition ℕ) × IsCleared 3600 key_of (λ _. 1) none 30 call shop tool)
execute-IsCleared_example = execute-IsCleared 3600 key_of (λ _. 1) none 30 51 false call shop

abbrev first_decision : Decision
first_decision = record { now = 20; approval_id = 50; approver_id = 3; approve = true; reason = 0 }

abbrev second_decision : Decision
second_decision = record {
  now = 25;
  approval_id = 50;
  approver_id = 8;
  approve = false;
  reason = 2;
}

decide-final_example :
    Approvals.get 50
      (decide_all (second_decision ∷ []) (Approvals.decide 20 50 3 true 0 (approval ∷ [])).1)
    ≡ some (decided 20 3 true 0 approval)
unfolding Approvals.get first select
decide-final_example =
    decide-final first_decision (second_decision ∷ []) approval (approval ∷ []) refl
