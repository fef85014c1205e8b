-- ===== src/Tool/Calls/Tests.antt =====
-- The theorem on failed calls at a concrete input: a tool that is not there, asked for twice.
use new_rag.Base.{ℕ, ◌≡◌, refl, false, none, some, [], ◌∷◌, Ident, ok, tool_not_found}
use new_rag.Base.Table.{first, select}
use new_rag.Gateway.Limiter.{new_limiter}
use new_rag.Gateway.Breaker.{new}
use new_rag.Tool.Pipeline.{ToolRuntime, execute, resolve}
use new_rag.Tool.Calls.{
  Session, object, Observation, is_observed, find_call, insert_tool_call, observe_error,
  execute_call, execute_one_tool,
}
use new_rag.Tool.Calls.Final.{Asked, ask, ask_all, execute_one_tool-failed}

abbrev empty_shop : ToolRuntime ℕ
empty_shop = record {
  tools = [];
  roles = [];
  policies = [];
  limiter = new_limiter 5 60;
  approvals = [];
  results = [];
  breakers = λ _. new 5 60 30;
  audit = [];
  world = 0;
}

abbrev session : Session ℕ
session = record { rows = []; runtime = empty_shop }

abbrev asked : Asked
asked = record {
  now = 1;
  new_id = 60;
  cancelled = false;
  run_id = 8;
  tenant_id = 1;
  user_id = 2;
  tool_call = record { name = 4; arguments = 3 };
}

abbrev one_key : Ident → Ident → Ident → Ident
one_key a b c = 9

abbrev seen : Observation
seen = record { call_id = 9; ok = false; data_of = none; error = some tool_not_found }

fails : (ask 60 one_key (λ _. 1) none object one_key asked session).0 ≡ ok seen
unfolding execute_one_tool execute_call insert_tool_call find_call first select execute resolve
    observe_error is_observed
fails = refl

execute_one_tool-failed_example :
    let t =
      ask_all 60 one_key
        (λ _. 1)
        none
        object
        one_key
        (asked ∷ [])
        (ask 60 one_key (λ _. 1) none object one_key asked session).1 in
    ((ask 60 one_key (λ _. 1) none object one_key asked t).1.runtime.world ≡ t.runtime.world)
    × ((o : Observation)
        → (ask 60 one_key (λ _. 1) none object one_key asked t).0 ≡ ok o
        → o.ok ≡ false)
execute_one_tool-failed_example =
    execute_one_tool-failed 60 one_key (λ _. 1) none object one_key asked asked 3 (asked ∷ [])
      session seen refl refl refl fails refl
