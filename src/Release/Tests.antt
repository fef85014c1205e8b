-- ===== src/Release/Tests.antt =====
-- The theorems on the versions of an agent at concrete inputs.
mod Flows
mod Judged
mod Rollout
use mathlib.Core.Option
use new_rag.Base.{
  agent_version_not_found, ℕ, ◌≡◌, refl, arith, true, false, Option, some, none, [], ◌∷◌, ◌+◌, ok,
  err, All, is_some,
}
use new_rag.Base.Table.{select, first, latest}
use new_rag.Base.Keys.{Distinct}
use new_rag.Release.Model.{Status, active, gray, disabled, empty_config, VersionRow, Db, is_active}
use new_rag.Release.Flow.{
  version_of, ensure_not_terminated, find_meta, meta_config, flow_ended, newest,
}
use new_rag.Release.Contract.{Env, find_version, get_version, checks_for, report_of, contract_check}
use new_rag.Release.Contract.Sound.{Compatible}
use new_rag.Release.Versions.{
  set_status, publish, contract_gate, rollback, halt, create_version, prepare_flow, next_version,
  current_live, rollback_target, agent_exists,
}
use new_rag.Release.Versions.Publish.{publish-sole, publish-Compatible}
use new_rag.Release.Orders.{ensure_open_order, find_open}

abbrev pub version : ℕ → Status → Option ℕ → VersionRow
version v s p = record {
  id = v + 100;
  tenant = 1;
  agent = 2;
  version = v;
  status = s;
  system_prompt = 7;
  model = none;
  config = empty_config;
  release = p;
  created_at = v;
}

-- Version 3 is GRAY for everyone over an ACTIVE version 2.
abbrev pub rollout : Db
rollout = record {
  agents = record { id = 2; tenant = 1 } ∷ [];
  versions = version 1 disabled none ∷ version 2 active none ∷ version 3 gray (some 100) ∷ [];
  nodes = [];
  orders = [];
  history = [];
  runs = [];
  tool_calls = [];
  events = [];
}

abbrev target : ℕ
target = 3

abbrev env : Env
env = record { registry = none; settings = none }

publishes : (publish 1 2 env 3 true false rollout).0 ≡ ok 3
unfolding publish ensure_not_terminated contract_gate contract_check get_version find_version
    checks_for report_of meta_config find_meta first select
publishes = refl

publish-sole_example :
    let db' = (publish 1 2 env 3 true false rollout).1 in
    (target ≡ 3)
    × (find_version 1 2 3 db' ≡ Option.map (set_status active) (find_version 1 2 3 rollout))
    × (is_some (find_version 1 2 3 rollout) ≡ true)
    × All (λ r. version_of 1 2 r ≡ true → is_active r.status ≡ true → r.version ≡ 3) db'.versions
publish-sole_example = publish-sole 1 2 env 3 true false rollout publishes

publish-Compatible_example :
    (row : VersionRow) × (find_version 1 2 3 rollout ≡ some row) × Compatible 1 2 env 3 row rollout
publish-Compatible_example = publish-Compatible 1 2 env 3 rollout publishes

misses : (publish 1 2 env 9 true false rollout).0 ≡ err agent_version_not_found
unfolding publish ensure_not_terminated contract_gate contract_check get_version find_version
    meta_config find_meta first select
misses = refl

rolls_back : (rollback 1 2 (some 1) rollout).0 ≡ ok 1
unfolding rollback ensure_not_terminated meta_config find_meta rollback_target current_live
    find_version latest first select
rolls_back = refl

current : current_live 1 2 rollout ≡ some (version 3 gray (some 100))
unfolding current_live latest select
current = refl

abbrev rolled : Db
rolled = (rollback 1 2 (some 1) rollout).1

finds_active : find_version 1 2 2 rollout ≡ some (version 2 active none)
unfolding find_version first select
finds_active = refl

halts : (halt 1 2 3 rollout).0 ≡ ok 3
unfolding halt ensure_not_terminated meta_config find_meta get_version find_version first select
halts = refl

creates : (create_version 1 2 50 60 7 none none 8 9 rollout).0 ≡ ok 4
unfolding create_version prepare_flow flow_ended meta_config find_meta ensure_open_order find_open
    agent_exists next_version newest latest first select
creates = refl

no_agent : agent_exists 1 5 rollout ≡ false
unfolding agent_exists first select
no_agent = refl

pub ids-Distinct : Distinct (λ r. r.id) rollout.versions
ids-Distinct = (
  ((λ e. absurd (omega arith)), ((λ e. absurd (omega arith)), tt)),
  (((λ e. absurd (omega arith)), tt), (tt, tt)),
)

numbers-Distinct : Distinct (λ r. r.version) (select (version_of 1 2) rollout.versions)
unfolding select
numbers-Distinct = (
  ((λ e. absurd (omega arith)), ((λ e. absurd (omega arith)), tt)),
  (((λ e. absurd (omega arith)), tt), (tt, tt)),
)
