-- ===== src/Release/Versions.antt =====
-- The versions of an agent (app/release/service.py): creation, the contract gate of `publish`, the
-- gray rollout, the rollback and the halt. A call that raises leaves what it committed before.
pub mod Publish
pub mod Isolation
pub mod Numbers
pub mod Rollback
use new_rag.Base.{
  ℕ, ◌+◌, ◌-◌, Bool, false, ◌&&◌, not, Option, none, some, List, [], ◌∷◌, ◌++◌, ltb, leb, ◌==◌,
  if◌then◌else◌, Ident, is_some, Action, pure, gets, modify, or_raise, raise_if, ◌>>=◌, ◌>>◌,
  agent_not_found, release_contract_failed, invalid_gray_percentage, rollback_failed, ℤ, pos,
  negsuc,
}
use new_rag.Base.Table.{select, latest, first, update}
use new_rag.Base.Order.{order_desc}
use new_rag.Release.Model.{
  Status, draft, active, gray, disabled, Config, empty_config, VersionRow, AgentRow, Db, is_active,
}
use new_rag.Release.Flow.{version_of, newest, flow_ended, reset_flow_state, ensure_not_terminated}
use new_rag.Release.Orders.{ensure_open_order}
use new_rag.Release.Contract.{
  Env, sanitize, at_version, find_version, get_version, is_live, contract_check, is_fail,
}

-- `_split_release_config`: the config without the release key, and the value of that key.
unfoldable pub split_release_config : Option Config → Config × Option ℕ
split_release_config none = (empty_config, none)
split_release_config (some c) = (sanitize c, c.gray_percentage)

abbrev pub set_status : Status → VersionRow → VersionRow
set_status status r = record r { status = status }

-- `0 <= percentage <= 100`
abbrev pub in_percent : ℤ → Bool
in_percent (pos p) = leb p 100
in_percent (negsuc _) = false

abbrev pub magnitude : ℤ → ℕ
magnitude (pos p) = p
magnitude (negsuc _) = 0

abbrev pub set_gray : ℕ → VersionRow → VersionRow
set_gray percentage r = record r {
  status = gray;
  config = sanitize r.config;
  release = some percentage;
}

-- `to_version or default`: 0 is no version.
unfoldable pub rollback_target : Option ℕ → Option VersionRow → ℕ
rollback_target to_version current =
    let default : ℕ = elim current [
      | none ↦ 1
      | some r ↦ if ltb 1 r.version then r.version - 1 else 1
    ] in
    elim to_version [ none ↦ default | some v ↦ if v == 0 then default else v ]

abbrev pub write_versions : (VersionRow → Bool) → (VersionRow → VersionRow) → Db → Db
write_versions p f db = record db { versions = update p f db.versions }

-- The default arguments of `contract_check`.
abbrev pub default_min_runs : ℕ
default_min_runs = 10

abbrev pub default_error_threshold : ℕ
default_error_threshold = 200

module _ (tenant agent : Ident) where
  abbrev pub other_active : ℕ → VersionRow → Bool
  other_active v r = version_of tenant agent r && is_active r.status && not (r.version == v)

  unfoldable pub agent_exists : Db → Bool
  unfolding first select
  agent_exists db =
      is_some (first (select (λ (r : AgentRow). r.id == agent && r.tenant == tenant) db.agents))

  -- `(latest or 0) + 1`
  unfoldable pub next_version : Db → ℕ
  next_version db = elim (newest tenant agent db) [ none ↦ 1 | some r ↦ r.version + 1 ]

  abbrev pub new_version : ℕ → Ident → Ident → Option Ident → Option Config → ℕ → VersionRow
  new_version version new_id system_prompt model config now = record {
    id = new_id;
    tenant = tenant;
    agent = agent;
    version = version;
    status = draft;
    system_prompt = system_prompt;
    model = model;
    config = (split_release_config config).0;
    release = (split_release_config config).1;
    created_at = now;
  }

  -- The flow is reset if it has ended, and an order is opened if none is.
  unfoldable pub prepare_flow : Ident → Ident → ℕ → Db → Db
  prepare_flow order_id created_by now db =
      let db' = if flow_ended tenant agent db then reset_flow_state tenant agent db else db in
      (ensure_open_order tenant agent order_id created_by now db').1

  unfoldable pub create_version :
      Ident → Ident → Ident → Option Ident → Option Config → Ident → ℕ → Action Db ℕ
  create_version new_id order_id system_prompt model config created_by now = do
    modify (prepare_flow order_id created_by now)
    found ← gets agent_exists
    raise_if (not found) agent_not_found
    version ← gets next_version
    let row = new_version version new_id system_prompt model config now
    modify (λ db. record db { versions = db.versions ++ row ∷ [] })
    pure version

  -- The newest first.
  unfoldable pub list_versions : Db → List VersionRow
  unfolding order_desc select
  list_versions db = order_desc (λ r. r.version) (select (version_of tenant agent) db.versions)

  -- The writes of `publish`: the other ACTIVE versions are disabled.
  unfoldable pub activate : ℕ → Db → Db
  activate v db =
      write_versions (at_version tenant agent v) (set_status active)
        (write_versions (other_active v) (set_status disabled) db)

  -- The contract is checked unless the caller waives it, and a failed check blocks.
  unfoldable pub contract_gate : Env → ℕ → Bool → Bool → Action Db (Unit {0})
  contract_gate env v enforce_contract force =
      if enforce_contract && not force
      then (do
        report ← contract_check tenant agent env v default_min_runs default_error_threshold
        raise_if (is_fail report.status) release_contract_failed)
      else pure tt

  unfoldable pub publish : Env → ℕ → Bool → Bool → Action Db ℕ
  publish env v enforce_contract force = do
    ensure_not_terminated tenant agent
    contract_gate env v enforce_contract force
    get_version tenant agent v
    modify (activate v)
    pure v

  -- `gray`; the row is written by its primary key.
  unfoldable pub gray_release : ℕ → ℤ → Action Db ℕ
  gray_release v percentage = do
    ensure_not_terminated tenant agent
    raise_if (not (in_percent percentage)) invalid_gray_percentage
    row ← get_version tenant agent v
    modify (write_versions (λ r. r.id == row.id) (set_gray (magnitude percentage)))
    pure v

  -- The highest ACTIVE or GRAY version.
  unfoldable pub current_live : Db → Option VersionRow
  current_live db = latest (λ r. r.version) (select (is_live tenant agent) db.versions)

  -- The current row is disabled before the target is made ACTIVE; they may be one row.
  unfoldable pub switch_to : Option VersionRow → ℕ → Db → Db
  switch_to current target db =
      let db' : Db = elim current [
        | none ↦ db
        | some c ↦ write_versions (at_version tenant agent c.version) (set_status disabled) db
      ] in
      write_versions (at_version tenant agent target) (set_status active) db'

  unfoldable pub rollback : Option ℕ → Action Db ℕ
  rollback to_version = do
    ensure_not_terminated tenant agent
    current ← gets current_live
    let target = rollback_target to_version current
    row ← gets (find_version tenant agent target)
    or_raise row rollback_failed
    modify (switch_to current target)
    pure target

  unfoldable pub halt : ℕ → Action Db ℕ
  halt v = do
    ensure_not_terminated tenant agent
    get_version tenant agent v
    modify (write_versions (at_version tenant agent v) (set_status disabled))
    pure v
