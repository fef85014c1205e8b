-- ===== src/Release/Contract.antt =====
-- The ten checks of the release contract (app/release/service.py, `contract_check`). A reason text
-- is not modelled, only the status of each check. An error threshold is in thousandths.
pub mod Sound
use new_rag.Base.{
  ℕ, ◌+◌, ◌*◌, Bool, true, false, ◌&&◌, ◌||◌, not, Option, none, some, List, [], ◌∷◌, ◌++◌, map,
  ltb, ◌==◌, if◌then◌else◌, Ident, is_some, mem, length, count_if, take, Action, pure, gets,
  or_raise, ◌>>=◌, ◌>>◌, agent_version_not_found,
}
use new_rag.Base.Table.{select, latest, first}
use new_rag.Base.Order.{order_desc}
use new_rag.Release.Model.{Config, empty_config, VersionRow, RunRow, Db, is_active, is_gray}
use new_rag.Release.Flow.{version_of, ensure_not_terminated}

pub data CheckId : Type 0 where
  api queue db prompt tool model config memory trace rollback : CheckId

-- `na` is "n/a".
pub data CheckStatus : Type 0 where
  pass warn fail na : CheckStatus

pub record Check : Type 0 where
  pub id : CheckId
  pub status : CheckStatus

pub record Report : Type 0 where
  pub status : CheckStatus
  pub blocked : Bool
  pub checks : List Check
  pub needs_manual : List CheckId

-- The model names of the settings, empty ones as `none`.
pub record ModelSettings : Type 0 where
  pub llm_model : Option Ident
  pub llm_model_small : Option Ident
  pub llm_model_medium : Option Ident
  pub llm_model_large : Option Ident

-- What the service was built with: the references of the registered tools, and the settings.
pub record Env : Type 0 where
  pub registry : Option (List Ident)
  pub settings : Option ModelSettings

abbrev pub is_fail : CheckStatus → Bool
is_fail fail = true
is_fail _ = false

abbrev pub is_warn : CheckStatus → Bool
is_warn warn = true
is_warn _ = false

-- `_sanitize_config`
abbrev pub sanitize : Config → Config
sanitize c = record c { gray_percentage = none }

-- `cfg.get("tools", [])`
abbrev pub tools_of : Config → List Ident
tools_of c = elim c.tools [ none ↦ [] | some ts ↦ ts ]

-- `set(xs) - set(ys)`
unfoldable pub minus : List Ident → List Ident → List Ident
unfolding select
minus xs ys = select (λ x. not (mem x ys)) xs

abbrev pub is_empty {ℓ} : {A : Type ℓ} → List A → Bool
is_empty [] = true
is_empty (_ ∷ _) = false

-- `not (set(prev_cfg) - set(target_cfg))`, on the key "tools" and the other keys
unfoldable pub keeps_keys : Config → Config → Bool
unfolding minus
keeps_keys prev target =
    not (is_some prev.tools && not (is_some target.tools))
    && is_empty (minus prev.others target.others)

unfoldable pub check_api : Config → Config → CheckStatus
unfolding minus
check_api prev target = if is_empty (minus (tools_of prev) (tools_of target)) then pass else fail

-- `recent` tells of each recent run whether it has an error.
unfoldable pub check_prompt : ℕ → List Bool → CheckStatus
check_prompt error_threshold recent =
    let n = length recent in
    if n == 0
    then warn
    else if ltb (error_threshold * n) (count_if (λ e. e) recent * 1000)
    then warn
    else pass

unfoldable pub check_tool : Option (List Ident) → Config → CheckStatus
unfolding minus
check_tool none target = na
check_tool (some known) target = if is_empty (minus (tools_of target) known) then pass else fail

abbrev pub opt_list : Option Ident → List Ident
opt_list none = []
opt_list (some m) = m ∷ []

unfoldable pub allowed_models : ModelSettings → List Ident
allowed_models s =
    opt_list s.llm_model
    ++ (opt_list s.llm_model_small ++ (opt_list s.llm_model_medium ++ opt_list s.llm_model_large))

unfoldable pub check_model : Option ModelSettings → Option Ident → CheckStatus
unfolding allowed_models
check_model settings none = pass
check_model none (some m) = na
check_model (some s) (some m) = if mem m (allowed_models s) then pass else fail

unfoldable pub check_config : Config → Config → CheckStatus
unfolding keeps_keys
check_config prev target = if keeps_keys prev target then pass else fail

-- `lower` is the first version below the one that is checked.
unfoldable pub check_rollback : ℕ → Option VersionRow → CheckStatus
check_rollback version lower = if version == 1 then pass else if is_some lower then pass else fail

-- `"fail" if any fails, else "warn" if any warns, else "pass"`
unfoldable pub worst : List Check → CheckStatus
worst [] = pass
worst (c ∷ cs) =
    let rest = worst cs in
    if is_fail c.status || is_fail rest
    then fail
    else if is_warn c.status || is_warn rest
    then warn
    else pass

unfoldable pub report_of : List Check → Report
unfolding worst select
report_of checks = record {
  status = worst checks;
  blocked = is_fail (worst checks);
  checks = checks;
  needs_manual = map (λ c. c.id) (select (λ c. is_warn c.status) checks);
}

module _ (tenant agent : Ident) where
  abbrev pub at_version : ℕ → VersionRow → Bool
  at_version v r = version_of tenant agent r && r.version == v

  unfoldable pub find_version : ℕ → Db → Option VersionRow
  unfolding first select
  find_version v s = first (select (at_version v) s.versions)

  -- `_get_version`
  unfoldable pub get_version : ℕ → Action Db VersionRow
  unfolding find_version
  get_version v = do row ← gets (find_version v); or_raise row agent_version_not_found

  abbrev pub is_live : VersionRow → Bool
  is_live r = version_of tenant agent r && (is_active r.status || is_gray r.status)

  -- The highest ACTIVE or GRAY version other than the one that is checked.
  unfoldable pub previous_live : ℕ → Db → Option VersionRow
  unfolding latest select
  previous_live v s =
      latest (λ r. r.version) (select (λ r. is_live r && not (r.version == v)) s.versions)

  -- The errors of the `n` newest runs.
  unfoldable pub recent_errors : ℕ → Db → List Bool
  unfolding select order_desc
  recent_errors n s =
      map (λ r. is_some r.error)
        (take n (
          order_desc (λ r. r.started_at)
            (select (λ (r : RunRow). r.agent == agent && r.tenant == tenant) s.runs)))

  unfoldable pub lower_version : ℕ → Db → Option VersionRow
  unfolding first select
  lower_version v s = first (select (λ r. version_of tenant agent r && ltb r.version v) s.versions)

  -- The ten checks in the order of `_CONTRACT_CHECK_SPEC`. The migration of the queue's payload
  -- that check 2 tries cannot raise on its fixed argument.
  unfoldable pub checks_for : Env → ℕ → ℕ → ℕ → VersionRow → Db → List Check
  unfolding check_api check_prompt check_tool check_model check_config check_rollback previous_live
      recent_errors lower_version
  checks_for env version min_runs error_threshold target s =
      let prev : Config = elim (previous_live version s) [
        | none ↦ empty_config
        | some r ↦ sanitize r.config
      ] in
      let cfg = sanitize target.config in
      record { id = api; status = check_api prev cfg }
      ∷ record { id = queue; status = pass }
      ∷ record { id = db; status = warn }
      ∷ record { id = prompt; status = check_prompt error_threshold (recent_errors min_runs s) }
      ∷ record { id = tool; status = check_tool env.registry cfg }
      ∷ record { id = model; status = check_model env.settings target.model }
      ∷ record { id = config; status = check_config prev cfg }
      ∷ record { id = memory; status = warn }
      ∷ record { id = trace; status = warn }
      ∷ record { id = rollback; status = check_rollback version (lower_version version s) }
      ∷ []

  unfoldable pub contract_check : Env → ℕ → ℕ → ℕ → Action Db Report
  contract_check env version min_runs error_threshold = do
    ensure_not_terminated tenant agent
    target ← get_version version
    checks ← gets (checks_for env version min_runs error_threshold target)
    pure (report_of checks)
