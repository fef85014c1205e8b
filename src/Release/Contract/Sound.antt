-- ===== src/Release/Contract/Sound.antt =====
-- The release contract against a description of compatible versions (app/release/service.py).
use new_rag.Base.{
  ℕ, ◌≡◌, refl, ◌↔◌, ◌⊎◌, Bool, true, false, Option, none, some, List, [], ◌∷◌, arith, Ident,
  is_some, mem, All,
}
use new_rag.Base.Table.{select}
use new_rag.Release.Model.{Config, empty_config, VersionRow, Db}
use new_rag.Release.Contract.{
  Env, ModelSettings, Check, worst, minus, is_empty, is_fail, sanitize, tools_of, keeps_keys,
  check_api, check_prompt, check_tool, check_model, check_config, check_rollback, allowed_models,
  previous_live, recent_errors, lower_version, checks_for, report_of,
}

-- Every element of one list is in another.
abbrev pub Within : List Ident → List Ident → Type 0
Within xs ys = All (λ x. mem x ys ≡ true) xs

minus-Within : (xs ys : List Ident) → (is_empty (minus xs ys) ≡ true) ↔ Within xs ys
unfolding minus select
minus-Within [] ys = (λ _. tt, λ _. refl)
minus-Within (x ∷ xs) ys =
    (λ h. ground (arith, (minus-Within xs ys).0), λ h. ground (arith, (minus-Within xs ys).1))

-- The tools of the previous version are kept.
abbrev pub KeepsTools : Config → Config → Type 0
KeepsTools prev target = Within (tools_of prev) (tools_of target)

abbrev pub KeepsKeys : Config → Config → Type 0
KeepsKeys prev target =
    (is_some prev.tools ≡ true → is_some target.tools ≡ true) × Within prev.others target.others

-- With a registry, every tool of the version is registered.
abbrev pub Registered : Option (List Ident) → List Ident → Type 0
Registered none tools = Unit
Registered (some known) tools = Within tools known

-- With settings, the version's model, if it names one, is among the configured ones.
abbrev pub ModelAllowed : Option ModelSettings → Option Ident → Type 0
ModelAllowed (some s) (some m) = mem m (allowed_models s) ≡ true
ModelAllowed _ _ = Unit

module _ (tenant agent : Ident) where
  abbrev pub previous_config : ℕ → Db → Config
  previous_config v db = elim (previous_live tenant agent v db) [
    | none ↦ empty_config
    | some r ↦ sanitize r.config
  ]

  -- What makes a version fit to be published.
  pub record Compatible (env : Env) (v : ℕ) (row : VersionRow) (db : Db) : Type 0 where
    pub keeps_tools : KeepsTools (previous_config v db) row.config
    pub registered : Registered env.registry (tools_of row.config)
    pub model_allowed : ModelAllowed env.settings row.model
    pub keeps_keys_of : KeepsKeys (previous_config v db) row.config
    pub can_roll_back : (v ≡ 1) ⊎ (is_some (lower_version tenant agent v db) ≡ true)

check_api-KeepsTools :
    (prev target : Config) → (is_fail (check_api prev target) ≡ false) ↔ KeepsTools prev target
unfolding check_api
check_api-KeepsTools prev target = (
  λ h. (minus-Within _ _).0 (ground arith),
  λ h. ground (arith, (minus-Within (tools_of prev) (tools_of target)).1 h),
)

check_tool-Registered :
    (registry : Option (List Ident)) (target : Config)
    → (is_fail (check_tool registry target) ≡ false) ↔ Registered registry (tools_of target)
unfolding check_tool
check_tool-Registered none target = (λ _. tt, λ _. refl)
check_tool-Registered (some known) target = (
  λ h. (minus-Within _ _).0 (ground arith),
  λ h. ground (arith, (minus-Within (tools_of target) known).1 h),
)

check_model-ModelAllowed :
    (settings : Option ModelSettings) (m : Option Ident)
    → (is_fail (check_model settings m) ≡ false) ↔ ModelAllowed settings m
unfolding check_model
check_model-ModelAllowed (some s) (some m) = (λ h. ground arith, λ h. ground arith)
check_model-ModelAllowed none (some m) = (λ _. tt, λ _. refl)
check_model-ModelAllowed none none = (λ _. tt, λ _. refl)
check_model-ModelAllowed (some s) none = (λ _. tt, λ _. refl)

check_config-KeepsKeys :
    (prev target : Config) → (is_fail (check_config prev target) ≡ false) ↔ KeepsKeys prev target
unfolding check_config keeps_keys
check_config-KeepsKeys prev target = (
  λ h. (λ k. ground arith, (minus-Within prev.others target.others).0 (ground arith)),
  λ h. ground (arith, h.0, (minus-Within prev.others target.others).1 h.1),
)

check_rollback-lower :
    (v : ℕ) (lower : Option VersionRow)
    → (is_fail (check_rollback v lower) ≡ false) ↔ ((v ≡ 1) ⊎ (is_some lower ≡ true))
unfolding check_rollback
check_rollback-lower v lower = (λ h. ground arith, λ h. ground arith)

check_prompt-not_fail : (t : ℕ) (recent : List Bool) → is_fail (check_prompt t recent) ≡ false
unfolding check_prompt
check_prompt-not_fail t recent = ground arith

-- A report fails exactly if one of its checks fails.
worst-fail :
    (cs : List Check) → (is_fail (worst cs) ≡ false) ↔ All (λ c. is_fail c.status ≡ false) cs
unfolding worst
worst-fail [] = (λ _. tt, λ _. refl)
worst-fail (c ∷ cs) =
    (λ h. ground (arith, (worst-fail cs).0), λ h. ground (arith, (worst-fail cs).1 h.1))

module _ (tenant agent : Ident) where
  -- The report of the ten checks does not block exactly where the version is compatible; the
  -- errors of the recent runs never block.
  pub checks_for-Compatible :
      (env : Env) (v min_runs error_threshold : ℕ) (row : VersionRow) (db : Db)
      → ((report_of (checks_for tenant agent env v min_runs error_threshold row db)).blocked
          ≡ false)
        ↔ Compatible tenant agent env v row db
  unfolding report_of checks_for
  checks_for-Compatible env v min_runs error_threshold row db = (
    λ h.
        let all =
          (worst-fail (checks_for tenant agent env v min_runs error_threshold row db)).0 h in
        record {
          keeps_tools = (check_api-KeepsTools prev cfg).0 all.0;
          registered = (check_tool-Registered env.registry cfg).0 all.1.1.1.1.0;
          model_allowed = (check_model-ModelAllowed env.settings row.model).0 all.1.1.1.1.1.0;
          keeps_keys_of = (check_config-KeepsKeys prev cfg).0 all.1.1.1.1.1.1.0;
          can_roll_back =
              (check_rollback-lower v (lower_version tenant agent v db)).0 all.1.1.1.1.1.1.1.1.1.0;
        },
    λ c. (worst-fail (checks_for tenant agent env v min_runs error_threshold row db)).1 (
      (check_api-KeepsTools prev cfg).1 c.keeps_tools,
      (
        refl,
        (
          refl,
          (
            check_prompt-not_fail error_threshold (recent_errors tenant agent min_runs db),
            (
              (check_tool-Registered env.registry cfg).1 c.registered,
              (
                (check_model-ModelAllowed env.settings row.model).1 c.model_allowed,
                (
                  (check_config-KeepsKeys prev cfg).1 c.keeps_keys_of,
                  (
                    refl,
                    (
                      refl,
                      (
                        (check_rollback-lower v (lower_version tenant agent v db)).1
                            c.can_roll_back,
                        tt,
                      ),
                    ),
                  ),
                ),
              ),
            ),
          ),
        ),
      ),
    ),
  )
    where
      prev : Config
      prev = previous_config tenant agent v db

      cfg : Config
      cfg = sanitize row.config
