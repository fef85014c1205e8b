-- ===== src/Config/Rollout.antt =====
-- The rollout of a feature flag (app/configcenter/service.py).
use new_rag.Base.{
  ◌+◌, ◌&&◌, ◌||◌, ◌∙◌, ap, ◌||◌, ℕ, ◌≡◌, leb, not, refl, arith, Bool, Option, Option-cases, none,
  some, inl, inr, List, Ident, mem,
}
use new_rag.Base.Table.{first-select-append, first-select-update}
use new_rag.Config.{
  FeatureFlagRow, Rules, flag_of, find_flag, set_flag, is_enabled, tenant_passes, bucket,
}

-- A flag that was set is found with what was written.
find_flag-set_flag :
    (tenant key : Ident) (rules : Rules) (enabled : Bool) (rows : List FeatureFlagRow)
    → (r : FeatureFlagRow) × (find_flag tenant key (set_flag tenant key rules enabled rows)
        ≡ some r)
      × (r.rules ≡ rules)
      × (r.enabled ≡ enabled)
unfolding find_flag set_flag
find_flag-set_flag tenant key rules enabled rows = elim (Option-cases (find_flag tenant key rows)) [
  | inl n ↦
      let row : FeatureFlagRow = record {
        tenant_id = tenant;
        key = key;
        rules = rules;
        enabled = enabled;
        version = 1;
      } in
      let hit = first-select-append (flag_of tenant key) rows row n (ground arith) in
      (row, ground (arith, n, hit), refl, refl)
  | inr (r, e) ↦
      let write = λ (r : FeatureFlagRow). record r {
        rules = rules;
        enabled = enabled;
        version = r.version + 1;
      } in
      let hit = first-select-update (flag_of tenant key) write (λ r h. ground (arith, h)) rows in
      (write r, ground (arith, e, hit), refl, refl)
]

-- Whom the rules of an enabled flag reach.
unfoldable pub reaches : (Ident → ℕ) → Ident → Option Ident → Rules → Bool
reaches hash tenant none rules = tenant_passes hash tenant rules
reaches hash tenant (some u) rules =
    mem u rules.users
    || (not (leb rules.percentage (bucket hash u)) && tenant_passes hash tenant rules)

is_enabled-found :
    (hash : Ident → ℕ) (tenant key : Ident) (user : Option Ident) (r : FeatureFlagRow)
    (rows : List FeatureFlagRow)
    → find_flag tenant key rows ≡ some r
    → is_enabled hash tenant key user rows ≡ (r.enabled && reaches hash tenant user r.rules)
unfolding is_enabled reaches
is_enabled-found hash tenant key none r rows e = ground (arith, e)
is_enabled-found hash tenant key (some u) r rows e = ground (arith, e)

-- A flag that was set enabled is on for exactly those whom its rules reach: everyone of its tenants
-- without a user, the listed users, and of the others of its tenants those whose bucket is below the
-- percentage. A flag that was set disabled is on for no one.
pub is_enabled-set_flag :
    (hash : Ident → ℕ) (tenant key : Ident) (user : Option Ident) (rules : Rules) (enabled : Bool)
    (rows : List FeatureFlagRow)
    → is_enabled hash tenant key user (set_flag tenant key rules enabled rows)
      ≡ (enabled && reaches hash tenant user rules)
is_enabled-set_flag hash tenant key user rules enabled rows =
    let (r, found, rules_e, enabled_e) = find_flag-set_flag tenant key rules enabled rows in
    is_enabled-found hash tenant key user r (set_flag tenant key rules enabled rows) found
    ∙ ap (λ b. b && reaches hash tenant user r.rules) enabled_e
    ∙ ap (λ x. enabled && reaches hash tenant user x) rules_e
