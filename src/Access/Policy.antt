-- ===== src/Access/Policy.antt =====
-- `PolicyEngine` (app/security/policy.py): which policies concern a subject, and the decision. The
-- action or resource "*" is `wildcard`; the text of the reason is not modelled.
pub mod Decision
use new_rag.Base.{
  Bool, true, false, Option, none, some, List, [], ◌∷◌, map, ◌==◌, ◌&&◌, ◌||◌, if◌then◌else◌, Ident,
  mem,
}
use new_rag.Base.Table.{select}

abbrev pub wildcard : Ident
wildcard = 0

pub data Effect : Type 0 where
  allow deny other_effect : Effect

pub record PolicyRow : Type 0 where
  pub id : Ident
  pub tenant_id : Ident
  pub user_id : Option Ident
  pub role_id : Option Ident
  pub action : Ident
  pub resource : Ident
  pub effect : Effect
  pub enabled : Bool

pub record UserRoleRow : Type 0 where
  pub tenant : Ident
  pub user : Ident
  pub role : Ident

pub record Subject : Type 0 where
  pub tenant_id : Ident
  pub user_id : Ident

abbrev pub is_deny : Effect → Bool
is_deny deny = true
is_deny _ = false

abbrev pub is_allow : Effect → Bool
is_allow allow = true
is_allow _ = false

unfoldable pub user_role_ids : Subject → List UserRoleRow → List Ident
unfolding select
user_role_ids s roles =
    map (λ r. r.role) (select (λ r. r.tenant == s.tenant_id && r.user == s.user_id) roles)

-- A nullable column that is NULL or one of given values.
abbrev pub null_or : Option Ident → List Ident → Bool
null_or none ids = true
null_or (some i) ids = mem i ids

unfoldable pub concerns : Subject → List Ident → PolicyRow → Bool
concerns s role_ids p =
    p.tenant_id == s.tenant_id
    && p.enabled
    && null_or p.user_id (s.user_id ∷ [])
    && null_or p.role_id role_ids

unfoldable pub rows_for : Subject → List UserRoleRow → List PolicyRow → List PolicyRow
unfolding select
rows_for s roles policies = select (concerns s (user_role_ids s roles)) policies

unfoldable pub matches : PolicyRow → Ident → Ident → Bool
matches p a r =
    (p.action == wildcard || p.action == a) && (p.resource == wildcard || p.resource == r)

-- The loop of `is_allowed`: the DENY that ends it, or the first ALLOW.
pub data Found : Type 0 where
  denied_by : PolicyRow → Found
  allowed_by : PolicyRow → Found
  nothing : Found

unfoldable pub decide : Ident → Ident → List PolicyRow → Option PolicyRow → Found
decide a r [] none = nothing
decide a r [] (some p) = allowed_by p
decide a r (p ∷ ps) first_allow =
    if matches p a r
    then (elim p.effect [
      | deny ↦ denied_by p
      | allow ↦ decide a r ps (elim first_allow [ none ↦ some p | some q ↦ some q ])
      | other_effect ↦ decide a r ps first_allow
    ])
    else decide a r ps first_allow

pub record PolicyDecision : Type 0 where
  pub allowed : Bool
  pub policy_id : Option Ident

unfoldable pub decision : Found → PolicyDecision
decision (denied_by p) = record { allowed = false; policy_id = some p.id }
decision (allowed_by p) = record { allowed = true; policy_id = some p.id }
decision nothing = record { allowed = false; policy_id = none }

unfoldable pub is_allowed :
    Subject → Ident → Ident → List UserRoleRow → List PolicyRow → PolicyDecision
is_allowed s a r roles policies = decision (decide a r (rows_for s roles policies) none)
