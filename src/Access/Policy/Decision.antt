-- ===== src/Access/Policy/Decision.antt =====
-- What a decision of the policy engine means (app/security/policy.py).
use new_rag.Base.Table.{select}
use new_rag.Base.{
  ◌↔◌, Exists, inl, inr, Option-cases, Bool-cases, ◌==◌, true, ◌⊎◌, mem, Bool, Option, none, some,
  List, [], ◌∷◌, ◌≡◌, refl, arith, ◌&&◌, ◌||◌, not, Ident, is_some,
}
use new_rag.Base.Order.{any-Exists, any, any-select}
use new_rag.Access.Policy.{
  wildcard, true, null_or, Effect, allow, deny, other_effect, PolicyRow, UserRoleRow, Subject,
  is_deny, is_allow, concerns, user_role_ids, rows_for, matches, decide, decision, is_allowed,
}

-- A policy that concerns a subject and matches a call, with a given effect.
abbrev pub hits : (Effect → Bool) → Subject → List UserRoleRow → Ident → Ident → PolicyRow → Bool
hits effect s roles a r p =
    concerns s (user_role_ids s roles) p && (matches p a r && effect p.effect)

is_allow_iff : (e : Effect) → (is_allow e ≡ true) ↔ (e ≡ allow)
is_allow_iff allow = ((λ _. refl), λ _. refl)
is_allow_iff deny = ((λ h. absurd (ground arith)), λ h. absurd (ground arith))
is_allow_iff other_effect = ((λ h. absurd (ground arith)), λ h. absurd (ground arith))

is_deny_iff : (e : Effect) → (is_deny e ≡ true) ↔ (e ≡ deny)
is_deny_iff deny = ((λ _. refl), λ _. refl)
is_deny_iff allow = ((λ h. absurd (ground arith)), λ h. absurd (ground arith))
is_deny_iff other_effect = ((λ h. absurd (ground arith)), λ h. absurd (ground arith))

decide-any :
    (a r : Ident) (rows : List PolicyRow) (found : Option PolicyRow)
    → (decision (decide a r rows found)).allowed ≡ (
        not (any (λ p. matches p a r && is_deny p.effect) rows)
        && (is_some found || any (λ p. matches p a r && is_allow p.effect) rows))
unfolding decide decision
decide-any a r [] none = refl
decide-any a r [] (some p) = refl
decide-any a r (p ∷ ps) none = ground (arith, decide-any a r ps none, decide-any a r ps (some p))
decide-any a r (p ∷ ps) (some q) = ground (arith, decide-any a r ps (some q))

-- A policy of the tenant that is enabled, names no user or the subject's, names no role or one that
-- the subject has in the tenant, and names the action and the resource or all of them.
pub record Applies (s : Subject) (roles : List UserRoleRow) (a r : Ident) (p : PolicyRow)
    : Type 0 where
  pub same_tenant : p.tenant_id ≡ s.tenant_id
  pub is_enabled : p.enabled ≡ true
  pub for_user : (p.user_id ≡ none) ⊎ (p.user_id ≡ some s.user_id)
  pub for_role :
      (p.role_id ≡ none)
      ⊎ Exists
          (λ x. (x.tenant ≡ s.tenant_id) × (x.user ≡ s.user_id) × (p.role_id ≡ some x.role))
          roles
  pub for_action : (p.action ≡ wildcard) ⊎ (p.action ≡ a)
  pub for_resource : (p.resource ≡ wildcard) ⊎ (p.resource ≡ r)

abbrev pub Hits : Effect → Subject → List UserRoleRow → Ident → Ident → PolicyRow → Type 0
Hits effect s roles a r p = Applies s roles a r p × (p.effect ≡ effect)

module _ (s : Subject) (i : Ident) where
  mem-Exists :
      (roles : List UserRoleRow)
      → mem i (user_role_ids s roles) ≡ true
      → Exists (λ x. (x.tenant ≡ s.tenant_id) × (x.user ≡ s.user_id) × (some i ≡ some x.role)) roles
  unfolding user_role_ids select
  mem-Exists [] h = absurd (ground arith)
  mem-Exists (x ∷ roles) h =
      elim (Bool-cases (x.tenant == s.tenant_id && x.user == s.user_id && x.role == i)) [
        | inl e ↦ inl (ground arith, ground arith, ground arith)
        | inr e ↦ inr (mem-Exists roles (ground arith))
      ]

  Exists-mem :
      (roles : List UserRoleRow)
      → Exists (λ x. (x.tenant ≡ s.tenant_id) × (x.user ≡ s.user_id) × (some i ≡ some x.role)) roles
      → mem i (user_role_ids s roles) ≡ true
  unfolding user_role_ids select
  Exists-mem [] h = absurd h
  Exists-mem (x ∷ roles) (inl (t, u, e)) = ground arith
  Exists-mem (x ∷ roles) (inr h) = ground (arith, Exists-mem roles h)

module _ (s : Subject) (roles : List UserRoleRow) (a r : Ident) (p : PolicyRow) where
  null_or-user :
      null_or p.user_id (s.user_id ∷ []) ≡ true → (p.user_id ≡ none) ⊎ (p.user_id ≡ some s.user_id)
  null_or-user h = elim (Option-cases p.user_id) [ inl n ↦ inl n | inr (u, e) ↦ inr (ground arith) ]

  hits-Applies :
      (concerns s (user_role_ids s roles) p && matches p a r) ≡ true → Applies s roles a r p
  unfolding concerns matches
  hits-Applies h = record {
    same_tenant = ground arith;
    is_enabled = ground arith;
    for_user = null_or-user (ground arith);
    for_role = elim (Option-cases p.role_id) [
      | inl n ↦ inl n
      | inr (i, e) ↦ inr (rw e (mem-Exists s i roles (ground arith)))
    ];
    for_action = elim (Bool-cases (p.action == wildcard)) [
      | inl e ↦ inl (ground arith)
      | inr e ↦ inr (ground arith)
    ];
    for_resource = elim (Bool-cases (p.resource == wildcard)) [
      | inl e ↦ inl (ground arith)
      | inr e ↦ inr (ground arith)
    ];
  }

  Applies-hits :
      Applies s roles a r p → (concerns s (user_role_ids s roles) p && matches p a r) ≡ true
  unfolding concerns matches
  Applies-hits h =
      let by_user : null_or p.user_id (s.user_id ∷ []) ≡ true = elim h.for_user [
        | inl e ↦ ground (arith, e)
        | inr e ↦ ground (arith, e)
      ] in
      let by_role : null_or p.role_id (user_role_ids s roles) ≡ true =
        elim (Option-cases p.role_id) [
          | inl n ↦ ground (arith, n)
          | inr (i, e) ↦ elim h.for_role [
            | inl n ↦ absurd (ground (arith, n, e))
            | inr x ↦ let held = Exists-mem s i roles (rw e at x) in ground (arith, e, held)
          ]
        ] in
      let by_action : (p.action == wildcard || p.action == a) ≡ true = elim h.for_action [
        | inl e ↦ ground (arith, e)
        | inr e ↦ ground (arith, e)
      ] in
      let by_resource : (p.resource == wildcard || p.resource == r) ≡ true = elim h.for_resource [
        | inl e ↦ ground (arith, e)
        | inr e ↦ ground (arith, e)
      ] in
      ground (arith, h.same_tenant, h.is_enabled, by_user, by_role, by_action, by_resource)

hits_iff :
    (s : Subject) (roles : List UserRoleRow) (a r : Ident) (effect : Effect) (is : Effect → Bool)
    → ((e : Effect) → (is e ≡ true) ↔ (e ≡ effect))
    → (p : PolicyRow) → (hits is s roles a r p ≡ true) ↔ Hits effect s roles a r p
hits_iff s roles a r effect is f p = (
  λ h. (hits-Applies s roles a r p (ground arith), (f p.effect).0 (ground arith)),
  λ h.
      let applies = Applies-hits s roles a r p h.0 in let same = (f p.effect).1 h.1 in ground arith,
)

-- The answer by tests on the policies, whose order does not matter.
pub is_allowed-any :
    (s : Subject) (a r : Ident) (roles : List UserRoleRow) (policies : List PolicyRow)
    → (is_allowed s a r roles policies).allowed
      ≡ (not (any (hits is_deny s roles a r) policies) && any (hits is_allow s roles a r) policies)
unfolding is_allowed rows_for
is_allowed-any s a r roles policies =
    let c = concerns s (user_role_ids s roles) in
    ground (
      arith,
      decide-any a r (select c policies) none,
      any-select (λ p. matches p a r && is_deny p.effect) c policies,
      any-select (λ p. matches p a r && is_allow p.effect) c policies,
    )

-- A call is allowed exactly when some policy with the effect ALLOW applies to it and none with the
-- effect DENY does. A policy applies if it is of the subject's tenant and enabled, names no user or
-- the subject's, names no role or one that the subject has in the tenant, and names the action and the
-- resource or the wildcard.
pub is_allowed_iff :
    (s : Subject) (a r : Ident) (roles : List UserRoleRow) (policies : List PolicyRow)
    → ((is_allowed s a r roles policies).allowed ≡ true)
      ↔ (Exists (Hits allow s roles a r) policies × (¬ Exists (Hits deny s roles a r) policies))
is_allowed_iff s a r roles policies =
    let granted =
      any-Exists {P = Hits allow s roles a r} (hits_iff s roles a r allow is_allow is_allow_iff)
        policies in
    let refused =
      any-Exists {P = Hits deny s roles a r} (hits_iff s roles a r deny is_deny is_deny_iff)
        policies in
    let by = is_allowed-any s a r roles policies in
    (
      λ h. (granted.0 (ground arith), λ x. let no = refused.1 x in ground arith),
      λ h.
          let yes = granted.1 h.0 in
          elim (Bool-cases (any (hits is_deny s roles a r) policies)) [
            | inl e ↦ absurd (h.1 (refused.0 e))
            | inr n ↦ ground (arith, by, yes, n)
          ],
    )
