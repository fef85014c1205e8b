-- ===== src/Access/Tests.antt =====
-- The theorem on the decisions of the policy engine at a concrete input.
use new_rag.Base.{Exists, ◌↔◌, mem, ◌≡◌, some, none, true, List, [], ◌∷◌, not, ◌&&◌, Ident}
use new_rag.Base.Order.{any}
use new_rag.Access.Policy.{
  rows_for, wildcard, Effect, allow, deny, PolicyRow, UserRoleRow, Subject, is_allowed,
}
use new_rag.Access.Actions.{list_actions, grants, refuses, list_actions-any}
use new_rag.Access.Policy.Decision.{Hits, is_allowed_iff}

abbrev subject : Subject
subject = record { tenant_id = 1; user_id = 2 }

abbrev roles : List UserRoleRow
roles = record { tenant = 1; user = 2; role = 3 } ∷ []

abbrev policy : Ident → Effect → Ident → PolicyRow
policy id e action = record {
  id = id;
  tenant_id = 1;
  user_id = none;
  role_id = some 3;
  action = action;
  resource = wildcard;
  effect = e;
  enabled = true;
}

abbrev policies : List PolicyRow
policies = policy 10 allow wildcard ∷ policy 11 deny 5 ∷ []

is_allowed_iff_example : ((is_allowed subject 5 6 roles policies).allowed ≡ true) ↔ (
    Exists (Hits allow subject roles 5 6) policies
    × (¬ Exists (Hits deny subject roles 5 6) policies))
is_allowed_iff_example = is_allowed_iff subject 5 6 roles policies

list_actions-any_example :
    let rows = rows_for subject roles policies in
    (mem 5 (list_actions subject roles policies).allowed
      ≡ (any (grants 5) rows && not (any (refuses 5) rows)))
    × (mem 5 (list_actions subject roles policies).denied
        ≡ (any (grants 5) rows && any (refuses 5) rows))
list_actions-any_example = list_actions-any subject 5 roles policies
