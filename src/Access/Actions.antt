-- ===== src/Access/Actions.antt =====
-- The actions of a subject (`list_actions` of app/security/policy.py). A set is the list of its
-- elements.

use new_rag.Base.{
  inl, inr, Bool-cases, ◌≡◌, ◌==◌, ◌&&◌, ◌||◌, ◌∙◌, Bool, List, [], ◌∷◌, if◌then◌else◌, not, mem,
  Ident, refl, ap, arith,
}
use new_rag.Base.Table.{select}
use new_rag.Base.Order.{sort_asc, insert_asc, any}
use new_rag.Access.Policy.{PolicyRow, UserRoleRow, Subject, wildcard, is_allow, rows_for}

-- `xs.add(a)`
unfoldable pub add_to : Ident → List Ident → List Ident
add_to a xs = if mem a xs then xs else a ∷ xs

pub record Actions : Type 0 where
  pub allowed : List Ident
  pub denied : List Ident

-- The loop over the rows; only a row of every resource counts, and an effect other than ALLOW denies.
unfoldable pub collect : List PolicyRow → Actions → Actions
collect [] s = s
collect (p ∷ ps) s =
    if not (p.resource == wildcard)
    then collect ps s
    else if is_allow p.effect
    then collect ps (record s { allowed = add_to p.action s.allowed })
    else collect ps (record s { denied = add_to p.action s.denied })

unfoldable pub list_actions : Subject → List UserRoleRow → List PolicyRow → Actions
list_actions subject roles policies =
    let s = collect (rows_for subject roles policies) (record { allowed = []; denied = [] }) in
    let denied = select (λ a. mem a s.allowed) s.denied in
    record {
      allowed = sort_asc (λ a. a) (select (λ a. not (mem a denied)) s.allowed);
      denied = sort_asc (λ a. a) denied;
    }

mem-insert_asc :
    (a x : Ident) (xs : List Ident) → mem a (insert_asc (λ a. a) x xs) ≡ (x == a || mem a xs)
unfolding insert_asc
mem-insert_asc a x [] = refl
mem-insert_asc a x (y ∷ xs) = ground (arith, mem-insert_asc a x xs)

mem-sort_asc : (a : Ident) (xs : List Ident) → mem a (sort_asc (λ a. a) xs) ≡ mem a xs
unfolding sort_asc
mem-sort_asc a [] = refl
mem-sort_asc a (x ∷ xs) =
    mem-insert_asc a x (sort_asc (λ a. a) xs) ∙ ap (λ b. x == a || b) (mem-sort_asc a xs)

mem-select :
    (p : Ident → Bool) (a : Ident) (xs : List Ident) → mem a (select p xs) ≡ (p a && mem a xs)
unfolding select
mem-select p a [] = ground arith
mem-select p a (x ∷ xs) = ground (arith, mem-select p a xs)

mem-add_to : (a x : Ident) (xs : List Ident) → mem a (add_to x xs) ≡ (x == a || mem a xs)
unfolding add_to
mem-add_to a x xs = ground arith

-- A row of every resource that allows an action, or that does not.
abbrev pub grants : Ident → PolicyRow → Bool
grants a p = p.resource == wildcard && is_allow p.effect && p.action == a

abbrev pub refuses : Ident → PolicyRow → Bool
refuses a p = p.resource == wildcard && not (is_allow p.effect) && p.action == a

mem-collect :
    (a : Ident) (ps : List PolicyRow) (s : Actions)
    → (mem a (collect ps s).allowed ≡ (any (grants a) ps || mem a s.allowed))
      × (mem a (collect ps s).denied ≡ (any (refuses a) ps || mem a s.denied))
unfolding collect
mem-collect a [] s = (refl, refl)
mem-collect a (p ∷ ps) s = elim (Bool-cases (p.resource == wildcard)) [
  | inr n ↦ let ih = mem-collect a ps s in (ground (arith, n, ih.0), ground (arith, n, ih.1))
  | inl e ↦ elim (Bool-cases (is_allow p.effect)) [
    | inl y ↦
        let ih = mem-collect a ps (record s { allowed = add_to p.action s.allowed }) in
        let one = mem-add_to a p.action s.allowed in
        (ground (arith, e, y, ih.0, one), ground (arith, e, y, ih.1))
    | inr n ↦
        let ih = mem-collect a ps (record s { denied = add_to p.action s.denied }) in
        let one = mem-add_to a p.action s.denied in
        (ground (arith, e, n, ih.0), ground (arith, e, n, ih.1, one))
  ]
]

-- An action is listed as allowed exactly if a policy of every resource that concerns the subject allows
-- it and none that names the same action refuses it, and as denied exactly if there are both.
pub list_actions-any :
    (subject : Subject) (a : Ident) (roles : List UserRoleRow) (policies : List PolicyRow)
    → let rows = rows_for subject roles policies in
      (mem a (list_actions subject roles policies).allowed
        ≡ (any (grants a) rows && not (any (refuses a) rows)))
      × (mem a (list_actions subject roles policies).denied
          ≡ (any (grants a) rows && any (refuses a) rows))
unfolding list_actions
list_actions-any subject a roles policies =
    let rows = rows_for subject roles policies in
    let s = collect rows (record { allowed = []; denied = [] }) in
    let (yes_eq, no_eq) = mem-collect a rows (record { allowed = []; denied = [] }) in
    let denied = select (λ a. mem a s.allowed) s.denied in
    let in_denied = mem-select (λ a. mem a s.allowed) a s.denied in
    (
      mem-sort_asc a (select (λ a. not (mem a denied)) s.allowed)
          ∙ mem-select (λ a. not (mem a denied)) a s.allowed
          ∙ ground (arith, yes_eq, no_eq, in_denied),
      mem-sort_asc a denied ∙ in_denied ∙ ground (arith, yes_eq, no_eq),
    )
