-- ===== src/Gateway/Router.antt =====
-- The choice of a model and the chain of fallbacks (app/agent/model/router.py). A model name is an
-- identifier, the empty string being `no_model`; the texts of the decision are not modelled.
pub mod Chain
use new_rag.Base.{List, [], ◌∷◌, ◌++◌, ◌==◌, if◌then◌else◌, Ident, mem, not, ◌&&◌}

abbrev pub no_model : Ident
no_model = 0

-- `a or b`
abbrev pub or_else : Ident → Ident → Ident
or_else a b = if a == no_model then b else a

pub data Tier : Type 0 where
  small medium large other_tier : Tier

pub record ModelRouter : Type 0 where
  pub small_model : Ident
  pub medium_model : Ident
  pub large_model : Ident
  pub default_model : Ident

unfoldable pub set_default_model : Ident → ModelRouter → ModelRouter
set_default_model m r = if m == no_model then r else record r { default_model = m }

unfoldable pub route : Tier → Ident → ModelRouter → Ident
route tier m r = or_else m (elim tier [
  | small ↦ or_else r.small_model r.default_model
  | medium ↦ or_else r.medium_model r.default_model
  | large ↦ or_else r.large_model r.default_model
  | other_tier ↦ r.default_model
])

-- `if m and m not in chain: chain.append(m)` over a list of models.
unfoldable pub add_new : List Ident → List Ident → List Ident
add_new [] chain = chain
add_new (m ∷ ms) chain =
    add_new ms (if not (m == no_model) && not (mem m chain) then chain ++ m ∷ [] else chain)

-- `chain or [default]`
abbrev pub or_default : List Ident → Ident → List Ident
or_default [] d = d ∷ []
or_default (x ∷ xs) d = x ∷ xs

unfoldable pub fallback_chain : Ident → ModelRouter → List Ident
unfolding add_new
fallback_chain m r =
    if m == no_model
    then or_default
        (add_new (r.large_model ∷ r.medium_model ∷ r.small_model ∷ r.default_model ∷ []) [])
        r.default_model
    else m ∷ []
