-- ===== src/Gateway/Router/Chain.antt =====
-- The chain of fallbacks (app/agent/model/router.py).
use new_rag.Base.{
  ap, false, List, [], ◌∷◌, ◌++◌, ◌==◌, ◌≡◌, ◌≢◌, refl, arith, if◌then◌else◌, Ident, mem, not, ◌&&◌,
  ◌||◌, ◌<◌, Bool-cases, inl, inr, length,
}
use new_rag.Gateway.Router.{or_default, no_model, ModelRouter, add_new, fallback_chain}

-- No element of a list occurs again.
unfoldable pub NoRepeat : List Ident → Type 0
NoRepeat [] = Unit
NoRepeat (x ∷ xs) = (mem x xs ≡ false) × NoRepeat xs

mem-append : (x : Ident) (xs ys : List Ident) → mem x (xs ++ ys) ≡ (mem x xs || mem x ys)
mem-append x [] ys = refl
mem-append x (y ∷ xs) ys = ground (arith, mem-append x xs ys)

NoRepeat-snoc :
    (xs : List Ident) (y : Ident) → NoRepeat xs → mem y xs ≡ false → NoRepeat (xs ++ y ∷ [])
unfolding NoRepeat
NoRepeat-snoc [] y n e = (refl, tt)
NoRepeat-snoc (x ∷ xs) y n e =
    (ground (arith, mem-append x xs (y ∷ []), n.0), NoRepeat-snoc xs y n.1 (ground arith))

add_new-NoRepeat : (ms chain : List Ident) → NoRepeat chain → NoRepeat (add_new ms chain)
unfolding add_new
add_new-NoRepeat [] chain n = n
add_new-NoRepeat (m ∷ ms) chain n = elim (Bool-cases (not (m == no_model) && not (mem m chain))) [
  | inl e ↦
      rw (e, if◌then◌else◌)
        (add_new-NoRepeat ms (chain ++ m ∷ []) (NoRepeat-snoc chain m n (ground arith)))
  | inr e ↦ rw (e, if◌then◌else◌) (add_new-NoRepeat ms chain n)
]

-- The names that are offered, and those of the chain before, are in the chain; no others are.
add_new-mem :
    (ms chain : List Ident) (x : Ident)
    → x ≢ no_model
    → mem x (add_new ms chain) ≡ (mem x chain || mem x ms)
unfolding add_new
add_new-mem [] chain x n = ground arith
add_new-mem (m ∷ ms) chain x n = elim (Bool-cases (not (m == no_model) && not (mem m chain))) [
  | inl f ↦
      rw (f, if◌then◌else◌)
        (ground (arith, add_new-mem ms (chain ++ m ∷ []) x n, mem-append x chain (m ∷ [])))
  | inr f ↦ elim (Bool-cases (m == x)) [
    | inl q ↦
        let same : m ≡ x = ground arith in
        let both = ap (λ y. mem y chain) same in
        rw (f, if◌then◌else◌) (ground (arith, add_new-mem ms chain x n, both))
    | inr q ↦ rw (f, if◌then◌else◌) (ground (arith, add_new-mem ms chain x n))
  ]
]

or_default-kept :
    (chain : List Ident) (d x : Ident)
    → NoRepeat chain
    → (mem x chain ≡ false → (d == x) ≡ false)
    → (0 < length (or_default chain d))
      × NoRepeat (or_default chain d)
      × (mem x (or_default chain d) ≡ mem x chain)
unfolding NoRepeat
or_default-kept [] d x n h = (omega arith, (refl, tt), ground (arith, h refl))
or_default-kept (y ∷ ys) d x n h = (omega arith, n, refl)

-- The chain is never empty and names no model twice. Without an explicit model it holds exactly the
-- configured models; an explicit model is all of it.
pub fallback_chain_complete :
    (m : Ident) (r : ModelRouter) (x : Ident)
    → x ≢ no_model
    → (0 < length (fallback_chain m r))
      × NoRepeat (fallback_chain m r)
      × (mem x (fallback_chain m r) ≡ (
          if m == no_model
          then mem x (r.large_model ∷ r.medium_model ∷ r.small_model ∷ r.default_model ∷ [])
          else m == x))
unfolding fallback_chain NoRepeat
fallback_chain_complete m r x n =
    let all = r.large_model ∷ r.medium_model ∷ r.small_model ∷ r.default_model ∷ [] in
    let found = add_new-mem all [] x n in
    let norep = add_new-NoRepeat all [] tt in
    elim (Bool-cases (m == no_model)) [
      | inl e ↦
          rw (e, if◌then◌else◌)
            (let (some_model, once, same) =
                or_default-kept (add_new all []) r.default_model x norep (λ h. ground arith) in
              (some_model, once, ground arith))
      | inr e ↦ rw (e, if◌then◌else◌) (omega arith, (refl, tt), ground arith)
    ]
