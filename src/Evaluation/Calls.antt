-- ===== src/Evaluation/Calls.antt =====
-- The order of a run's tool calls (`_is_subsequence` of app/evaluation/service.py).
use new_rag.Base.{
  inr, inl, Bool-cases, Option-cases, ◌≡◌, ◌↔◌, Bool, true, false, Option, none, some, List, [],
  ◌∷◌, refl, arith, if◌then◌else◌,
}
use mathlib.Core.Path.{sym, subst}
use new_rag.Evaluation.Text.{Text, eq_text, eq_text_refl, eq_text-true}

-- `any(x == e for x in it)` on what the iterator has left; the elements up to the hit are consumed.
unfoldable pub advance : Text → List Text → Option (List Text)
advance e [] = none
advance e (x ∷ it) = let rest = advance e it in if eq_text x e then some it else rest

-- `all(any(x == e for x in it) for e in expected)`
unfoldable pub is_subsequence : List Text → List Text → Bool
is_subsequence [] it = true
is_subsequence (e ∷ expected) it = elim (advance e it) [
  | none ↦ false
  | some rest ↦ is_subsequence expected rest
]

-- The calls in order, with others between them.
pub data Subsequence : List Text → List Text → Type 0 where
  done : Subsequence [] []
  keep : (x : Text) {xs ys : List Text} → Subsequence xs ys → Subsequence (x ∷ xs) (x ∷ ys)
  skip : (y : Text) {xs ys : List Text} → Subsequence xs ys → Subsequence xs (y ∷ ys)

none-Subsequence : (ys : List Text) → Subsequence [] ys
none-Subsequence [] = done
none-Subsequence (y ∷ ys) = skip y (none-Subsequence ys)

-- A hit is the first of a subsequence whose rest lies in what is left.
advance-Subsequence :
    (e : Text) (it xs rest : List Text)
    → advance e it ≡ some rest
    → Subsequence xs rest
    → Subsequence (e ∷ xs) it
unfolding advance
advance-Subsequence e [] xs rest h s = cc
advance-Subsequence e (x ∷ it) xs rest h s = elim (Bool-cases (eq_text x e)) [
  | inl hit ↦
      let it=rest : it ≡ rest = ground (arith, h, hit) in
      let x=e = eq_text-true x e hit in
      subst (λ z. Subsequence (e ∷ xs) (z ∷ it)) (sym x=e)
        (keep e (subst (λ r. Subsequence xs r) (sym it=rest) s))
  | inr miss ↦ skip x (advance-Subsequence e it xs rest (ground (arith, h, miss)) s)
]

-- What contains a longer subsequence contains it without its first element.
Subsequence-tail : {e : Text} {xs ys : List Text} → Subsequence (e ∷ xs) ys → Subsequence xs ys
Subsequence-tail (keep x s) = skip x s
Subsequence-tail (skip y s) = skip y (Subsequence-tail s)

-- The first hit leaves enough for the rest of a subsequence.
Subsequence-advance :
    {e : Text} {xs it : List Text}
    → Subsequence (e ∷ xs) it
    → (rest : List Text) × (advance e it ≡ some rest) × Subsequence xs rest
unfolding advance
Subsequence-advance (keep x {xs} {ys} s) = (ys, ground (arith, eq_text_refl x), s)
Subsequence-advance {e} (skip y {ys = it} s) = elim (Bool-cases (eq_text y e)) [
  | inl hit ↦ (it, ground (arith, hit), Subsequence-tail s)
  | inr miss ↦
      let (rest, found, s') = Subsequence-advance s in (rest, ground (arith, found, miss), s')
]

is_subsequence-Subsequence : (xs ys : List Text) → is_subsequence xs ys ≡ true → Subsequence xs ys
unfolding is_subsequence
is_subsequence-Subsequence [] ys h = none-Subsequence ys
is_subsequence-Subsequence (x ∷ xs) ys h = elim (Option-cases (advance x ys)) [
  | inl n ↦ absurd (ground (arith, h, n))
  | inr (rest, e) ↦
      advance-Subsequence x ys xs rest e (is_subsequence-Subsequence xs rest (ground (arith, h, e)))
]

Subsequence-is_subsequence : (xs ys : List Text) → Subsequence xs ys → is_subsequence xs ys ≡ true
unfolding is_subsequence
Subsequence-is_subsequence [] ys s = refl
Subsequence-is_subsequence (x ∷ xs) ys s =
    let (rest, e, s') = Subsequence-advance s in
    let ih = Subsequence-is_subsequence xs rest s' in ground (arith, e, ih)

-- The test, which consumes the calls from the left and never goes back, accepts exactly the calls that
-- contain the expected ones in their order, whatever stands between them.
pub is_subsequence_iff :
    (expected actual : List Text)
    → (is_subsequence expected actual ≡ true) ↔ Subsequence expected actual
is_subsequence_iff expected actual =
    (is_subsequence-Subsequence expected actual, Subsequence-is_subsequence expected actual)
