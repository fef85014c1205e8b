-- ===== src/Evaluation/Text.antt =====
-- The operations of Python's strings that the evaluation uses (app/evaluation/service.py), on lists of
-- code points. Space and case are those of ASCII.
use mathlib.Core.Path.{subst}
use new_rag.Base.{
  ℕ, ◌+◌, ◌-◌, ◌≡◌, ◌==◌, ◌&&◌, ◌||◌, Bool, true, false, List, [], ◌∷◌, leb, if◌then◌else◌, refl,
  arith, map,
}

abbrev pub Text : Type 0
Text = List ℕ

-- The equality of lists under a test of their elements.
unfoldable pub eq_list {ℓ} : {A : Type ℓ} → (A → A → Bool) → List A → List A → Bool
eq_list eq [] [] = true
eq_list eq [] (_ ∷ _) = false
eq_list eq (_ ∷ _) [] = false
eq_list eq (x ∷ xs) (y ∷ ys) = eq x y && eq_list eq xs ys

abbrev pub eq_text : Text → Text → Bool
eq_text = eq_list (λ a b. a == b)

-- `bool(xs)`
abbrev pub truthy {ℓ} : {A : Type ℓ} → List A → Bool
truthy [] = false
truthy (_ ∷ _) = true

abbrev pub or_else {ℓ} : {A : Type ℓ} → List A → List A → List A
or_else xs ys = if truthy xs then xs else ys

unfoldable pub is_space : ℕ → Bool
is_space c = (leb 9 c && leb c 13) || (leb 28 c && leb c 32)

unfoldable pub lstrip : Text → Text
lstrip [] = []
lstrip (c ∷ cs) = let rest = lstrip cs in if is_space c then rest else c ∷ cs

unfoldable pub rstrip : Text → Text
rstrip [] = []
rstrip (c ∷ cs) =
    let rest = rstrip cs in if truthy rest then c ∷ rest else if is_space c then [] else c ∷ []

abbrev pub strip : Text → Text
strip t = lstrip (rstrip t)

abbrev pub upper_char : ℕ → ℕ
upper_char c = if leb 97 c && leb c 122 then c - 32 else c

abbrev pub lower_char : ℕ → ℕ
lower_char c = if leb 65 c && leb c 90 then c + 32 else c

unfoldable pub upper : Text → Text
upper t = map upper_char t

unfoldable pub lower : Text → Text
lower t = map lower_char t

unfoldable pub starts_with : Text → Text → Bool
starts_with [] t = true
starts_with (p ∷ ps) [] = false
starts_with (p ∷ ps) (c ∷ cs) = p == c && starts_with ps cs

-- `part in whole`
unfoldable pub contains : Text → Text → Bool
contains part [] = starts_with part []
contains part (c ∷ cs) = starts_with part (c ∷ cs) || contains part cs

pub eq_text_refl : (a : Text) → eq_text a a ≡ true
unfolding eq_list
eq_text_refl [] = refl
eq_text_refl (x ∷ xs) = ground (arith, eq_text_refl xs)

pub eq_text-true : (a b : Text) → eq_text a b ≡ true → a ≡ b
unfolding eq_list
eq_text-true [] [] h = refl
eq_text-true [] (_ ∷ _) h = cc
eq_text-true (_ ∷ _) [] h = cc
eq_text-true (x ∷ xs) (y ∷ ys) h = ground (arith, h, eq_text-true xs ys)

pub eq_text_ap : {a b : Text} → a ≡ b → eq_text a b ≡ true
eq_text_ap {a} h = subst (λ b. eq_text a b ≡ true) h (eq_text_refl a)
