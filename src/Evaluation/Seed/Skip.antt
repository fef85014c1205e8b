-- ===== src/Evaluation/Seed/Skip.antt =====
-- When an item of `seed_cases` is skipped (app/evaluation/service.py).
use new_rag.Base.{
  ap, ℕ, ◌+◌, ◌≤◌, ◌≡◌, ◌==◌, ◌&&◌, Bool, true, false, Option, none, some, List, [], ◌∷◌, not,
  Ident, if◌then◌else◌, refl, arith, length, inl, inr, Bool-cases, Option-cases, ap, sym, ◌∙◌,
}
use mathlib.Core.Path.{subst}
use new_rag.Evaluation.Text.{Text, eq_text, eq_list, eq_text-true, truthy, or_else}
use new_rag.Evaluation.Spec.{
  Value, texts, text, Dict, CaseSpec, case_spec, build_spec, current_spec, eq_value, eq_dict,
  covered_by, get_key, keyword, get_text, judge_type_key, lookup, Entry, object, kept, current_of,
  get_key-object,
}

eq_list-true : (xs ys : List Text) → eq_list eq_text xs ys ≡ true → xs ≡ ys
unfolding eq_list
eq_list-true [] [] h = refl
eq_list-true [] (_ ∷ _) h = cc
eq_list-true (_ ∷ _) [] h = cc
eq_list-true (x ∷ xs) (y ∷ ys) h =
    let x=y = eq_text-true x y (ground (arith, h)) in
    let xs=ys = eq_list-true xs ys (ground (arith, h)) in λ i. x=y i ∷ xs=ys i

eq_value-true : (v w : Value) → eq_value v w ≡ true → v ≡ w
unfolding eq_value
eq_value-true (texts xs) (texts ys) h = ap texts (eq_list-true xs ys h)
eq_value-true (text a) (text b) h = ap text (eq_text-true a b h)
eq_value-true (texts xs) (text b) h = cc
eq_value-true (text a) (texts ys) h = cc

-- What an object has that another covers, the other has.
covered_by-get_key :
    (k : Ident) (v : Value) (a b : Dict)
    → covered_by b a ≡ true
    → get_key k a ≡ some v
    → get_key k b ≡ some v
unfolding covered_by get_key
covered_by-get_key k v [] b c h = cc
covered_by-get_key k v ((k', w) ∷ a) b c h = elim (Option-cases (get_key k' b)) [
  | inl n ↦ absurd (ground (arith, c, n))
  | inr (u, e) ↦
      let same : w ≡ u = eq_value-true w u (ground (arith, c, e)) in
      let rest : covered_by b a ≡ true = ground (arith, c, e) in
      elim (Bool-cases (k' == k)) [
        | inl hit ↦
            let k=k : k' ≡ k = ground (arith, hit) in
            let e' : get_key k b ≡ some u = subst (λ x. get_key x b ≡ some u) k=k e in
            let w=v : w ≡ v = ground (arith, h, hit) in e' ∙ ap some (sym same ∙ w=v)
        | inr miss ↦ covered_by-get_key k v a b rest (ground (arith, h, miss))
      ]
]

abbrev one_if : Bool → ℕ
one_if b = if b then 1 else 0

abbrev count : List Entry → ℕ
count [] = 0
count ((present, _) ∷ es) = one_if present + count es

length-object : (es : List Entry) → length (object es) ≡ count es
unfolding object
length-object [] = refl
length-object ((true, e) ∷ es) = ground (arith, length-object es)
length-object ((false, e) ∷ es) = ground (arith, length-object es)

eq_dict-true : (a b : Dict) → eq_dict a b ≡ true → (length a ≡ length b) × (covered_by b a ≡ true)
unfolding eq_dict
eq_dict-true a b h = ground (arith, h)

module _ (c i : CaseSpec) (h : eq_dict (object (current_of c)) (build_spec i) ≡ true) where
  covered : (k : Ident) (v : Value) → lookup k (current_of c) ≡ some v → lookup k (kept i) ≡ some v
  unfolding build_spec
  covered k v e =
      sym (get_key-object k (kept i))
      ∙ covered_by-get_key k v (object (current_of c)) (object (kept i))
          (eq_dict-true (object (current_of c)) (object (kept i)) h).1
          (get_key-object k (current_of c) ∙ e)

  counts : count (current_of c) ≡ count (kept i)
  unfolding build_spec
  counts =
      sym (length-object (current_of c))
      ∙ (eq_dict-true (object (current_of c)) (object (kept i)) h).0
      ∙ length-object (kept i)

-- How many entries a value makes.
abbrev size : {A : Type 0} → List A → ℕ
size xs = one_if (truthy xs)

size-zero : {A : Type 0} (xs : List A) → size xs ≡ 0 → xs ≡ []
size-zero [] h = refl
size-zero (x ∷ xs) h = absurd (omega (arith, h))

-- The entry of a value, and none for an empty one.
abbrev option_of : {A : Type 0} → (List A → Value) → List A → Option Value
option_of make xs = if truthy xs then some (make xs) else none

option_of-none :
    {A : Type 0} (make : List A → Value) (xs : List A)
    → ((v : Value) → option_of make xs ≡ some v → none ≡ some v)
    → xs ≡ []
option_of-none make [] h = refl
option_of-none make (x ∷ xs) h = absurd (let e = h (make (x ∷ xs)) refl in cc)

-- A value that is covered makes no more entries, and with as many it is the same.
option_of-covered :
    {A : Type 0} (make : List A → Value)
    → ((xs ys : List A) → make xs ≡ make ys → xs ≡ ys)
    → (xs ys : List A) → ((v : Value) → option_of make xs ≡ some v → option_of make ys ≡ some v)
    → (size xs ≤ size ys) × (size xs ≡ size ys → xs ≡ ys)
option_of-covered make f [] [] h = (omega arith, λ _. refl)
option_of-covered make f [] (y ∷ ys) h = (omega arith, λ e. absurd (omega (arith, e)))
option_of-covered make f (x ∷ xs) [] h = absurd (let e = h (make (x ∷ xs)) refl in cc)
option_of-covered make f (x ∷ xs) (y ∷ ys) h =
    let e = h (make (x ∷ xs)) refl in
    (omega arith, λ _. sym (f (y ∷ ys) (x ∷ xs) (ground (arith, e))))

texts-covered :
    (xs ys : List Text)
    → ((v : Value) → option_of texts xs ≡ some v → option_of texts ys ≡ some v)
    → (size xs ≤ size ys) × (size xs ≡ size ys → xs ≡ ys)
texts-covered = option_of-covered texts (λ xs ys e. cc)

text-covered :
    (a b : Text)
    → ((v : Value) → option_of text a ≡ some v → option_of text b ≡ some v)
    → (size a ≤ size b) × (size a ≡ size b → a ≡ b)
text-covered = option_of-covered text (λ a b e. cc)

truthy-or_else : (t : Text) → truthy (or_else t keyword) ≡ true
truthy-or_else [] = refl
truthy-or_else (x ∷ t) = refl

-- A judge that is covered is stored.
judge-covered :
    (a b : Text)
    → truthy a ≡ true
    → ((v : Value)
        → option_of text a ≡ some v
        → (if truthy b && not (eq_text b keyword) then some (text b) else none) ≡ some v)
    → (a ≡ b) × (truthy b && not (eq_text b keyword) ≡ true)
judge-covered a b t h =
    let e = h (text a) (ground (arith, t)) in
    elim (Bool-cases (truthy b && not (eq_text b keyword))) [
      | inl s ↦ (ground (arith, e, s), s)
      | inr n ↦ absurd (ground (arith, e, n))
    ]

-- Counts that are bounded one by one and equal in sum are equal.
balance :
    {m m' a a' x x' y y' t t' c c' j j' : ℕ}
    → m ≤ m'
    → a ≤ a'
    → x ≤ x'
    → y ≤ y'
    → t ≡ 0
    → c ≡ 0
    → j ≡ 1
    → j' ≡ 1
    → t + (c + (m + (a + (x + (y + (j + 0)))))) ≡ t' + (c' + (m' + (a' + (x' + (y' + (j' + 0))))))
    → (m ≡ m') × (a ≡ a') × (x ≡ x') × (y ≡ y') × (t' ≡ 0) × (c' ≡ 0)
balance m a x y t c j j' n =
    (omega arith, omega arith, omega arith, omega arith, omega arith, omega arith)

-- An item is skipped only if its case has all that the item has, and only with no terms, no expected
-- calls and another judge than the default.
pub skipped-kept :
    (d : Dict) (i : CaseSpec)
    → eq_dict (current_spec d) (build_spec i) ≡ true
    → (case_spec d ≡ i)
      × (i.expected ≡ [])
      × (i.expected_tool_calls ≡ [])
      × (eq_text i.judge_type keyword ≡ false)
unfolding current_spec case_spec
skipped-kept d i h =
    let c = case_spec d in
    let terms = option_of-none texts c.expected (covered c i h 7) in
    let calls = option_of-none texts c.expected_tool_calls (covered c i h 8) in
    let must = texts-covered c.must_not_call i.must_not_call (covered c i h 2) in
    let answers = text-covered c.answer i.answer (covered c i h 3) in
    let contexts = texts-covered c.contexts i.contexts (covered c i h 4) in
    let metadata = text-covered c.metadata i.metadata (covered c i h 5) in
    let judged : truthy c.judge_type ≡ true = truthy-or_else (get_text judge_type_key d) in
    let judge = judge-covered c.judge_type i.judge_type judged (covered c i h 6) in
    let n = counts c i h in
    let (m, a, x, y, no_terms, no_calls) =
      balance (must.0) (answers.0) (contexts.0) (metadata.0) (ap size terms) (ap size calls)
        (ap one_if judged) (ap one_if judge.1) n in
    let same : c ≡ i = λ j. record {
      expected = (terms ∙ sym (size-zero i.expected no_terms)) j;
      expected_tool_calls = (calls ∙ sym (size-zero i.expected_tool_calls no_calls)) j;
      must_not_call = must.1 m j;
      answer = answers.1 a j;
      contexts = contexts.1 x j;
      metadata = metadata.1 y j;
      judge_type = judge.0 j;
    } in
    (
      same,
      size-zero i.expected no_terms,
      size-zero i.expected_tool_calls no_calls,
      ground (arith, judge.1),
    )
