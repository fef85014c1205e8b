-- ===== src/Evaluation/Spec.antt =====
-- The expectations of an evaluation case and the JSON object that keeps them (`_case_spec` and
-- `_build_spec` of app/evaluation/service.py). An object is the list of its entries, its keys are
-- numbers, and the value of `metadata` is the text of it, which is empty for the empty object. A list
-- that is `None` is empty.
use new_rag.Base.{
  inr, inl, Bool-cases, ◌≡◌, ◌==◌, ◌&&◌, Bool, true, false, Option, none, some, List, [], ◌∷◌, not,
  Ident, if◌then◌else◌, refl, arith, length,
}
use new_rag.Evaluation.Text.{eq_text-true, Text, eq_text, eq_list, truthy, or_else}

pub data Value : Type 0 where
  texts : List Text → Value
  text : Text → Value

abbrev pub Dict : Type 0
Dict = List (Ident × Value)

abbrev pub terms_key : Ident
terms_key = 0

abbrev pub tool_calls_key : Ident
tool_calls_key = 1

abbrev pub must_not_call_key : Ident
must_not_call_key = 2

abbrev pub answer_key : Ident
answer_key = 3

abbrev pub contexts_key : Ident
contexts_key = 4

abbrev pub metadata_key : Ident
metadata_key = 5

abbrev pub judge_type_key : Ident
judge_type_key = 6

abbrev pub expected_key : Ident
expected_key = 7

abbrev pub expected_tool_calls_key : Ident
expected_tool_calls_key = 8

-- "keyword"
abbrev pub keyword : Text
keyword = 107 ∷ 101 ∷ 121 ∷ 119 ∷ 111 ∷ 114 ∷ 100 ∷ []

-- The parsed expectations, which are also the arguments of `_build_spec`.
pub record CaseSpec : Type 0 where
  pub expected : List Text
  pub expected_tool_calls : List Text
  pub must_not_call : List Text
  pub answer : Text
  pub contexts : List Text
  pub metadata : Text
  pub judge_type : Text

unfoldable pub is_truthy : Value → Bool
is_truthy (texts xs) = truthy xs
is_truthy (text t) = truthy t

-- `spec.get(key)`
unfoldable pub get_key : Ident → Dict → Option Value
get_key k [] = none
get_key k ((k', v) ∷ d) = let rest = get_key k d in if k' == k then some v else rest

-- `spec.get(key) or []`
unfoldable pub get_texts : Ident → Dict → List Text
get_texts k d = elim (get_key k d) [ some (texts xs) ↦ xs | _ ↦ [] ]

-- `spec.get(key) or ""`
unfoldable pub get_text : Ident → Dict → Text
get_text k d = elim (get_key k d) [ some (text t) ↦ t | _ ↦ [] ]

unfoldable pub case_spec : Dict → CaseSpec
case_spec d = record {
  expected = get_texts terms_key d;
  expected_tool_calls = get_texts tool_calls_key d;
  must_not_call = get_texts must_not_call_key d;
  answer = get_text answer_key d;
  contexts = get_texts contexts_key d;
  metadata = get_text metadata_key d;
  judge_type = or_else (get_text judge_type_key d) keyword;
}

abbrev pub Entry : Type 0
Entry = Bool × (Ident × Value)

-- An object whose entries are those that are not empty.
unfoldable pub object : List Entry → Dict
object [] = []
object ((present, e) ∷ es) = let rest = object es in if present then e ∷ rest else rest

abbrev texts_entry : Ident → List Text → Entry
texts_entry k xs = (truthy xs, (k, texts xs))

abbrev text_entry : Ident → Text → Entry
text_entry k t = (truthy t, (k, text t))

-- What `_build_spec` keeps: all but the default judge.
abbrev pub kept : CaseSpec → List Entry
kept c =
    (texts_entry terms_key c.expected
      ∷ texts_entry tool_calls_key c.expected_tool_calls
      ∷ texts_entry must_not_call_key c.must_not_call
      ∷ text_entry answer_key c.answer
      ∷ texts_entry contexts_key c.contexts
      ∷ text_entry metadata_key c.metadata
      ∷ (
        truthy c.judge_type && not (eq_text c.judge_type keyword),
        (judge_type_key, text c.judge_type),
      )
      ∷ [])

unfoldable pub build_spec : CaseSpec → Dict
build_spec c = object (kept c)

-- The parsed expectations that are not empty.
abbrev pub current_of : CaseSpec → List Entry
current_of c =
    (texts_entry expected_key c.expected
      ∷ texts_entry expected_tool_calls_key c.expected_tool_calls
      ∷ texts_entry must_not_call_key c.must_not_call
      ∷ text_entry answer_key c.answer
      ∷ texts_entry contexts_key c.contexts
      ∷ text_entry metadata_key c.metadata
      ∷ text_entry judge_type_key c.judge_type
      ∷ [])

-- `{k: v for k, v in self._case_spec(existing).items() if v}`
unfoldable pub current_spec : Dict → Dict
current_spec d = object (current_of (case_spec d))

unfoldable pub eq_value : Value → Value → Bool
eq_value (texts xs) (texts ys) = eq_list eq_text xs ys
eq_value (text a) (text b) = eq_text a b
eq_value _ _ = false

unfoldable pub covered_by : Dict → Dict → Bool
covered_by b [] = true
covered_by b ((k, v) ∷ a) =
    (elim (get_key k b) [ none ↦ false | some w ↦ eq_value v w ]) && covered_by b a

-- `a == b` for objects
unfoldable pub eq_dict : Dict → Dict → Bool
eq_dict a b = length a == length b && covered_by b a

-- The value that the entries give a key.
abbrev pub lookup : Ident → List Entry → Option Value
lookup k [] = none
lookup k ((present, (k', v)) ∷ es) =
    let rest = lookup k es in if k' == k then (if present then some v else rest) else rest

pub get_key-object : (k : Ident) (es : List Entry) → get_key k (object es) ≡ lookup k es
unfolding get_key object
get_key-object k [] = refl
get_key-object k ((true, (k', v)) ∷ es) = ground (arith, get_key-object k es)
get_key-object k ((false, (k', v)) ∷ es) = ground (arith, get_key-object k es)

get_texts-object :
    (k : Ident) (xs : List Text) (es : List Entry)
    → lookup k es ≡ (if truthy xs then some (texts xs) else none)
    → get_texts k (object es) ≡ xs
unfolding get_texts
get_texts-object k [] es h = ground (arith, get_key-object k es, h)
get_texts-object k (x ∷ xs) es h = ground (arith, get_key-object k es, h)

get_text-object :
    (k : Ident) (t : Text) (es : List Entry)
    → lookup k es ≡ (if truthy t then some (text t) else none)
    → get_text k (object es) ≡ t
unfolding get_text
get_text-object k [] es h = ground (arith, get_key-object k es, h)
get_text-object k (x ∷ xs) es h = ground (arith, get_key-object k es, h)

-- A judge that is stored only when it is not the default.
judge-object :
    (k : Ident) (t : Text) (es : List Entry)
    → lookup k es ≡ (if truthy t && not (eq_text t keyword) then some (text t) else none)
    → or_else (get_text k (object es)) keyword ≡ or_else t keyword
unfolding get_text
judge-object k [] es h = ground (arith, get_key-object k es, h)
judge-object k (x ∷ xs) es h = elim (Bool-cases (eq_text (x ∷ xs) keyword)) [
  | inl e ↦ ground (arith, get_key-object k es, h, e, eq_text-true (x ∷ xs) keyword e)
  | inr e ↦ ground (arith, get_key-object k es, h, e)
]

-- What is stored for a case is read back: an empty `judge_type` as "keyword", all else as it was.
pub case_spec-build_spec :
    (c : CaseSpec)
    → case_spec (build_spec c) ≡ record c { judge_type = or_else c.judge_type keyword }
unfolding case_spec build_spec
case_spec-build_spec c i = record {
  expected = get_texts-object terms_key c.expected (kept c) refl i;
  expected_tool_calls = get_texts-object tool_calls_key c.expected_tool_calls (kept c) refl i;
  must_not_call = get_texts-object must_not_call_key c.must_not_call (kept c) refl i;
  answer = get_text-object answer_key c.answer (kept c) refl i;
  contexts = get_texts-object contexts_key c.contexts (kept c) refl i;
  metadata = get_text-object metadata_key c.metadata (kept c) refl i;
  judge_type = judge-object judge_type_key c.judge_type (kept c) refl i;
}
