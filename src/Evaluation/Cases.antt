-- ===== src/Evaluation/Cases.antt =====
-- The datasets of a tenant and their cases (app/evaluation/service.py). New ids are taken from a
-- counter, and times are numbers.
pub mod Sound
pub mod Keys
use new_rag.Base.{
  ℕ, suc, ◌+◌, ◌==◌, ◌&&◌, Bool, true, false, Option, none, some, List, [], ◌∷◌, ◌++◌, Ident,
  if◌then◌else◌, take, is_some, map,
}
use new_rag.Base.Table.{select, first}
use new_rag.Base.Order.{order_desc, any}
use new_rag.Evaluation.Text.{Text, eq_text, truthy, or_else, lower}
use new_rag.Evaluation.Spec.{keyword, Dict, CaseSpec, case_spec, build_spec}

pub record EvaluationDatasetRow : Type 0 where
  pub id : Ident
  pub tenant_id : Ident
  pub name : Text
  pub kind : Text

pub record EvaluationCaseRow : Type 0 where
  pub id : Ident
  pub dataset_id : Ident
  pub tenant_id : Ident
  pub query : Text
  pub run_id : Text
  pub reason : Text
  pub category : Text
  pub expected_json : Dict
  pub created_at : ℕ

pub record Evaluations : Type 0 where
  pub datasets : List EvaluationDatasetRow
  pub cases : List EvaluationCaseRow
  pub next_id : ℕ

abbrev pub dataset_of : Ident → Text → EvaluationDatasetRow → Bool
dataset_of tenant_id kind d = d.tenant_id == tenant_id && eq_text d.kind kind

unfoldable pub find_dataset : Ident → Text → Evaluations → Option EvaluationDatasetRow
find_dataset tenant_id kind s = first (select (dataset_of tenant_id kind) s.datasets)

-- "-cases"
abbrev cases_suffix : Text
cases_suffix = 45 ∷ 99 ∷ 97 ∷ 115 ∷ 101 ∷ 115 ∷ []

abbrev pub new_dataset : Ident → Ident → Text → Text → EvaluationDatasetRow
new_dataset id tenant_id kind name = record {
  id = id;
  tenant_id = tenant_id;
  name = or_else name (lower kind ++ cases_suffix);
  kind = kind;
}

-- `_ensure_dataset`
unfoldable pub ensure_dataset : Ident → Text → Text → Evaluations → Ident × Evaluations
ensure_dataset tenant_id kind name s = elim (find_dataset tenant_id kind s) [
  | some d ↦ (d.id, s)
  | none ↦ (
    s.next_id,
    record s {
      datasets = s.datasets ++ new_dataset s.next_id tenant_id kind name ∷ [];
      next_id = suc s.next_id;
    },
  )
]

-- The arguments of `add_case`.
pub record NewCase : Type 0 where
  pub query : Text
  pub kind : Text
  pub run_id : Text
  pub reason : Text
  pub category : Text
  pub spec : CaseSpec

abbrev pub new_case : ℕ → Ident → Ident → Ident → NewCase → EvaluationCaseRow
new_case now id dataset_id tenant_id c = record {
  id = id;
  dataset_id = dataset_id;
  tenant_id = tenant_id;
  query = c.query;
  run_id = c.run_id;
  reason = c.reason;
  category = c.category;
  expected_json = build_spec c.spec;
  created_at = now;
}

-- `add_case` answers with the ids of the case and of its dataset.
unfoldable pub add_case : ℕ → Ident → NewCase → Evaluations → (Ident × Ident) × Evaluations
add_case now tenant_id c s =
    let (dataset_id, s') = ensure_dataset tenant_id c.kind [] s in
    (
      (s'.next_id, dataset_id),
      record s' {
        cases = s'.cases ++ new_case now s'.next_id dataset_id tenant_id c ∷ [];
        next_id = suc s'.next_id;
      },
    )

-- "BADCASES"
abbrev pub badcases : Text
badcases = 66 ∷ 65 ∷ 68 ∷ 67 ∷ 65 ∷ 83 ∷ 69 ∷ 83 ∷ []

-- `add_bad_case` of the query, the run, the reason, the category and the expected terms.
unfoldable pub add_bad_case :
    ℕ → Ident → Text → Text → Text → Text → List Text → Evaluations → (Ident × Ident) × Evaluations
add_bad_case now tenant_id query run_id reason category expected =
    let spec : CaseSpec = record {
      expected = expected;
      expected_tool_calls = [];
      must_not_call = [];
      answer = [];
      contexts = [];
      metadata = [];
      judge_type = keyword;
    } in
    add_case now tenant_id (record {
      query = query;
      kind = badcases;
      run_id = run_id;
      reason = reason;
      category = category;
      spec = spec;
    })

abbrev pub case_of : Ident → Text → EvaluationCaseRow → Bool
case_of dataset_id query c = c.dataset_id == dataset_id && eq_text c.query query

unfoldable pub find_case : Ident → Text → Text → Evaluations → Option EvaluationCaseRow
find_case tenant_id kind query s = elim (find_dataset tenant_id kind s) [
  | none ↦ none
  | some d ↦ first (select (case_of d.id query) s.cases)
]

-- The cases that a regression runs.
unfoldable pub cases_of : Ident → Text → Evaluations → List EvaluationCaseRow
cases_of tenant_id kind s = elim (find_dataset tenant_id kind s) [
  | none ↦ []
  | some d ↦ select (λ c. c.dataset_id == d.id) s.cases
]

unfoldable pub has_cases : Ident → Text → Evaluations → Bool
has_cases tenant_id kind s = elim (find_dataset tenant_id kind s) [
  | none ↦ false
  | some d ↦ is_some (first (select (λ c. c.dataset_id == d.id) s.cases))
]

abbrev of_tenant : Option Ident → EvaluationCaseRow → Bool
of_tenant none c = true
of_tenant (some t) c = c.tenant_id == t

-- A case of a dataset of the kind; an id has one dataset.
abbrev of_kind : Text → List EvaluationDatasetRow → EvaluationCaseRow → Bool
of_kind kind datasets c =
    if truthy kind then any (λ d. d.id == c.dataset_id && eq_text d.kind kind) datasets else true

-- `list_cases`: the rows, the newest first, each with its parsed expectations.
unfoldable pub list_cases :
    Option Ident → Text → ℕ → Evaluations → List (EvaluationCaseRow × CaseSpec)
list_cases tenant_id kind limit s =
    map (λ c. (c, case_spec c.expected_json))
      (take limit (
        order_desc (λ c. c.created_at)
          (select (λ c. of_tenant tenant_id c && of_kind kind s.datasets c) s.cases)))
