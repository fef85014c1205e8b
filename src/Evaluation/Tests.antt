-- ===== src/Evaluation/Tests.antt =====
-- The theorems on evaluations at concrete inputs: a tenant with one case, which a run that answers "a"
-- passes.
use new_rag.Evaluation.Regression.Judgements.{Judgements}
use new_rag.Base.{ℕ, ◌≡◌, ◌↔◌, refl, arith, true, false, Option, none, some, [], ◌∷◌, length, All}
use new_rag.Evaluation.Text.{eq_list, Text, or_else, eq_text}
use new_rag.Evaluation.Spec.{
  eq_value, get_text, get_texts, get_key, covered_by, object, CaseSpec, keyword, case_spec,
  build_spec, current_spec, eq_dict, case_spec-build_spec,
}
use new_rag.Evaluation.Calls.{is_subsequence, Subsequence, is_subsequence_iff}
use new_rag.Evaluation.Cases.{Evaluations, badcases, cases_of}
use new_rag.Evaluation.Cases.Sound.{IsSound}
use new_rag.Evaluation.Seed.{SeedItem, seed_cases}
use new_rag.Evaluation.Seed.Skip.{skipped-kept}
use new_rag.Evaluation.Seed.Upsert.{view, last_asked, seed_cases-upserts}
use new_rag.Evaluation.Regression.{RegressionRunRow, Evaluated, run_regression}
use new_rag.Evaluation.Judge.{RunReport, llm}
use new_rag.Evaluation.Regression.Counts.{IsCounted, IsLatest, run_regression-counts}
use new_rag.Evaluation.Regression.Gate.{IsRated, run_regression-IsRated}

abbrev spec : CaseSpec
spec = record {
  expected = (97 ∷ []) ∷ [];
  expected_tool_calls = [];
  must_not_call = [];
  answer = [];
  contexts = [];
  metadata = [];
  judge_type = [];
}

case_spec-build_spec_example :
    case_spec (build_spec spec) ≡ record spec { judge_type = or_else spec.judge_type keyword }
case_spec-build_spec_example = case_spec-build_spec spec

is_subsequence_iff_example :
    (is_subsequence ((97 ∷ []) ∷ []) ((98 ∷ []) ∷ (97 ∷ []) ∷ []) ≡ true)
    ↔ Subsequence ((97 ∷ []) ∷ []) ((98 ∷ []) ∷ (97 ∷ []) ∷ [])
is_subsequence_iff_example = is_subsequence_iff ((97 ∷ []) ∷ []) ((98 ∷ []) ∷ (97 ∷ []) ∷ [])

abbrev pub item : SeedItem
item = record { query = 113 ∷ []; kind = []; reason = []; category = []; spec = spec }

-- A judge by model, without terms: the case that is skipped when it is seeded again.
abbrev judged_spec : CaseSpec
judged_spec = record spec { expected = []; judge_type = llm }

skips : eq_dict (current_spec (build_spec judged_spec)) (build_spec judged_spec) ≡ true
unfolding eq_dict current_spec build_spec case_spec object covered_by get_key get_texts get_text
    eq_value eq_list
skips = refl

skipped-kept_example :
    (case_spec (build_spec judged_spec) ≡ judged_spec)
    × (judged_spec.expected ≡ [])
    × (judged_spec.expected_tool_calls ≡ [])
    × (eq_text judged_spec.judge_type keyword ≡ false)
skipped-kept_example = skipped-kept (build_spec judged_spec) judged_spec skips

abbrev pub evaluations : Evaluations
evaluations = record {
  datasets = record { id = 1; tenant_id = 1; name = []; kind = badcases } ∷ [];
  cases =
      record {
        id = 2;
        dataset_id = 1;
        tenant_id = 1;
        query = 113 ∷ [];
        run_id = [];
        reason = [];
        category = [];
        expected_json = build_spec spec;
        created_at = 0;
      }
      ∷ [];
  next_id = 3;
}

evaluations-IsSound : IsSound evaluations
evaluations-IsSound = record {
  datasets_differ = (tt, tt);
  datasets_old = (omega arith, tt);
  cases_differ = (tt, tt);
  cases_old = (omega arith, tt);
  owners_old = (omega arith, tt);
}

seed_cases-upserts_example :
    (view 1 badcases (113 ∷ []) (seed_cases 5 1 (some item ∷ []) evaluations).1
      ≡ last_asked 1
          (some item ∷ [])
          1
          badcases
          (113 ∷ [])
          (view 1 badcases (113 ∷ []) evaluations))
    × (view 1 badcases
          (113 ∷ [])
          (seed_cases 5 1 (some item ∷ []) (seed_cases 5 1 (some item ∷ []) evaluations).1).1
        ≡ view 1 badcases (113 ∷ []) (seed_cases 5 1 (some item ∷ []) evaluations).1)
seed_cases-upserts_example =
    seed_cases-upserts 5 1 1 badcases (113 ∷ []) (some item ∷ []) evaluations evaluations-IsSound

abbrev answers : Text → ℕ → RunReport × ℕ
answers q w = (record { is_completed = true; answer = 97 ∷ []; steps = [] }, w)

abbrev silent : Text → Text → Text → ℕ → Option Text × ℕ
silent q r a w = (none, w)

-- The regression of version 1 failed its only case.
abbrev failed : RegressionRunRow
failed = record {
  id = 0;
  tenant_id = 1;
  agent_id = 2;
  agent_version = 1;
  dataset_id = some 1;
  total = 1;
  passed = 0;
  completed = 1;
  pass_rate = record { num = 0; den = 1 };
  regressed = false;
  created_at = 1;
}

abbrev evaluated : Evaluated ℕ
evaluated = record { evaluations = evaluations; regressions = failed ∷ []; world = 0 }

run_regression-counts_example :
    let (report, s) = run_regression answers silent true 9 1 2 2 badcases 5 evaluated in
    IsCounted (length (cases_of 1 badcases evaluations)) report
    × Judgements answers silent true 0 (cases_of 1 badcases evaluations) report.cases s.world
    × IsLatest 1 2 2 s.regressions report
run_regression-counts_example =
    run_regression-counts answers silent true 9 1 2 2 badcases 5 evaluated (omega arith, tt)
      (omega arith, tt)

run_regression-IsRated_example :
    let (report, s) = run_regression answers silent true 9 1 2 2 badcases 5 evaluated in
    All IsRated s.regressions × (cases_of 1 badcases evaluations ≡ [] → report.regressed ≡ false)
run_regression-IsRated_example =
    run_regression-IsRated answers silent true 9 1 2 2 badcases 5 evaluated (omega arith, tt)
      (omega arith, tt)
