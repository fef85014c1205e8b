-- ===== src/Evaluation/Regression/Judgements.antt =====
-- The judgements of the cases of a dataset, one after the other (app/evaluation/service.py).
use new_rag.Base.{◌≡◌, ◌∙◌, Bool, true, false, Option, List, [], ◌∷◌, ◌++◌, refl, arith, sym}
use new_rag.Base.Table.{select}
use new_rag.Evaluation.Text.{Text, truthy}
use new_rag.Evaluation.Cases.{EvaluationCaseRow}
use new_rag.Evaluation.Spec.{case_spec}
use new_rag.Evaluation.Calls.{Subsequence, is_subsequence_iff}
use mathlib.Core.List.{append-nil, append_assoc}
use new_rag.Evaluation.Judge.{
  tool_refs, mem_text, RunReport, Judged, Tally, judge_case, judge_cases, tallied,
}

module _ {W : Type 0} (execute_run : Text → W → RunReport × W)
    (complete : Text → Text → Text → W → Option Text × W) (mock : Bool) where
  -- The judgement of a case from a world, which the run and the judge leave as `w'`. A judgement that
  -- is positive needs a completed run with an answer, the expected calls in their order, and no
  -- forbidden call.
  pub record IsJudged (w : W) (c : EvaluationCaseRow) (j : Judged) (w' : W) : Type 0 where
    pub same_query : j.query ≡ c.query
    pub ran : j.is_completed ≡ (execute_run c.query w).0.is_completed
    pub called : j.tool_calls ≡ tool_refs (execute_run c.query w).0.steps
    pub needs_completed : j.ok ≡ true → (execute_run c.query w).0.is_completed ≡ true
    pub needs_answer : j.ok ≡ true → truthy (execute_run c.query w).0.answer ≡ true
    pub needs_calls :
        j.ok ≡ true → Subsequence (case_spec c.expected_json).expected_tool_calls j.tool_calls
    pub needs_none_forbidden :
        j.ok ≡ true
        → select (λ r. mem_text r (case_spec c.expected_json).must_not_call) j.tool_calls ≡ []
    pub leaves : w' ≡ (judge_case execute_run complete mock c w).1

  -- The judgements of cases one after the other, each in the world that the one before it leaves.
  pub data Judgements : W → List EvaluationCaseRow → List Judged → W → Type 0 where
    no_more : (w : W) → Judgements w [] [] w
    one_more :
        {w w' w'' : W} {c : EvaluationCaseRow} {j : Judged} {cases : List EvaluationCaseRow}
        {judged : List Judged}
        → IsJudged w c j w'
        → Judgements w' cases judged w''
        → Judgements w (c ∷ cases) (j ∷ judged) w''

  truthy-none : {A : Type 0} (xs : List A) → truthy xs ≡ false → xs ≡ []
  truthy-none [] h = refl
  truthy-none (x ∷ xs) h = absurd (ground arith)

  judge_case-IsJudged :
      (c : EvaluationCaseRow) (w : W)
      → let (j, w') = judge_case execute_run complete mock c w in IsJudged w c j w'
  unfolding judge_case
  judge_case-IsJudged c w =
      let spec = case_spec c.expected_json in
      let calls = tool_refs (execute_run c.query w).0.steps in
      let forbidden = select (λ r. mem_text r spec.must_not_call) calls in
      record {
        same_query = refl;
        ran = refl;
        called = refl;
        needs_completed = λ h. ground arith;
        needs_answer = λ h. ground arith;
        needs_calls = λ h. (is_subsequence_iff spec.expected_tool_calls calls).0 (ground arith);
        needs_none_forbidden = λ h. truthy-none forbidden (ground arith);
        leaves = refl;
      }

  pub judge_cases-Judgements :
      (cases : List EvaluationCaseRow) (t : Tally) (w : W)
      → let (t', w') = judge_cases execute_run complete mock cases (t, w) in
        (js : List Judged) × (t'.judged ≡ t.judged ++ js) × Judgements w cases js w'
  unfolding judge_cases
  judge_cases-Judgements [] t w = ([], sym (append-nil t.judged), no_more w)
  judge_cases-Judgements (c ∷ cases) t w =
      let (j, w') = judge_case execute_run complete mock c w in
      let (js, e, rest) = judge_cases-Judgements cases (tallied j t) w' in
      (j ∷ js, e ∙ append_assoc t.judged (j ∷ []) js, one_more (judge_case-IsJudged c w) rest)
