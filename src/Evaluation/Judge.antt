-- ===== src/Evaluation/Judge.antt =====
-- The judgement of a run on an evaluation case (app/evaluation/service.py). The execution of a run and
-- the call of the model that judges are parameters that act on a world `W`.
use new_rag.Base.{
  ℕ, suc, ◌&&◌, ◌||◌, not, Bool, true, false, Option, none, some, List, [], ◌∷◌, ◌++◌,
  if◌then◌else◌, take,
}
use new_rag.Base.Table.{select}
use new_rag.Evaluation.Text.{Text, eq_text, truthy, contains, starts_with, strip, upper}
use new_rag.Evaluation.Spec.{CaseSpec, case_spec}
use new_rag.Evaluation.Calls.{is_subsequence}
use new_rag.Evaluation.Cases.{EvaluationCaseRow}

-- What the evaluation reads of a run: whether its state is COMPLETED, its answer, and the tools that
-- its steps called.
pub record RunReport : Type 0 where
  pub is_completed : Bool
  pub answer : Text
  pub steps : List (List Text)

pub data JudgeNote : Type 0 where
  no_note fell_back : JudgeNote
  said : Text → JudgeNote

pub record Judged : Type 0 where
  pub query : Text
  pub is_completed : Bool
  pub ok : Bool
  pub judge_type : Text
  pub judge_note : JudgeNote
  pub tool_calls : List Text
  pub expected_tool_calls : List Text
  pub must_not_call : List Text
  pub forbidden_calls : List Text

pub record Tally : Type 0 where
  pub passed : ℕ
  pub completed : ℕ
  pub judged : List Judged

-- "PASS"
abbrev pass_text : Text
pass_text = 80 ∷ 65 ∷ 83 ∷ 83 ∷ []

-- "llm"
abbrev pub llm : Text
llm = 108 ∷ 108 ∷ 109 ∷ []

-- `[o["tool_ref"] for s in steps for o in (s.get("tool_calls") or [])]`
unfoldable pub tool_refs : List (List Text) → List Text
tool_refs [] = []
tool_refs (calls ∷ steps) = calls ++ tool_refs steps

unfoldable pub mem_text : Text → List Text → Bool
mem_text a [] = false
mem_text a (x ∷ xs) = eq_text x a || mem_text a xs

-- `all(t in answer for t in terms)`
unfoldable pub all_in : List Text → Text → Bool
all_in [] answer = true
all_in (t ∷ terms) answer = contains t answer && all_in terms answer

abbrev pub tallied : Judged → Tally → Tally
tallied j t = record {
  passed = if j.ok then suc t.passed else t.passed;
  completed = if j.is_completed then suc t.completed else t.completed;
  judged = t.judged ++ j ∷ [];
}

abbrev pub no_tally : Tally
no_tally = record { passed = 0; completed = 0; judged = [] }

module _ {W : Type 0} (execute_run : Text → W → RunReport × W)
    (complete : Text → Text → Text → W → Option Text × W) (mock : Bool) where
  -- `_llm_judge`: `none` where the model cannot judge or the call of it fails.
  unfoldable pub llm_judge : Text → Text → Text → W → Option (Bool × Text) × W
  llm_judge question reference answer w =
      if not (truthy reference) || not (truthy answer)
      then (none, w)
      else if mock
      then (none, w)
      else (let (r, w') = complete question reference answer w in
          elim r [
            | none ↦ (none, w')
            | some content ↦
                let said_text = upper (strip content) in
                (some (starts_with pass_text said_text, take 40 said_text), w')
          ])

  -- The judgement of the answer, with its note.
  unfoldable pub judge_terms : CaseSpec → Text → Text → W → (Bool × JudgeNote) × W
  judge_terms spec query answer w =
      if eq_text spec.judge_type llm
      then (let (r, w') = llm_judge query spec.answer answer w in
          elim r [
            | some v ↦ ((v.0, said v.1), w')
            | none ↦ ((all_in spec.expected answer, fell_back), w')
          ])
      else ((all_in spec.expected answer, no_note), w)

  unfoldable pub judge_case : EvaluationCaseRow → W → Judged × W
  judge_case c w =
      let (run, w1) = execute_run c.query w in
      let spec = case_spec c.expected_json in
      let calls = tool_refs run.steps in
      let ((terms_ok, note), w2) = judge_terms spec c.query run.answer w1 in
      let tools_ok = is_subsequence spec.expected_tool_calls calls in
      let forbidden = select (λ r. mem_text r spec.must_not_call) calls in
      let judged : Judged = record {
        query = c.query;
        is_completed = run.is_completed;
        ok =
            run.is_completed && truthy run.answer && terms_ok && tools_ok && not (truthy forbidden);
        judge_type = spec.judge_type;
        judge_note = note;
        tool_calls = calls;
        expected_tool_calls = spec.expected_tool_calls;
        must_not_call = spec.must_not_call;
        forbidden_calls = forbidden;
      } in
      (judged, w2)

  unfoldable pub judge_cases : List EvaluationCaseRow → Tally × W → Tally × W
  judge_cases [] r = r
  judge_cases (c ∷ cases) (t, w) =
      let (j, w') = judge_case c w in judge_cases cases (tallied j t, w')
