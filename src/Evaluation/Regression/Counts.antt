-- ===== src/Evaluation/Regression/Counts.antt =====
-- The counts of a regression and the row that it leaves (app/evaluation/service.py).
use new_rag.Base.{
  ℕ, ◌+◌, ◌≤◌, ◌<◌, ◌≡◌, ◌==◌, ◌&&◌, ◌∙◌, Bool, true, false, Option, some, List, [], ◌∷◌, ◌++◌,
  Ident, if◌then◌else◌, refl, ap, arith, All, All-mono, length, length-append, count_if,
  count_if-le, sym,
}
use new_rag.Base.Table.{All-select, select, latest, update, latest-last, select-snoc}
use new_rag.Evaluation.Text.{Text}
use new_rag.Evaluation.Cases.{EvaluationCaseRow, cases_of}
use new_rag.Evaluation.Regression.{
  RegressionRunRow, Evaluated, RegressionReport, of_agent, latest_regression, dataset_id_of,
  new_row, added, flagged, run_regression,
}
use mathlib.Core.Path.{subst}
use new_rag.Evaluation.Judge.{RunReport, Judged, Tally, judge_case, judge_cases, tallied, no_tally}
use new_rag.Evaluation.Regression.Judgements.{Judgements, judge_cases-Judgements}

count_if-append :
    {A : Type 0} (p : A → Bool) (xs ys : List A)
    → count_if p (xs ++ ys) ≡ count_if p xs + count_if p ys
count_if-append p [] ys = omega arith
count_if-append p (x ∷ xs) ys = ground (arith, count_if-append p xs ys)

-- A tally counts its judgements, and what passed was completed.
pub record IsTally (t : Tally) : Type 0 where
  pub passed_eq : t.passed ≡ count_if (λ j. j.ok) t.judged
  pub completed_eq : t.completed ≡ count_if (λ j. j.is_completed) t.judged
  pub passed_le : t.passed ≤ t.completed

-- A report on a number of cases counts its judgements, and what passed was completed.
abbrev pub IsCounted : ℕ → RegressionReport → Type 0
IsCounted n r =
    (r.total ≡ n)
    × (length r.cases ≡ r.total)
    × (r.passed ≡ count_if (λ j. j.ok) r.cases)
    × (r.completed ≡ count_if (λ j. j.is_completed) r.cases)
    × (r.passed ≤ r.completed)
    × (r.completed ≤ r.total)

-- The latest regression of a version has the counts and the flag of a report.
abbrev pub IsLatest : Ident → Ident → ℕ → List RegressionRunRow → RegressionReport → Type 0
IsLatest tenant agent version rows report =
    (r : RegressionRunRow) × (latest_regression tenant agent version rows ≡ some r)
    × (r.total ≡ report.total)
    × (r.passed ≡ report.passed)
    × (r.completed ≡ report.completed)
    × (r.regressed ≡ report.regressed)

pub no_tally-IsTally : IsTally no_tally
no_tally-IsTally = record { passed_eq = refl; completed_eq = refl; passed_le = omega arith }

tallied-IsTally :
    (j : Judged) (t : Tally)
    → (j.ok ≡ true → j.is_completed ≡ true)
    → IsTally t
    → IsTally (tallied j t)
tallied-IsTally j t h w = record {
  passed_eq = ground (arith, w.passed_eq, count_if-append (λ (j : Judged). j.ok) t.judged (j ∷ []));
  completed_eq =
      ground
        (arith, w.completed_eq, count_if-append (λ (j : Judged). j.is_completed) t.judged (j ∷ []));
  passed_le = ground (arith, w.passed_le, h);
}

-- A write to a new row leaves the old ones.
flag-last :
    (x : RegressionRunRow) (xs : List RegressionRunRow)
    → All (λ r. r.id < x.id) xs
    → update (λ r. r.id == x.id) (λ r. record r { regressed = true }) (xs ++ x ∷ [])
      ≡ xs ++ record x { regressed = true } ∷ []
unfolding update
flag-last x [] h = ground arith
flag-last x (y ∷ xs) h = ground (arith, h.0, flag-last x xs h.1)

module _ {W : Type 0} where
  settled :
      (b : Bool) (x : RegressionRunRow) (w : W) (s : Evaluated W)
      → x.regressed ≡ false
      → All (λ (r : RegressionRunRow). r.id < x.id) s.regressions
      → (if b then flagged x.id (added x w s) else added x w s).regressions
        ≡ s.regressions ++ record x { regressed = b } ∷ []
  settled true x w s e h = flag-last x s.regressions h
  settled false x w s e h = λ i. s.regressions ++ record x { regressed = e i } ∷ []

  settled-world :
      (b : Bool) (x : RegressionRunRow) (w : W) (s : Evaluated W)
      → (if b then flagged x.id (added x w s) else added x w s).world ≡ w
  settled-world true x w s = refl
  settled-world false x w s = refl

-- The latest regression of a version is the one that was added last.
latest_regression-last :
    (x : RegressionRunRow) (xs : List RegressionRunRow)
    → All (λ r. r.created_at < x.created_at) xs
    → latest_regression x.tenant_id x.agent_id x.agent_version (xs ++ x ∷ []) ≡ some x
unfolding latest_regression
latest_regression-last x xs h =
    let p = λ (r : RegressionRunRow).
      of_agent x.tenant_id x.agent_id r && r.agent_version == x.agent_version in
    let before = λ (r : RegressionRunRow). r.created_at < x.created_at in
    let own : p x ≡ true = ground arith in
    let split : select p (xs ++ x ∷ []) ≡ select p xs ++ x ∷ [] = select-snoc p xs x own in
    let old =
      All-select before p xs (All-mono {Q = λ r. p r ≡ true → before r} (λ r l _. l) xs h) in
    ap (latest (λ (r : RegressionRunRow). r.created_at)) split
    ∙ latest-last (λ (r : RegressionRunRow). r.created_at) (select p xs) x old

module _ {W : Type 0} (execute_run : Text → W → RunReport × W)
    (complete : Text → Text → Text → W → Option Text × W) (mock : Bool) where
  judge_case-completed :
      (c : EvaluationCaseRow) (w : W)
      → (judge_case execute_run complete mock c w).0.ok ≡ true
      → (judge_case execute_run complete mock c w).0.is_completed ≡ true
  unfolding judge_case
  judge_case-completed c w h = ground (arith, h)

  pub judge_cases-IsTally :
      (cases : List EvaluationCaseRow) (t : Tally) (w : W)
      → IsTally t
      → IsTally (judge_cases execute_run complete mock cases (t, w)).0
        × (length (judge_cases execute_run complete mock cases (t, w)).0.judged
            ≡ length t.judged + length cases)
  unfolding judge_cases
  judge_cases-IsTally [] t w h = (h, omega arith)
  judge_cases-IsTally (c ∷ cases) t w h =
      let j = (judge_case execute_run complete mock c w).0 in
      let w' = (judge_case execute_run complete mock c w).1 in
      let ih =
        judge_cases-IsTally cases (tallied j t) w'
          (tallied-IsTally j t (judge_case-completed c w) h) in
      (ih.0, ih.1 ∙ ground (arith, length-append t.judged (j ∷ [])))

  module _ (now : ℕ) (tenant agent : Ident) (version : ℕ) (kind : Text) (tolerance : ℕ)
      (s : Evaluated W) where
    abbrev outcome : RegressionReport × Evaluated W
    outcome = run_regression execute_run complete mock now tenant agent version kind tolerance s

    abbrev tally : Tally
    tally =
        (judge_cases execute_run complete mock (cases_of tenant kind s.evaluations)
          (no_tally, s.world)).0

    -- The row of the regression, before its flag.
    abbrev row : RegressionRunRow
    row =
        new_row now s.evaluations.next_id tenant agent version
          (dataset_id_of tenant kind s.evaluations) (length (cases_of tenant kind s.evaluations))
          tally.passed tally.completed

    -- The regression adds its row, flagged as it reports, and leaves all others.
    pub regressions-run_regression :
        All (λ (r : RegressionRunRow). r.id < s.evaluations.next_id) s.regressions
        → outcome.1.regressions
          ≡ s.regressions ++ record row { regressed = outcome.0.regressed } ∷ []
    unfolding run_regression
    regressions-run_regression old =
        settled outcome.0.regressed row
          (judge_cases execute_run complete mock (cases_of tenant kind s.evaluations)
            (no_tally, s.world)).1
          s refl old

    -- Where the rows of regressions have older ids and times: a regression judges the cases of the
    -- dataset one after the other, each once: the run of the case's query, which passes only if it
    -- completed with an answer, the expected calls in their order and no forbidden one. The counts of
    -- the report are those of its judgements, and the latest regression of the version has its counts
    -- and its flag.
    pub run_regression-counts :
        All (λ (r : RegressionRunRow). r.id < s.evaluations.next_id) s.regressions
        → All (λ (r : RegressionRunRow). r.created_at < now) s.regressions
        → IsCounted (length (cases_of tenant kind s.evaluations)) outcome.0
          × Judgements execute_run complete mock s.world
              (cases_of tenant kind s.evaluations)
              outcome.0.cases
              outcome.1.world
          × IsLatest tenant agent version outcome.1.regressions outcome.0
    unfolding run_regression
    run_regression-counts ids times =
        let cases = cases_of tenant kind s.evaluations in
        let after = (judge_cases execute_run complete mock cases (no_tally, s.world)).1 in
        let (js, same, judgements) =
          judge_cases-Judgements execute_run complete mock cases no_tally s.world in
        let (t, n) = judge_cases-IsTally cases no_tally s.world no_tally-IsTally in
        let x : RegressionRunRow = record row { regressed = outcome.0.regressed } in
        let len : length tally.judged ≡ length cases = omega (arith, n) in
        let some_completed = count_if-le (λ (j : Judged). j.is_completed) tally.judged in
        (
          (
            refl,
            len,
            t.passed_eq,
            t.completed_eq,
            t.passed_le,
            omega (arith, t.completed_eq, len, some_completed),
          ),
          subst (λ v. Judgements execute_run complete mock s.world cases tally.judged v)
              (sym (settled-world outcome.0.regressed row after s))
              (subst (λ judged. Judgements execute_run complete mock s.world cases judged after)
                (sym same) judgements),
          (
            x,
            ap (latest_regression tenant agent version) (regressions-run_regression ids)
                ∙ latest_regression-last x s.regressions times,
            refl,
            refl,
            refl,
            refl,
          ),
        )
