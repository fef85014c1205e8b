-- ===== src/Evaluation/Regression/Gate.antt =====
-- When a regression flags a version (app/evaluation/service.py).
use new_rag.Base.{
  ℕ, ◌≤◌, ◌<◌, ◌≡◌, ◌==◌, ◌&&◌, ◌∙◌, Bool, true, false, Option, some, List, [], Ident, sym, ap,
  arith, inl, inr, Option-cases, All, All-mono, All-append, length, ltb, count_if-le,
}
use mathlib.Core.Path.{subst}
use new_rag.Base.Table.{select, latest, latest-All, All-select}
use new_rag.Evaluation.Text.{Text}
use new_rag.Evaluation.Cases.{cases_of}
use new_rag.Evaluation.Regression.{
  PassRate, RegressionRunRow, Evaluated, pass_rate_of, is_below, of_agent, previous, latest_version,
  regressed_from, run_regression,
}
use new_rag.Evaluation.Judge.{Judged, RunReport, judge_cases, no_tally}
use new_rag.Evaluation.Regression.Counts.{
  judge_cases-IsTally, regressions-run_regression, no_tally-IsTally,
}

-- A rate that is at most one.
abbrev pub IsRated : RegressionRunRow → Type 0
IsRated r = r.pass_rate.num ≤ r.pass_rate.den

latest_version-All :
    (P : RegressionRunRow → Type 0) (rows : List RegressionRunRow) (r : RegressionRunRow)
    → All P rows
    → latest_version rows ≡ some r
    → P r
unfolding latest_version
latest_version-All P rows r h e = elim (Option-cases (latest (λ r. r.agent_version) rows)) [
  | inl n ↦ absurd (ground (arith, e, n))
  | inr (top, f) ↦
      let p = λ (r : RegressionRunRow). r.agent_version == top.agent_version in
      latest-All P (λ (r : RegressionRunRow). r.created_at) (select p rows)
        (All-select P p rows (All-mono {Q = λ r. p r ≡ true → P r} (λ r x _. x) rows h))
        (ground (arith, e, f))
]

previous-IsRated :
    (tenant agent : Ident) (version : ℕ) (rows : List RegressionRunRow) (r : RegressionRunRow)
    → All IsRated rows
    → previous tenant agent version rows ≡ some r
    → IsRated r
unfolding previous
previous-IsRated tenant agent version rows r h e =
    let p = λ (r : RegressionRunRow). of_agent tenant agent r && ltb r.agent_version version in
    latest_version-All IsRated (select p rows) r
      (All-select IsRated p rows (All-mono {Q = λ r. p r ≡ true → IsRated r} (λ r x _. x) rows h)) e

-- The full rate is not below any other.
full-is_below :
    (tolerance passed total : ℕ) (p : PassRate)
    → total ≡ 0
    → p.num ≤ p.den
    → is_below tolerance (pass_rate_of passed total) p ≡ false
unfolding is_below pass_rate_of
full-is_below tolerance passed total p e h = ground (arith, e, h)

module _ {W : Type 0} (execute_run : Text → W → RunReport × W)
    (complete : Text → Text → Text → W → Option Text × W) (mock : Bool) (now : ℕ)
    (tenant agent : Ident) (version : ℕ) (kind : Text) (tolerance : ℕ) (s : Evaluated W) where
  empty-regressed :
      All IsRated s.regressions
      → cases_of tenant kind s.evaluations ≡ []
      → (run_regression execute_run complete mock now tenant agent version kind tolerance
          s).0.regressed
        ≡ false
  unfolding run_regression
  empty-regressed h e =
      let passed =
        (judge_cases execute_run complete mock (cases_of tenant kind s.evaluations)
          (no_tally, s.world)).0.passed in
      let total = length (cases_of tenant kind s.evaluations) in
      elim (Option-cases (previous tenant agent version s.regressions)) [
        | inl n ↦ ap (regressed_from tolerance (pass_rate_of passed total)) n
        | inr (p, f) ↦
            ap (regressed_from tolerance (pass_rate_of passed total)) f
            ∙ full-is_below tolerance passed total p.pass_rate (ap length e)
                (previous-IsRated tenant agent version s.regressions p h f)
      ]

  rate-IsRated : (n total : ℕ) → n ≤ total → (pass_rate_of n total).num ≤ (pass_rate_of n total).den
  unfolding pass_rate_of
  rate-IsRated n total h = ground (arith, h)

  -- Where the rows of regressions have older ids: rates of at most one stay so, and a version whose
  -- dataset has no cases is not flagged, whatever the tolerance.
  pub run_regression-IsRated :
      All (λ (r : RegressionRunRow). r.id < s.evaluations.next_id) s.regressions
      → All IsRated s.regressions
      → All IsRated
          (run_regression execute_run complete mock now tenant agent version kind tolerance
            s).1.regressions
        × (cases_of tenant kind s.evaluations ≡ []
            → (run_regression execute_run complete mock now tenant agent version kind tolerance
                s).0.regressed
              ≡ false)
  run_regression-IsRated old h =
      let cases = cases_of tenant kind s.evaluations in
      let (t, n) =
        judge_cases-IsTally execute_run complete mock cases no_tally s.world no_tally-IsTally in
      let judged = (judge_cases execute_run complete mock cases (no_tally, s.world)).0.judged in
      let some_completed = count_if-le (λ (j : Judged). j.is_completed) judged in
      let passed = (judge_cases execute_run complete mock cases (no_tally, s.world)).0.passed in
      let le : passed ≤ length cases =
        omega (arith, n, t.passed_le, t.completed_eq, some_completed) in
      (
        subst (All IsRated)
            (sym (
              regressions-run_regression execute_run complete mock now tenant agent version kind
                tolerance s old))
            (All-append IsRated s.regressions _ h (rate-IsRated _ _ le, tt)),
        empty-regressed h,
      )
