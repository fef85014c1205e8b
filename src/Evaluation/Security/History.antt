-- ===== src/Evaluation/Security/History.antt =====
-- What a security evaluation leaves in the history of an agent (app/evaluation/service.py).
use new_rag.Base.{
  ℕ, suc, ◌≤◌, ◌<◌, ◌≡◌, ◌==◌, ◌&&◌, ◌∙◌, Bool, true, some, List, [], ◌∷◌, ◌++◌, Ident, refl, ap,
  arith, inl, inr, Bool-cases, All, All-mono, ltb, length,
}
use new_rag.Base.Table.{select, select-snoc, All-select, latest, latest-last}
use new_rag.Evaluation.Text.{Text}
use new_rag.Evaluation.Cases.{cases_of}
use new_rag.Evaluation.Regression.{
  RegressionRunRow, Evaluated, of_agent, previous, latest_version, new_row, dataset_id_of,
}
use new_rag.Evaluation.Judge.{RunReport}
use new_rag.Evaluation.Security.{judge_attacks, run_security_eval, adversarial}

-- A row whose key no other exceeds shares it with the latest.
latest-top :
    (xs : List RegressionRunRow) (x : RegressionRunRow)
    → All (λ r. r.agent_version ≤ x.agent_version) xs
    → (y : RegressionRunRow) × (latest (λ r. r.agent_version) (xs ++ x ∷ []) ≡ some y)
      × (y.agent_version ≡ x.agent_version)
unfolding latest
latest-top [] x h = (x, refl, refl)
latest-top (r ∷ xs) x h =
    let (y, e, k) = latest-top xs x h.1 in
    elim (Bool-cases (ltb r.agent_version y.agent_version)) [
      | inl l ↦ (y, ground (arith, e, l), k)
      | inr l ↦ (r, ground (arith, e, l), ground (arith, h.0, k, l))
    ]

module _ (x : RegressionRunRow) where
  abbrev of_version : RegressionRunRow → Bool
  of_version r = r.agent_version == x.agent_version

  -- The newest of the rows of the highest version.
  latest_version-last :
      (xs : List RegressionRunRow)
      → All (λ r. (r.agent_version ≤ x.agent_version) × (r.created_at < x.created_at)) xs
      → latest_version (xs ++ x ∷ []) ≡ some x
  unfolding latest_version
  latest_version-last xs h =
      let (y, e, k) =
        latest-top xs x (All-mono {Q = λ r. r.agent_version ≤ x.agent_version} (λ r l. l.0) xs h) in
      let own : of_version x ≡ true = ground arith in
      let split : select of_version (xs ++ x ∷ []) ≡ select of_version xs ++ x ∷ [] =
        select-snoc of_version xs x own in
      let before = λ (r : RegressionRunRow). r.created_at < x.created_at in
      let old =
        All-select before of_version xs
          (All-mono {Q = λ r. of_version r ≡ true → before r} (λ r l _. l.1) xs h) in
      let last =
        latest-last (λ (r : RegressionRunRow). r.created_at) (select of_version xs) x old in
      let newest = latest (λ (r : RegressionRunRow). r.created_at) in
      let opened : latest_version (xs ++ x ∷ [])
          ≡ newest (select (λ r. r.agent_version == y.agent_version) (xs ++ x ∷ [])) =
        rw (latest_version, e) refl in
      opened
      ∙ (λ i. newest (select (λ r. r.agent_version == k i) (xs ++ x ∷ [])))
      ∙ ap newest split
      ∙ last

module _ {W : Type 0} (execute_run : Text → W → RunReport × W) (now : ℕ) (tenant agent : Ident)
    (version : ℕ) (s : Evaluated W) where
  -- Where no row of the regressions has a higher version, and all have older times: the row of a
  -- security evaluation is the one that the regression of the next version is compared with, with the
  -- rate of the attacks that failed.
  pub previous-run_security_eval :
      All
        (λ (r : RegressionRunRow). (r.agent_version ≤ version) × (r.created_at < now))
        s.regressions
      → let (report, s') = run_security_eval execute_run now tenant agent version s in
        (r : RegressionRunRow) × (previous tenant agent (suc version) s'.regressions ≡ some r)
        × (r.total ≡ length (cases_of tenant adversarial s.evaluations))
        × (r.pass_rate ≡ report.pass_rate)
  unfolding run_security_eval previous
  previous-run_security_eval h =
      let cases = cases_of tenant adversarial s.evaluations in
      let passed = (judge_attacks execute_run cases ((0, []), s.world)).0.0 in
      let x =
        new_row now s.evaluations.next_id tenant agent version
          (dataset_id_of tenant adversarial s.evaluations) (length cases) passed (length cases) in
      let p =
        λ (r : RegressionRunRow). of_agent tenant agent r && ltb r.agent_version (suc version) in
      let own : p x ≡ true = ground arith in
      let split : select p (s.regressions ++ x ∷ []) ≡ select p s.regressions ++ x ∷ [] =
        select-snoc p s.regressions x own in
      let Old = λ (r : RegressionRunRow). (r.agent_version ≤ version) × (r.created_at < now) in
      let old =
        All-select Old p s.regressions
          (All-mono {Q = λ r. p r ≡ true → Old r} (λ r l _. l) s.regressions h) in
      (x, ap latest_version split ∙ latest_version-last x (select p s.regressions) old, refl, refl)
