-- ===== src/Evaluation/Regression.antt =====
-- The regression of a version over the cases of a dataset, its history and the security evaluation
-- (app/evaluation/service.py). The execution of a run and the call of the model that judges are
-- parameters that act on a world `W`; a rate is a fraction of counts, and a tolerance is in hundredths.
-- The rounding of reported rates is not modelled.
pub mod Judgements
pub mod Counts
pub mod Gate
use new_rag.Base.{
  difference, ℕ, suc, ◌+◌, ◌*◌, ◌==◌, ◌&&◌, Bool, true, false, Option, none, some, List, [], ◌∷◌,
  ◌++◌, Ident, if◌then◌else◌, length, ltb, take, ℤ,
}
use new_rag.Base.Table.{select, latest, update}
use new_rag.Base.Order.{order_desc}
use new_rag.Evaluation.Text.{Text}
use new_rag.Evaluation.Judge.{RunReport, Judged, no_tally, judge_cases}
use new_rag.Evaluation.Cases.{Evaluations, find_dataset, cases_of}

pub record PassRate : Type 0 where
  pub num : ℕ
  pub den : ℕ

pub record RegressionRunRow : Type 0 where
  pub id : Ident
  pub tenant_id : Ident
  pub agent_id : Ident
  pub agent_version : ℕ
  pub dataset_id : Option Ident
  pub total : ℕ
  pub passed : ℕ
  pub completed : ℕ
  pub pass_rate : PassRate
  pub regressed : Bool
  pub created_at : ℕ

pub record Evaluated (W : Type 0) : Type 0 where
  pub evaluations : Evaluations
  pub regressions : List RegressionRunRow
  pub world : W

pub record RegressionReport : Type 0 where
  pub total : ℕ
  pub passed : ℕ
  pub completed : ℕ
  pub pass_rate : PassRate
  pub completion_rate : PassRate
  pub regressed : Bool
  pub previous_pass_rate : Option PassRate
  pub cases : List Judged

-- `passed / total if total else 1.0`
unfoldable pub pass_rate_of : ℕ → ℕ → PassRate
pass_rate_of n total =
    if total == 0 then record { num = 1; den = 1 } else record { num = n; den = total }

-- `rate < previous - tolerance`
unfoldable pub is_below : ℕ → PassRate → PassRate → Bool
is_below tolerance r previous =
    ltb (r.num * previous.den * 100 + tolerance * (r.den * previous.den))
      (previous.num * r.den * 100)

abbrev pub of_agent : Ident → Ident → RegressionRunRow → Bool
of_agent tenant_id agent_id r = r.tenant_id == tenant_id && r.agent_id == agent_id

-- The first of `order_by(agent_version.desc(), created_at.desc())`.
unfoldable pub latest_version : List RegressionRunRow → Option RegressionRunRow
latest_version rows = elim (latest (λ r. r.agent_version) rows) [
  | none ↦ none
  | some top ↦ latest (λ r. r.created_at) (select (λ r. r.agent_version == top.agent_version) rows)
]

-- The regression of the highest version below a version.
unfoldable pub previous : Ident → Ident → ℕ → List RegressionRunRow → Option RegressionRunRow
previous tenant_id agent_id version rows =
    latest_version (select (λ r. of_agent tenant_id agent_id r && ltb r.agent_version version) rows)

unfoldable pub latest_regression :
    Ident → Ident → ℕ → List RegressionRunRow → Option RegressionRunRow
latest_regression tenant_id agent_id version rows =
    latest (λ r. r.created_at)
      (select (λ r. of_agent tenant_id agent_id r && r.agent_version == version) rows)

abbrev pub regressed_from : ℕ → PassRate → Option RegressionRunRow → Bool
regressed_from tolerance r prev = elim prev [
  | none ↦ false
  | some p ↦ is_below tolerance r p.pass_rate
]

abbrev pub dataset_id_of : Ident → Text → Evaluations → Option Ident
dataset_id_of tenant_id kind s = elim (find_dataset tenant_id kind s) [
  | none ↦ none
  | some d ↦ some d.id
]

-- The new row, which is written with its flag down.
abbrev pub new_row : ℕ → Ident → Ident → Ident → ℕ → Option Ident → ℕ → ℕ → ℕ → RegressionRunRow
new_row now id tenant_id agent_id version dataset_id total passed completed = record {
  id = id;
  tenant_id = tenant_id;
  agent_id = agent_id;
  agent_version = version;
  dataset_id = dataset_id;
  total = total;
  passed = passed;
  completed = completed;
  pass_rate = pass_rate_of passed total;
  regressed = false;
  created_at = now;
}

module _ {W : Type 0} where
  abbrev pub added : RegressionRunRow → W → Evaluated W → Evaluated W
  added row w s = record {
    evaluations = record s.evaluations { next_id = suc s.evaluations.next_id };
    regressions = s.regressions ++ row ∷ [];
    world = w;
  }

  abbrev pub flagged : Ident → Evaluated W → Evaluated W
  flagged id s = record s {
    regressions = update (λ r. r.id == id) (λ r. record r { regressed = true }) s.regressions;
  }

module _ {W : Type 0} (execute_run : Text → W → RunReport × W)
    (complete : Text → Text → Text → W → Option Text × W) (mock : Bool) where
  unfoldable pub run_regression :
      ℕ → Ident → Ident → ℕ → Text → ℕ → Evaluated W → RegressionReport × Evaluated W
  run_regression now tenant_id agent_id version kind tolerance s =
      let cases = cases_of tenant_id kind s.evaluations in
      let (t, w) = judge_cases execute_run complete mock cases (no_tally, s.world) in
      let total = length cases in
      let pass_rate = pass_rate_of t.passed total in
      let prev = previous tenant_id agent_id version s.regressions in
      let id = s.evaluations.next_id in
      let dataset_id = dataset_id_of tenant_id kind s.evaluations in
      let row = new_row now id tenant_id agent_id version dataset_id total t.passed t.completed in
      let s' = added row w s in
      let regressed = regressed_from tolerance pass_rate prev in
      let report : RegressionReport = record {
        total = total;
        passed = t.passed;
        completed = t.completed;
        pass_rate = pass_rate;
        completion_rate = pass_rate_of t.completed total;
        regressed = regressed;
        previous_pass_rate = elim prev [ none ↦ none | some p ↦ some p.pass_rate ];
        cases = t.judged;
      } in
      (report, if regressed then flagged id s' else s')

-- `row.pass_rate - prev_rate`, as a numerator and its denominator.
abbrev pub delta : PassRate → PassRate → ℤ × ℕ
delta r p = (difference (r.num * p.den) (p.num * r.den), r.den * p.den)

-- Each row with its difference to the next one, which is the older.
unfoldable pub with_deltas : List RegressionRunRow → List (RegressionRunRow × Option (ℤ × ℕ))
with_deltas [] = []
with_deltas (r ∷ rows) =
    let rest = with_deltas rows in
    elim rows [ [] ↦ (r, none) ∷ [] | p ∷ _ ↦ (r, some (delta r.pass_rate p.pass_rate)) ∷ rest ]

-- `list_regressions`: the newest first, and of one time the highest version.
unfoldable pub list_regressions :
    Ident → Ident → ℕ → List RegressionRunRow → List (RegressionRunRow × Option (ℤ × ℕ))
list_regressions tenant_id agent_id limit rows = with_deltas (
    take limit (
      order_desc (λ r. r.created_at)
        (order_desc (λ r. r.agent_version) (select (of_agent tenant_id agent_id) rows))))
