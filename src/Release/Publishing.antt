-- ===== src/Release/Publishing.antt =====
-- The endpoints of a release that join services (app/release/api.py): the publication of a version
-- behind the regression of its tenant's cases, and the evaluation of the version that is being rolled
-- out. The execution of a run is a parameter; it acts on the release service's database and on the
-- rest of the world. The permission checks of the endpoints are not modelled.
pub mod Judged
use new_rag.Base.{
  ℕ, ◌&&◌, ◌||◌, Bool, true, Option, none, some, Ident, if◌then◌else◌, ok, err, Action,
  agent_version_not_found, release_regression_failed,
}
use new_rag.Base.Table.{first, select}
use new_rag.Evaluation.Text.{Text}
use new_rag.Evaluation.Cases.{badcases, has_cases}
use new_rag.Evaluation.Regression.{RegressionReport, Evaluated, run_regression}
use new_rag.Evaluation.Judge.{RunReport}
use new_rag.Release.Model.{Db, is_gray}
use new_rag.Release.Flow.{version_of}
use new_rag.Release.Contract.{Env, find_version}
use new_rag.Release.Versions.{publish}
use new_rag.Release.Canary.{default_thresholds, Verdict, canary_check}

-- The default tolerance of `run_regression`, in hundredths.
abbrev pub default_tolerance : ℕ
default_tolerance = 5

-- The version and what the regression reported, if there was one.
abbrev pub Published : Type 0
Published = ℕ × Option RegressionReport

module _ {V : Type 0} (env : Env) (tenant agent : Ident) where
  -- `state.release.publish`, whose result carries the regression.
  unfoldable pub released :
      ℕ → Bool → Option RegressionReport → Action (Evaluated (Db × V)) Published
  released v force regression s =
      let (r, db) = publish tenant agent env v true force s.world.0 in
      let s' : Evaluated (Db × V) = record s { world = (db, s.world.1) } in
      elim r [ ok w ↦ (ok (w, regression), s') | err c ↦ (err c, s') ]

  module _ (execute_run : ℕ → Ident → Text → Db × V → RunReport × (Db × V))
      (complete : Text → Text → Text → Db × V → Option Text × (Db × V)) (mock : Bool) where
    unfoldable pub publish_version : ℕ → ℕ → Bool → Bool → Action (Evaluated (Db × V)) Published
    publish_version now v force explicit_eval s =
        if explicit_eval || has_cases tenant badcases s.evaluations
        then (elim (find_version tenant agent v s.world.0) [
          | none ↦ (err agent_version_not_found, s)
          | some row ↦
              let (report, s') =
                run_regression (execute_run v row.system_prompt) complete mock now tenant agent v
                  badcases default_tolerance s in
              if report.regressed
              then (err release_regression_failed, s')
              else released v force (some report) s'
        ])
        else released v force none s

-- `canary_evaluate`: the canary check of the version that is GRAY, and `none` without one.
unfoldable pub canary_evaluate : Ident → Ident → Ident → Action Db (Option Verdict)
canary_evaluate kb_search tenant agent db =
    elim (first (select (λ r. version_of tenant agent r && is_gray r.status) db.versions)) [
      | none ↦ (ok none, db)
      | some r ↦
          let (verdict, db') =
            canary_check kb_search tenant agent default_thresholds r.version db in
          elim verdict [ ok v ↦ (ok (some v), db') | err c ↦ (err c, db') ]
    ]
