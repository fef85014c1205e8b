-- ===== src/Release/Publishing/Judged.antt =====
-- A version that is published behind a regression passed it (app/release/api.py).
use new_rag.Evaluation.Regression.Judgements.{Judgements}
use new_rag.Base.{ℕ, Bool, Option, Ident, Result}
use new_rag.Evaluation.Text.{Text}
use new_rag.Evaluation.Cases.{badcases}
use new_rag.Evaluation.Regression.{RegressionReport, Evaluated, run_regression}
use new_rag.Evaluation.Judge.{RunReport}
use new_rag.Release.Model.{VersionRow, Db}
use new_rag.Release.Contract.{Env}
use new_rag.Release.Publishing.{Published, default_tolerance, publish_version}

module _ {V : Type 0} (env : Env) (tenant agent : Ident) where
  module _ (execute_run : ℕ → Ident → Text → Db × V → RunReport × (Db × V))
      (complete : Text → Text → Text → Db × V → Option Text × (Db × V)) (mock : Bool) (now v : ℕ)
      (force explicit_eval : Bool) (s : Evaluated (Db × V)) where
    abbrev call : Result Published × Evaluated (Db × V)
    call = publish_version env tenant agent execute_run complete mock now v force explicit_eval s

    -- The regression that the call runs for a row.
    abbrev regression : VersionRow → RegressionReport × Evaluated (Db × V)
    regression row =
        run_regression (execute_run v row.system_prompt) complete mock now tenant agent v badcases
          default_tolerance s
