-- ===== src/Release/Tests/Judged.antt =====
-- The theorem on the publication behind a regression at a concrete input: a run that answers "a" passes
-- the only case of the tenant.
use new_rag.Evaluation.Regression.Judgements.{Judgements}
use new_rag.Base.{ℕ, true, Option, none, some, [], ◌∷◌, Ident}
use new_rag.Evaluation.Text.{Text}
use new_rag.Evaluation.Spec.{terms_key, texts}
use new_rag.Evaluation.Cases.{Evaluations, badcases}
use new_rag.Evaluation.Regression.{Evaluated, run_regression}
use new_rag.Evaluation.Judge.{Judged, RunReport}
use new_rag.Release.Model.{Db}
use new_rag.Release.Contract.{Env}
use new_rag.Release.Publishing.{Published}
use new_rag.Release.Tests.{rollout}

abbrev env : Env
env = record { registry = none; settings = none }

abbrev cases : Evaluations
cases = record {
  datasets = record { id = 1; tenant_id = 1; name = []; kind = badcases } ∷ [];
  cases =
      record {
        id = 2;
        dataset_id = 1;
        tenant_id = 1;
        query = 113 ∷ [];
        run_id = [];
        reason = [];
        category = [];
        expected_json = (terms_key, texts ((97 ∷ []) ∷ [])) ∷ [];
        created_at = 0;
      }
      ∷ [];
  next_id = 3;
}

abbrev answers : ℕ → Ident → Text → Db × ℕ → RunReport × (Db × ℕ)
answers v p q w = (record { is_completed = true; answer = 97 ∷ []; steps = [] }, w)

abbrev silent : Text → Text → Text → Db × ℕ → Option Text × (Db × ℕ)
silent q r a w = (none, w)

abbrev start : Evaluated (Db × ℕ)
start = record { evaluations = cases; regressions = []; world = (rollout, 0) }

abbrev published : Published
published = (3, some (run_regression (answers 3 7) silent true 9 1 2 3 badcases 5 start).0)
