-- ===== src/Release/Canary.antt =====
-- The canary stop (app/release/service.py, `canary_check`). Rates are pairs of counts, compared
-- with a threshold in thousandths by cross multiplication; a rate over nothing is 0. Costs are in
-- millionths and latencies in milliseconds, so an average over a threshold is a sum over a
-- multiple. The reason texts, the token sums and the p95 latency are reported only, and left out.
pub mod Stop
use new_rag.Base.{
  ℕ, ◌+◌, ◌-◌, ◌*◌, Bool, true, false, ◌&&◌, ◌||◌, Option, none, some, List, [], ◌∷◌, map, ltb, leb,
  ◌==◌, if◌then◌else◌, Ident, is_some, opt_eq, mem, length, count_if, ok, Code, Action, pure, gets,
  ◌>>=◌, ◌>>◌, model_rate_limit,
}
use new_rag.Base.Table.{select, latest}
use new_rag.Release.Model.{RunRow, ToolCallRow, FeedbackRow, VersionRow, Db, is_active, is_gray}
use new_rag.Release.Flow.{version_of}
use new_rag.Release.Versions.{halt, rollback}

pub record Thresholds : Type 0 where
  pub min_runs : ℕ
  pub error : ℕ
  pub cost_budget : ℕ
  pub latency : ℕ
  pub tool_success : ℕ
  pub rag_recall : ℕ
  pub llm_429 : ℕ
  pub feedback : ℕ
  pub auto_rollback : Bool

-- The default arguments.
abbrev pub default_thresholds : Thresholds
default_thresholds = record {
  min_runs = 5;
  error = 100;
  cost_budget = 1000000;
  latency = 30000;
  tool_success = 900;
  rag_recall = 300;
  llm_429 = 200;
  feedback = 3;
  auto_rollback = true;
}

pub record Rate : Type 0 where
  pub part : ℕ
  pub whole : ℕ

-- `rate > threshold` and `rate < threshold`
abbrev pub above : Rate → ℕ → Bool
above r t = ltb (t * r.whole) (r.part * 1000)

abbrev pub below : Rate → ℕ → Bool
below r t = ltb (r.part * 1000) (t * r.whole)

pub record Metrics : Type 0 where
  pub runs : ℕ
  pub error_rate : Rate
  pub cost : ℕ
  -- the latencies of the finished runs, and how many there are
  pub latency_sum : ℕ
  pub finished : ℕ
  pub tool_success_rate : Option Rate
  pub rag_recall : Option Rate
  pub llm_429_rate : Rate
  pub negative_feedback : ℕ

abbrev pub is_429 : Option Code → Bool
is_429 (some model_rate_limit) = true
is_429 _ = false

unfoldable pub sum_of : {A : Type 0} → (A → ℕ) → List A → ℕ
sum_of f [] = 0
sum_of f (x ∷ xs) = f x + sum_of f xs

-- The duration of a run that has finished.
abbrev pub latency_of : RunRow → ℕ
latency_of r = elim r.finished_at [ none ↦ 0 | some e ↦ e - r.started_at ]

-- The rate over the rows, `none` over no rows.
unfoldable pub rate_of : {A : Type 0} → (A → Bool) → List A → Option Rate
rate_of p [] = none
rate_of p (x ∷ xs) = some (record { part = count_if p (x ∷ xs); whole = length (x ∷ xs) })

pub data Verdict : Type 0 where
  continue : Verdict
  stop : Option ℕ → Verdict

module _ (kb_search : Ident) (tenant agent : Ident) where
  abbrev pub gray_run : ℕ → RunRow → Bool
  gray_run v r =
      r.agent == agent
      && r.tenant == tenant
      && elim r.release_status [ none ↦ false | some s ↦ is_gray s ]
      && opt_eq r.release_version v

  unfoldable pub gray_runs : ℕ → Db → List RunRow
  unfolding select
  gray_runs v db = select (gray_run v) db.runs

  unfoldable pub metrics_of : List RunRow → List ToolCallRow → List FeedbackRow → Metrics
  unfolding select sum_of rate_of
  metrics_of runs tool_calls events =
      let ids = map (λ r. r.run_id) runs in
      let calls = select (λ t. mem t.run_id ids) tool_calls in
      record {
        runs = length runs;
        error_rate = record { part = count_if (λ r. is_some r.error) runs; whole = length runs };
        cost = sum_of (λ r. r.cost) runs;
        latency_sum = sum_of latency_of runs;
        finished = count_if (λ r. is_some r.finished_at) runs;
        tool_success_rate = rate_of (λ t. t.succeeded) calls;
        rag_recall = rate_of (λ t. t.has_data) (select (λ t. t.tool_ref == kb_search) calls);
        llm_429_rate = record { part = count_if (λ r. is_429 r.error) runs; whole = length runs };
        negative_feedback = count_if (λ e. e.is_bad && mem e.aggregate_id ids) events;
      }

  unfoldable pub degraded : Thresholds → Metrics → Bool
  degraded t m =
      above m.error_rate t.error
      || ltb (t.cost_budget * m.runs) m.cost
      || ltb (t.latency * m.finished) m.latency_sum
      || elim m.tool_success_rate [ none ↦ false | some r ↦ below r t.tool_success ]
      || elim m.rag_recall [ none ↦ false | some r ↦ below r t.rag_recall ]
      || above m.llm_429_rate t.llm_429
      || leb t.feedback m.negative_feedback

  -- The ACTIVE version below the halted one, to which the traffic goes back.
  unfoldable pub previous_active : ℕ → Db → Option VersionRow
  unfolding latest select
  previous_active v db =
      latest (λ r. r.version)
        (select (λ r. version_of tenant agent r && is_active r.status && ltb r.version v)
          db.versions)

  unfoldable pub roll_back_to : Option VersionRow → Action Db (Option ℕ)
  roll_back_to none = pure none
  roll_back_to (some r) = do rollback tenant agent (some r.version); pure (some r.version)

  unfoldable pub canary_check : Thresholds → ℕ → Action Db Verdict
  canary_check t v db =
      let m = metrics_of (gray_runs v db) db.tool_calls db.events in
      if leb t.min_runs m.runs && degraded t m
      then (do
        halt tenant agent v
        prev ← gets (previous_active v)
        back ← roll_back_to (if t.auto_rollback then prev else none)
        pure (stop back))
          db
      else (ok continue, db)
