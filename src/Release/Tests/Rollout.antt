-- ===== src/Release/Tests/Rollout.antt =====
-- The theorems on gray rollouts and the canary stop at concrete inputs.
use mathlib.Core.Option
use new_rag.Base.{
  map, ◌*◌, ℕ, ◌≡◌, ◌≤◌, refl, arith, true, ◌&&◌, some, none, [], ◌∷◌, ok, Code, Ident, is_some,
  leb, pos,
}
use new_rag.Base.Table.{select, first}
use new_rag.Base.Order.{any, order_desc, find, insert_desc}
use new_rag.Release.Model.{gray, disabled, VersionRow, RunRow, Db}
use new_rag.Release.Flow.{ensure_not_terminated, find_meta, meta_config}
use new_rag.Release.Contract.{find_version, get_version}
use new_rag.Release.Versions.{halt, gray_release}
use new_rag.Release.Canary.{
  default_thresholds, metrics_of, gray_runs, degraded, sum_of, rate_of, canary_check,
}
use new_rag.Release.Canary.Stop.{asks_stop, canary_check-stop}
use new_rag.Release.Resolve.{gray_percentage, gray_of, gray_hit}
use new_rag.Release.Resolve.Rollout.{IsServed, resolve-full, gray-keeps_reached}
use new_rag.Release.Tests.{version, rollout, ids-Distinct}

-- A stand-in for the hash of a user's name.
abbrev hash : Ident → ℕ
hash user = user * 31

at_full : any (λ r. gray_of 1 2 r && leb 100 (gray_percentage r)) rollout.versions ≡ true
unfolding gray_percentage
at_full = refl

resolve-full_example : (r : VersionRow) × IsServed hash 1 2 5 rollout r
resolve-full_example = resolve-full hash 1 2 5 rollout at_full

finds_gray : find_version 1 2 3 rollout ≡ some (version 3 gray (some 100))
unfolding find_version first select
finds_gray = refl

raises : gray_percentage (version 3 gray (some 100)) ≤ 100
unfolding gray_percentage
raises = omega arith

reaches : is_some (gray_hit hash 1 2 (some 5) rollout) ≡ true
unfolding gray_hit find order_desc insert_desc select gray_percentage
reaches = refl

gray-keeps_reached_example :
    is_some (gray_hit hash 1 2 (some 5) (gray_release 1 2 3 (pos 100) rollout).1) ≡ true
gray-keeps_reached_example =
    gray-keeps_reached hash 1 2 5 3 100 rollout (version 3 gray (some 100)) ids-Distinct finds_gray
      raises reaches

-- Five runs of version 3, all of which have failed.
abbrev failed_run : Ident → RunRow
failed_run id = record {
  run_id = id;
  tenant = 1;
  agent = 2;
  release_status = some gray;
  release_version = some 3;
  error = some Code.model_error;
  cost = 0;
  started_at = id;
  finished_at = none;
}

abbrev failing : Db
failing = record rollout { runs = map failed_run (1 ∷ 2 ∷ 3 ∷ 4 ∷ 5 ∷ []) }

asks : asks_stop 30 1 2 default_thresholds 3 failing ≡ true
unfolding metrics_of gray_runs degraded sum_of rate_of select
asks = refl

halts_failing : (halt 1 2 3 failing).0 ≡ ok 3
unfolding halt ensure_not_terminated meta_config find_meta get_version find_version first select
halts_failing = refl

canary_check-stop_example :
    Option.map
      (λ r. r.status)
      (find_version 1 2 3 (canary_check 30 1 2 default_thresholds 3 failing).1)
    ≡ some disabled
canary_check-stop_example =
    canary_check-stop 30 1 2 default_thresholds 3 failing asks halts_failing
      (omega arith, (omega arith, (omega arith, tt)))
