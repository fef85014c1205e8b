-- ===== src/Gateway/Pool.antt =====
-- The health of a provider (app/agent/model/health.py), the pool of providers
-- (app/agent/model/pool.py) and the choice among them (app/agent/model/scheduler.py). Thresholds are in
-- thousandths and weights in tenths; the clock is an argument.
pub mod Choice
use new_rag.Base.{
  ℕ, ◌+◌, ◌-◌, ◌*◌, ◌/◌, ◌==◌, ◌&&◌, ◌||◌, ltb, leb, not, Bool, Option, none, some, List, [], ◌∷◌,
  ◌++◌, if◌then◌else◌, Ident, length, map, Result, ok, err, model_unavailable, zero, suc,
}
use new_rag.Base.Table.{select}

pub record HealthCall : Type 0 where
  pub at : ℕ
  pub is_ok : Bool
  pub is_429 : Bool
  pub latency : ℕ

pub record ProviderHealth : Type 0 where
  pub window : ℕ
  pub error_threshold : ℕ
  pub unavailable_threshold : ℕ
  pub calls : List HealthCall

unfoldable pub skip {ℓ} : {A : Type ℓ} → ℕ → List A → List A
skip zero xs = xs
skip (suc n) [] = []
skip (suc n) (x ∷ xs) = skip n xs

-- `record`: a deque that keeps the last 2000 calls.
unfoldable pub record_health : HealthCall → ProviderHealth → ProviderHealth
record_health c h =
    let calls = h.calls ++ c ∷ [] in record h { calls = skip (length calls - 2000) calls }

unfoldable pub recent_calls : ℕ → ProviderHealth → List HealthCall
recent_calls now h = select (λ c. ltb now (c.at + h.window)) h.calls

-- The rate of some calls among all reaches a threshold; the rate of no calls is 0.
abbrev pub reaches : ℕ → ℕ → ℕ → Bool
reaches threshold hits all =
    if all == 0 then leb threshold 0 else leb (threshold * all) (1000 * hits)

abbrev pub errors : ℕ → ProviderHealth → ℕ
errors now h = length (select (λ c. not c.is_ok && not c.is_429) (recent_calls now h))

abbrev pub throttled : ℕ → ProviderHealth → ℕ
throttled now h = length (select (λ c. c.is_429) (recent_calls now h))

unfoldable pub insert_latency : ℕ → List ℕ → List ℕ
insert_latency x [] = x ∷ []
insert_latency x (y ∷ ys) =
    let rest = insert_latency x ys in if leb x y then x ∷ y ∷ ys else y ∷ rest

unfoldable pub sorted : List ℕ → List ℕ
sorted [] = []
sorted (x ∷ xs) = insert_latency x (sorted xs)

unfoldable pub nth : ℕ → List ℕ → ℕ
nth n [] = 0
nth zero (x ∷ xs) = x
nth (suc n) (x ∷ xs) = nth n xs

unfoldable pub latency_p95 : ℕ → ProviderHealth → ℕ
latency_p95 now h =
    let xs = sorted (map (λ c. c.latency) (recent_calls now h)) in
    let at = length xs * 95 / 100 in nth (if leb at (length xs - 1) then at else length xs - 1) xs

pub data HealthStatus : Type 0 where
  unavailable degraded healthy : HealthStatus

unfoldable pub status : ℕ → ProviderHealth → HealthStatus
status now h =
    let all = length (recent_calls now h) in
    if reaches h.unavailable_threshold (errors now h) all
    then unavailable
    else if reaches h.error_threshold (errors now h) all || reaches 200 (throttled now h) all
    then degraded
    else healthy

unfoldable pub traffic_weight : ℕ → ProviderHealth → ℕ
traffic_weight now h = elim (status now h) [ unavailable ↦ 0 | degraded ↦ 3 | healthy ↦ 10 ]

unfoldable pub recent_count : ℕ → ProviderHealth → ℕ
recent_count now h = length (recent_calls now h)

pub record ProviderEntry : Type 0 where
  pub provider : Ident
  pub health : ProviderHealth

abbrev pub weight : ℕ → ProviderEntry → ℕ
weight now e = traffic_weight now e.health

abbrev pub load : ℕ → ProviderEntry → ℕ
load now e = recent_count now e.health

unfoldable pub healthy_entries : ℕ → List ProviderEntry → List ProviderEntry
healthy_entries now entries = select (λ e. ltb 0 (weight now e)) entries

-- `max`, the first of the greatest.
unfoldable pub best :
    (ProviderEntry → ProviderEntry → Bool) → List ProviderEntry → Option ProviderEntry
best better [] = none
best better (x ∷ xs) = elim (best better xs) [
  | none ↦ some x
  | some y ↦ if better y x then some y else some x
]

-- `pick` of the pool.
unfoldable pub pick : ℕ → List ProviderEntry → Result ProviderEntry
pick now entries =
    elim (best (λ a b. ltb (weight now b) (weight now a)) (healthy_entries now entries)) [
      | none ↦ err model_unavailable
      | some e ↦ ok e
    ]

-- A greater weight, or the same weight and fewer calls.
abbrev pub preferred : ℕ → ProviderEntry → ProviderEntry → Bool
preferred now a b =
    ltb (weight now b) (weight now a)
    || (weight now a == weight now b && ltb (load now a) (load now b))

-- The providers within the budget of latency, or all where there is none.
unfoldable pub in_budget : ℕ → ℕ → List ProviderEntry → List ProviderEntry
in_budget now budget entries = elim (select (λ e. leb (latency_p95 now e.health) budget) entries) [
  | [] ↦ entries
  | e ∷ es ↦ e ∷ es
]

-- `pick` of the scheduler.
unfoldable pub schedule : ℕ → ℕ → List ProviderEntry → Result ProviderEntry
schedule now budget entries =
    elim (best (preferred now) (in_budget now budget (healthy_entries now entries))) [
      | none ↦ err model_unavailable
      | some e ↦ ok e
    ]
