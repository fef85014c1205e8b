-- ===== src/Gateway/Pool/Choice.antt =====
-- The provider that the scheduler chooses (app/agent/model/scheduler.py).
use new_rag.Base.{◌≤◌, ◌⊎◌, ℕ, ◌≡◌, ◌<◌, leb, List, []}
use new_rag.Base.Table.{select}
use new_rag.Gateway.Pool.{ProviderEntry, weight, latency_p95, healthy_entries}

-- A healthy provider that is within the budget of latency, or where no healthy one is.
abbrev pub Candidate : ℕ → ℕ → List ProviderEntry → ProviderEntry → Type 0
Candidate now budget entries e =
    (0 < weight now e)
    × ((latency_p95 now e.health ≤ budget)
        ⊎ (select (λ x. leb (latency_p95 now x.health) budget) (healthy_entries now entries) ≡ []))
