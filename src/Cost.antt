-- ===== src/Cost.antt =====
-- The reconciliation of the costs of model calls with a bill (`reconcile` of app/cost/service.py).
-- Costs are in millionths, so that a price for a million tokens times the tokens is a cost. The
-- provider of a bill is an argument's value; the rounding of floats is not modelled.
pub mod Booked
pub mod Settled
mod Tests
use new_rag.Base.{
  difference, ℕ, suc, ◌+◌, ◌*◌, ◌==◌, ◌&&◌, Bool, true, Option, none, some, List, [], ◌∷◌, not,
  if◌then◌else◌, is_some, Ident, length, ℤ,
}
use new_rag.Base.Table.{select, update}

pub record LlmCallRow : Type 0 where
  pub run_id : Ident
  pub step_id : Ident
  pub tenant_id : Ident
  pub model : Ident
  pub tokens_in : ℕ
  pub tokens_out : ℕ
  pub estimated_cost : ℕ
  pub actual_cost : Option ℕ

-- The columns of a run that are written.
pub record RunCost : Type 0 where
  pub run_id : Ident
  pub cost : ℕ

pub record BillRow : Type 0 where
  pub run_id : Ident
  pub step_id : Ident
  pub cost : ℕ

pub record Books : Type 0 where
  pub calls : List LlmCallRow
  pub runs : List RunCost

-- The prices of a model's tokens in and out.
abbrev pub Price : Type 0
Price = ℕ × ℕ

-- `bill_cost.get(...)`: the last row of a call in the bill.
unfoldable pub billed : List BillRow → LlmCallRow → Option ℕ
billed [] r = none
billed (b ∷ bill) r = elim (billed bill r) [
  | some c ↦ some c
  | none ↦ if b.run_id == r.run_id && b.step_id == r.step_id then some b.cost else none
]

-- `prices.get(model, default)`
unfoldable pub price_of : List (Ident × Price) → Price → Ident → Price
price_of [] default model = default
price_of ((m, p) ∷ prices) default model =
    let rest = price_of prices default model in if m == model then p else rest

abbrev pub wanted : Option Ident → Ident → Bool
wanted none i = true
wanted (some j) i = i == j

pub record Sums : Type 0 where
  pub total_estimated : ℕ
  pub total_actual : ℕ
  pub matched_bill : ℕ
  pub fallback_priced : ℕ
  pub per_run : List (Ident × ℕ)

abbrev pub no_sums : Sums
no_sums = record {
  total_estimated = 0;
  total_actual = 0;
  matched_bill = 0;
  fallback_priced = 0;
  per_run = [];
}

-- `per_run[run_id] = per_run.get(run_id, 0.0) + cost`
unfoldable pub add_cost : Ident → ℕ → List (Ident × ℕ) → List (Ident × ℕ)
add_cost i c [] = (i, c) ∷ []
add_cost i c ((j, n) ∷ t) =
    let rest = add_cost i c t in if j == i then (j, n + c) ∷ t else (j, n) ∷ rest

-- The new costs of the runs.
unfoldable pub write_costs : List (Ident × ℕ) → List RunCost → List RunCost
write_costs [] runs = runs
write_costs ((i, c) ∷ t) runs =
    write_costs t (update (λ r. r.run_id == i) (λ r. record r { cost = c }) runs)

pub record Reconciled : Type 0 where
  pub reconciled : ℕ
  pub sums : Sums
  pub runs_updated : ℕ
  pub diff : ℤ

module _ (tenant_id run_id : Option Ident) (prices : List (Ident × Price)) (default : Price)
    (bill : List BillRow) where
  -- A call of the scope without an actual cost.
  abbrev pub is_open : LlmCallRow → Bool
  is_open r = not (is_some r.actual_cost) && wanted tenant_id r.tenant_id && wanted run_id r.run_id

  unfoldable pub actual_of : LlmCallRow → ℕ
  actual_of r = elim (billed bill r) [
    | some c ↦ c
    | none ↦
        let (in_price, out_price) = price_of prices default r.model in
        r.tokens_in * in_price + r.tokens_out * out_price
  ]

  abbrev pub settled : LlmCallRow → LlmCallRow
  settled r = record r { actual_cost = some (actual_of r) }

  -- The loop over the open calls.
  unfoldable pub sum_calls : List LlmCallRow → Sums → Sums
  sum_calls [] t = t
  sum_calls (r ∷ rows) t =
      let matched = is_some (billed bill r) in
      sum_calls rows (record {
        total_estimated = t.total_estimated + r.estimated_cost;
        total_actual = t.total_actual + actual_of r;
        matched_bill = if matched then suc t.matched_bill else t.matched_bill;
        fallback_priced = if matched then t.fallback_priced else suc t.fallback_priced;
        per_run = add_cost r.run_id (actual_of r) t.per_run;
      })

  unfoldable pub reconcile : Books → Reconciled × Books
  reconcile s =
      let rows = select is_open s.calls in
      let t = sum_calls rows no_sums in
      let report : Reconciled = record {
        reconciled = length rows;
        sums = t;
        runs_updated = length t.per_run;
        diff = difference t.total_actual t.total_estimated;
      } in
      (
        report,
        record { calls = update is_open settled s.calls; runs = write_costs t.per_run s.runs },
      )
