-- ===== src/Cost/Booked.antt =====
-- What a reconciliation writes on calls and runs, without its loops (app/cost/service.py).
use new_rag.Base.{
  ◌∙◌, suc, ℕ, ◌+◌, ◌*◌, ◌≡◌, ◌==◌, ◌&&◌, Bool, false, Option, none, some, List, [], ◌∷◌, map,
  if◌then◌else◌, is_some, Ident, refl, arith, inl, inr, Bool-cases,
}
use new_rag.Base.Table.{select, update, first}
use new_rag.Base.Order.{any}
use new_rag.Cost.{
  LlmCallRow, RunCost, BillRow, Price, billed, price_of, actual_of, Sums, add_cost, write_costs,
  sum_calls,
}

pub update-map :
    {A : Type 0} (p : A → Bool) (f : A → A) (xs : List A)
    → update p f xs ≡ map (λ x. if p x then f x else x) xs
unfolding update
update-map p f [] = refl
update-map p f (x ∷ xs) = ground (arith, update-map p f xs)

unfoldable pub last {ℓ} : {A : Type ℓ} → List A → Option A
last [] = none
last (x ∷ xs) = elim (last xs) [ none ↦ some x | some y ↦ some y ]

-- The first cost of a run in a list, no run standing in it twice.
unfoldable pub cost_in : Ident → List (Ident × ℕ) → Option ℕ
cost_in i [] = none
cost_in i ((j, n) ∷ t) = let rest = cost_in i t in if j == i then some n else rest

unfoldable pub IsUnique : List (Ident × ℕ) → Type 0
IsUnique [] = Unit
IsUnique ((i, n) ∷ t) = (cost_in i t ≡ none) × IsUnique t

abbrev pub or_zero : Option ℕ → ℕ
or_zero o = elim o [ none ↦ 0 | some n ↦ n ]

cost_in-add_cost :
    (i j : Ident) (c : ℕ) (t : List (Ident × ℕ))
    → cost_in j (add_cost i c t)
      ≡ (if i == j then some (or_zero (cost_in j t) + c) else cost_in j t)
unfolding cost_in add_cost
cost_in-add_cost i j c [] = ground arith
cost_in-add_cost i j c ((k, n) ∷ t) = ground (arith, cost_in-add_cost i j c t)

add_cost-IsUnique :
    (i : Ident) (c : ℕ) (t : List (Ident × ℕ)) → IsUnique t → IsUnique (add_cost i c t)
unfolding IsUnique add_cost cost_in
add_cost-IsUnique i c [] h = (refl, tt)
add_cost-IsUnique i c ((k, n) ∷ t) h = elim (Bool-cases (k == i)) [
  | inl e ↦ ground (arith, e, h)
  | inr e ↦
      let rest = add_cost-IsUnique i c t h.1 in
      let kept = cost_in-add_cost i k c t in ground (arith, e, h.0, rest, kept)
]

abbrev pub written : List (Ident × ℕ) → RunCost → RunCost
written t r = elim (cost_in r.run_id t) [ none ↦ r | some c ↦ record r { cost = c } ]

written-nil : (runs : List RunCost) → runs ≡ map (written []) runs
unfolding cost_in
written-nil [] = refl
written-nil (r ∷ runs) = ground (arith, written-nil runs)

written-update :
    (i : Ident) (c : ℕ) (t : List (Ident × ℕ)) (runs : List RunCost)
    → cost_in i t ≡ none
    → map (written t) (update (λ r. r.run_id == i) (λ r. record r { cost = c }) runs)
      ≡ map (written ((i, c) ∷ t)) runs
unfolding cost_in update
written-update i c t [] h = refl
written-update i c t (r ∷ runs) h = elim (Bool-cases (r.run_id == i)) [
  | inl e ↦
      let same : r.run_id ≡ i = ground arith in
      let gone : cost_in r.run_id t ≡ none = rw same h in
      ground (arith, e, gone, written-update i c t runs h)
  | inr e ↦ ground (arith, e, written-update i c t runs h)
]

pub write_costs-map :
    (t : List (Ident × ℕ)) (runs : List RunCost)
    → IsUnique t
    → write_costs t runs ≡ map (written t) runs
unfolding write_costs IsUnique
write_costs-map [] runs h = written-nil runs
write_costs-map ((i, c) ∷ t) runs h =
    write_costs-map t (update (λ r. r.run_id == i) (λ r. record r { cost = c }) runs) h.1
    ∙ written-update i c t runs h.0

module _ (prices : List (Ident × Price)) (default : Price) (bill : List BillRow) where
  -- The cost of the last row of the bill for the run and the step, or else of the tokens by the first
  -- price of the model, or else by the default price.
  unfoldable pub charge : LlmCallRow → ℕ
  charge r = elim (last (select (λ b. b.run_id == r.run_id && b.step_id == r.step_id) bill)) [
    | some b ↦ b.cost
    | none ↦
        let price : Price = elim (first (select (λ m. m.0 == r.model) prices)) [
          | some m ↦ m.1
          | none ↦ default
        ] in
        r.tokens_in * price.0 + r.tokens_out * price.1
  ]

  -- The charges of the calls that pass a test.
  unfoldable pub charges : (LlmCallRow → Bool) → List LlmCallRow → ℕ
  charges p [] = 0
  charges p (r ∷ rows) = let rest = charges p rows in if p r then charge r + rest else rest

charges-none :
    (prices : List (Ident × Price)) (default : Price) (bill : List BillRow) (p : LlmCallRow → Bool)
    (rows : List LlmCallRow)
    → any p rows ≡ false
    → charges prices default bill p rows ≡ 0
unfolding charges
charges-none prices default bill p [] h = refl
charges-none prices default bill p (r ∷ rows) h =
    let rest = charges-none prices default bill p rows in ground (arith, rest)

billed-last :
    (r : LlmCallRow) (bill : List BillRow)
    → billed bill r
      ≡ elim (last (select (λ b. b.run_id == r.run_id && b.step_id == r.step_id) bill)) [
        | some b ↦ some b.cost
        | none ↦ none
      ]
unfolding billed last select
billed-last r [] = refl
billed-last r (b ∷ bill) = ground (arith, billed-last r bill)

price_of-first :
    (default : Price) (model : Ident) (prices : List (Ident × Price))
    → price_of prices default model
      ≡ elim (first (select (λ m. m.0 == model) prices)) [ some m ↦ m.1 | none ↦ default ]
unfolding price_of first select
price_of-first default model [] = refl
price_of-first default model ((m, p) ∷ prices) = ground (arith, price_of-first default model prices)

module _ (tenant_id run_id : Option Ident) (prices : List (Ident × Price)) (default : Price)
    (bill : List BillRow) where
  pub actual_of-charge :
      (r : LlmCallRow)
      → actual_of tenant_id run_id prices default bill r ≡ charge prices default bill r
  unfolding actual_of charge
  actual_of-charge r = ground (arith, billed-last r bill, price_of-first default r.model prices)

  abbrev pub of_run : Ident → LlmCallRow → Bool
  of_run i r = r.run_id == i

  -- The cost of a run after the loop.
  abbrev pub summed : Ident → List LlmCallRow → Option ℕ → Option ℕ
  summed i rows o =
      if any (of_run i) rows
      then some (or_zero o + charges prices default bill (of_run i) rows)
      else o

  pub sum_calls-cost_in :
      (i : Ident) (rows : List LlmCallRow) (t : Sums)
      → IsUnique t.per_run
      → let r = sum_calls tenant_id run_id prices default bill rows t in
        IsUnique r.per_run × (cost_in i r.per_run ≡ summed i rows (cost_in i t.per_run))
  unfolding sum_calls charges
  sum_calls-cost_in i [] t h = (h, refl)
  sum_calls-cost_in i (r ∷ rows) t h =
      let matched = is_some (billed bill r) in
      let c = actual_of tenant_id run_id prices default bill r in
      let next : Sums = record {
        total_estimated = t.total_estimated + r.estimated_cost;
        total_actual = t.total_actual + c;
        matched_bill = if matched then suc t.matched_bill else t.matched_bill;
        fallback_priced = if matched then t.fallback_priced else suc t.fallback_priced;
        per_run = add_cost r.run_id c t.per_run;
      } in
      let ih = sum_calls-cost_in i rows next (add_cost-IsUnique r.run_id c t.per_run h) in
      let none_due = charges-none prices default bill (of_run i) rows in
      (
        ih.0,
        ih.1
            ∙ ground (arith, cost_in-add_cost r.run_id i c t.per_run, actual_of-charge r, none_due),
      )

module _ (prices : List (Ident × Price)) (default : Price) (bill : List BillRow) where
  pub charges-select :
      (p q : LlmCallRow → Bool) (rows : List LlmCallRow)
      → charges prices default bill p (select q rows)
        ≡ charges prices default bill (λ r. q r && p r) rows
  unfolding charges select
  charges-select p q [] = refl
  charges-select p q (r ∷ rows) = ground (arith, charges-select p q rows)
