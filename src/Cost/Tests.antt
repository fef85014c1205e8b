-- ===== src/Cost/Tests.antt =====
-- The theorem on the reconciliation at a concrete input: a call in the bill and one that is not.
use new_rag.Base.{none, List, [], ◌∷◌, Ident}
use new_rag.Cost.{LlmCallRow, BillRow, Books}

abbrev call : Ident → LlmCallRow
call step = record {
  run_id = 5;
  step_id = step;
  tenant_id = 1;
  model = 3;
  tokens_in = 100;
  tokens_out = 10;
  estimated_cost = 130;
  actual_cost = none;
}

abbrev books : Books
books = record { calls = call 1 ∷ call 2 ∷ []; runs = record { run_id = 5; cost = 260 } ∷ [] }

abbrev bill : List BillRow
bill = record { run_id = 5; step_id = 1; cost = 200 } ∷ []
