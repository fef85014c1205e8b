-- ===== src/Cost/Settled.antt =====
-- A reconciliation settles every open call once (app/cost/service.py).
use new_rag.Cost.Booked.{charges}
use new_rag.Base.{none, some, true, false, ◌&&◌, ◌==◌, ℕ, Bool, Option, List, Ident}
use new_rag.Cost.{LlmCallRow, BillRow, Price}

module _ (tenant_id run_id : Option Ident) (prices : List (Ident × Price)) (default : Price)
    (bill : List BillRow) where
  -- A call without an actual cost, of the tenant and the run if these are given.
  abbrev pub owed : LlmCallRow → Bool
  owed r =
      (elim r.actual_cost [ none ↦ true | some _ ↦ false ])
      && (elim tenant_id [ none ↦ true | some t ↦ r.tenant_id == t ])
      && (elim run_id [ none ↦ true | some i ↦ r.run_id == i ])

  -- The charges of the calls that are owed and pass a test.
  abbrev pub due : (LlmCallRow → Bool) → List LlmCallRow → ℕ
  due p calls = charges prices default bill (λ r. owed r && p r) calls
