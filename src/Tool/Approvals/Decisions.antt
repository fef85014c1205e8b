-- ===== src/Tool/Approvals/Decisions.antt =====
-- The life of an approval (app/approval/service.py).
use mathlib.Core.Option
use new_rag.Base.{
  if◌then◌else◌, ℕ, ◌==◌, ◌≡◌, arith, Bool, false, Option-cases, some, inl, inr, List, [], ◌∷◌,
  Ident,
}
use new_rag.Base.Table.{select, first, update}
use new_rag.Tool.Approvals.{ApprovalRow, Approvals, is_pending, get, decided, decide}

-- A call of `decide`.
pub record Decision : Type 0 where
  pub now : ℕ
  pub approval_id : Ident
  pub approver_id : Ident
  pub approve : Bool
  pub reason : Ident

unfoldable pub decide_all : List Decision → Approvals → Approvals
decide_all [] rows = rows
decide_all (d ∷ ds) rows =
    decide_all ds (decide d.now d.approval_id d.approver_id d.approve d.reason rows).1

decided-id :
    (now : ℕ) (who : Ident) (approve : Bool) (why : Ident) (row : ApprovalRow)
    → (decided now who approve why row).id ≡ row.id
unfolding decided
decided-id now who approve why row = ground arith

get-decided :
    (d : Decision) (id : Ident) (rows : Approvals)
    → get id
        (update (λ a. a.id == d.approval_id) (decided d.now d.approver_id d.approve d.reason) rows)
      ≡ (if d.approval_id == id
          then Option.map (decided d.now d.approver_id d.approve d.reason) (get id rows)
          else get id rows)
unfolding get update select first
get-decided d id [] = ground arith
get-decided d id (row ∷ rows) =
    ground (arith, get-decided d id rows, decided-id d.now d.approver_id d.approve d.reason row)

decided-final :
    (now : ℕ) (who : Ident) (approve : Bool) (why : Ident) (row : ApprovalRow)
    → (is_pending row.status ≡ false → decided now who approve why row ≡ row)
      × (is_pending (decided now who approve why row).status ≡ false)
unfolding decided is_pending
decided-final now who approve why row = (λ p. ground (arith, p), ground arith)

-- One decision leaves a decided row alone.
get-decide :
    (d : Decision) (id : Ident) (row : ApprovalRow) (rows : Approvals)
    → get id rows ≡ some row
    → is_pending row.status ≡ false
    → get id (decide d.now d.approval_id d.approver_id d.approve d.reason rows).1 ≡ some row
unfolding decide
get-decide d id row rows h p = elim (Option-cases (get d.approval_id rows)) [
  | inl n ↦ ground (arith, h, n)
  | inr (other, o) ↦ ground (
    arith,
    h,
    p,
    o,
    get-decided d id rows,
    (decided-final d.now d.approver_id d.approve d.reason row).0 p,
  )
]

get-decide_all :
    (ds : List Decision) (id : Ident) (row : ApprovalRow) (rows : Approvals)
    → get id rows ≡ some row
    → is_pending row.status ≡ false
    → get id (decide_all ds rows) ≡ some row
unfolding decide_all
get-decide_all [] id row rows h p = h
get-decide_all (d ∷ ds) id row rows h p =
    get-decide_all ds id row (decide d.now d.approval_id d.approver_id d.approve d.reason rows).1
      (get-decide d id row rows h p) p

-- The first decision on an approval that exists stays: whatever calls of `decide` follow, on it or on
-- others, its row stays as that decision left it.
pub decide-final :
    (d : Decision) (ds : List Decision) (row : ApprovalRow) (rows : Approvals)
    → get d.approval_id rows ≡ some row
    → get d.approval_id
        (decide_all ds (decide d.now d.approval_id d.approver_id d.approve d.reason rows).1)
      ≡ some (decided d.now d.approver_id d.approve d.reason row)
unfolding decide
decide-final d ds row rows h =
    let row' = decided d.now d.approver_id d.approve d.reason row in
    get-decide_all ds d.approval_id row'
      (decide d.now d.approval_id d.approver_id d.approve d.reason rows).1
      (ground (arith, h, get-decided d d.approval_id rows))
      (decided-final d.now d.approver_id d.approve d.reason row).1
