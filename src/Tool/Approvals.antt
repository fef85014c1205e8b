-- ===== src/Tool/Approvals.antt =====
-- `ApprovalService` (app/approval/service.py) over the rows of approvals. Times are counts of one unit,
-- and an order in the hour is `hour` of them; the new id is an argument.
pub mod Decisions
use new_rag.Base.{
  ℕ, ◌+◌, ◌*◌, ltb, ◌==◌, ◌&&◌, Bool, true, false, Option, none, some, List, [], ◌∷◌, ◌++◌, Ident,
  if◌then◌else◌,
}
use new_rag.Base.Table.{select, latest, first, update}

pub data ApprovalStatus : Type 0 where
  pending approved rejected timed_out : ApprovalStatus

pub record ApprovalRow : Type 0 where
  pub id : Ident
  pub tenant_id : Ident
  pub requester_id : Ident
  pub approver_id : Option Ident
  pub tool_ref : Ident
  pub call_id : Ident
  pub status : ApprovalStatus
  pub reason : Ident
  pub decided_at : Option ℕ
  pub expires_at : ℕ
  pub created_at : ℕ

abbrev pub Approvals : Type 0
Approvals = List ApprovalRow

unfoldable pub is_pending : ApprovalStatus → Bool
is_pending pending = true
is_pending _ = false

unfoldable pub is_approved : ApprovalStatus → Bool
is_approved approved = true
is_approved _ = false

unfoldable pub is_rejected : ApprovalStatus → Bool
is_rejected rejected = true
is_rejected _ = false

abbrev pub for_call : Ident → Ident → Ident → ApprovalRow → Bool
for_call tenant_id call_id tool_ref a =
    a.tenant_id == tenant_id && a.call_id == call_id && a.tool_ref == tool_ref

unfoldable pub find_for_call : Ident → Ident → Ident → Approvals → Option ApprovalRow
find_for_call tenant_id call_id tool_ref rows =
    latest (λ a. a.created_at) (select (for_call tenant_id call_id tool_ref) rows)

-- `create` with the default of 24 hours.
unfoldable pub create : ℕ → ℕ → Ident → Ident → Ident → Ident → Ident → Approvals → Approvals
create hour now new_id tenant_id requester_id tool_ref call_id rows =
    let row : ApprovalRow = record {
      id = new_id;
      tenant_id = tenant_id;
      requester_id = requester_id;
      approver_id = none;
      tool_ref = tool_ref;
      call_id = call_id;
      status = pending;
      reason = 0;
      decided_at = none;
      expires_at = now + 24 * hour;
      created_at = now;
    } in
    rows ++ row ∷ []

unfoldable pub get : Ident → Approvals → Option ApprovalRow
unfolding first select
get approval_id rows = first (select (λ a. a.id == approval_id) rows)

-- The row after a decision at `now`.
unfoldable pub decided : ℕ → Ident → Bool → Ident → ApprovalRow → ApprovalRow
decided now approver_id approve reason row =
    if is_pending row.status
    then (if ltb row.expires_at now
        then record row { status = timed_out; decided_at = some now }
        else record row {
          status = if approve then approved else rejected;
          approver_id = some approver_id;
          reason = if reason == 0 then row.reason else reason;
          decided_at = some now;
        })
    else row

-- `decide` answers with a status, or "NOT_FOUND" for `none`.
unfoldable pub decide :
    ℕ → Ident → Ident → Bool → Ident → Approvals → Option ApprovalStatus × Approvals
unfolding decided update
decide now approval_id approver_id approve reason rows = elim (get approval_id rows) [
  | none ↦ (none, rows)
  | some row ↦ (
    some (decided now approver_id approve reason row).status,
    update (λ a. a.id == approval_id) (decided now approver_id approve reason) rows,
  )
]
