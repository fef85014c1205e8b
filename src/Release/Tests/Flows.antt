-- ===== src/Release/Tests/Flows.antt =====
-- The theorems on the flow and the orders of an agent at concrete inputs.
use new_rag.Base.{arith, none, [], ◌∷◌}
use new_rag.Base.Table.{select}
use new_rag.Release.Model.{OrderStatus, Db}
use new_rag.Release.Orders.Lifecycle.{OneOpen}
use new_rag.Release.Orders.Calls.{Call, apply, apply-OneOpen}
use new_rag.Release.Tests.{rollout}

-- The agent has one order, which is open.
abbrev ordered : Db
ordered = record rollout {
  orders =
      record {
        id = 70;
        tenant = 1;
        agent = 2;
        order_no = 1;
        status = OrderStatus.open_order;
        created_by = 8;
        summary = none;
        snapshot = none;
        created_at = 5;
        ended_at = none;
      }
      ∷ [];
}

ordered-OneOpen : OneOpen 1 2 ordered
unfolding select
ordered-OneOpen = omega arith

apply-OneOpen_example : OneOpen 1 2 (apply 1 2 9 (Call.create 71 8) ordered)
apply-OneOpen_example = apply-OneOpen 1 2 9 (Call.create 71 8) ordered ordered-OneOpen
