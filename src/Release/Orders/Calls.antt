-- ===== src/Release/Orders/Calls.antt =====
-- The orders of an agent under every call that opens or closes one (app/release/service.py).
use new_rag.Base.{
  ◌∙◌, Option-cases, ℕ, ◌<◌, ◌≡◌, refl, ap, true, none, some, [], ◌∷◌, ◌++◌, arith, Ident, All, inl,
  inr,
}
use new_rag.Base.Table.{select}
use new_rag.Release.Model.{meta, NodeConfig, FlowStatus, OrderStatus, Db}
use new_rag.Release.Flow.{
  order_of, ensure_flow_nodes, get_flow_config, write_node, reset_flow_state, current_order_id,
  set_current_order_id,
}
use new_rag.Release.Flow.Gate.{meta_config-write_node, meta_config-ensure}
use new_rag.Release.Orders.{
  open_of, find_open, next_order_no, new_order, ensure_open_order, close_order, set_status,
  save_flow_status, terminate_flow, start_flow, create_order,
}
use new_rag.Release.Orders.Lifecycle.{
  OneOpen, close_order-All, next_order_no-gt, close_order-empties, write_node-orders,
  ensure_flow_nodes-orders, reset_flow_state-orders, get_flow_config-orders,
  ensure_open_order-opens, ensure_open_order-OneOpen,
}

module _ (tenant agent : Ident) where
  -- `terminate_flow` leaves the agent no open order.
  pub terminate_flow-empties :
      (now : ℕ) (db : Db)
      → OneOpen tenant agent db
      → select (open_of tenant agent) (terminate_flow tenant agent now db).orders ≡ []
  unfolding terminate_flow
  terminate_flow-empties now db one =
      let f = λ (c : NodeConfig). record c { status = FlowStatus.terminated; terminated = true } in
      close_order-empties tenant agent OrderStatus.terminated none now
        (write_node tenant agent meta f db) refl (rw (write_node-orders tenant agent f db) one)

  -- So does `save_flow_status` at the stage "done".
  pub save_flow_status-empties :
      (now : ℕ) (db : Db)
      → OneOpen tenant agent db
      → select (open_of tenant agent) (save_flow_status tenant agent FlowStatus.done now db).orders
        ≡ []
  unfolding save_flow_status
  save_flow_status-empties now db one =
      let db' = write_node tenant agent meta (set_status FlowStatus.done) db in
      let got = get_flow_config tenant agent db' in
      close_order-empties tenant agent OrderStatus.done (some got.0) now got.1 refl (
        rw
          (
            get_flow_config-orders tenant agent db',
            write_node-orders tenant agent (set_status FlowStatus.done) db,
          )
          one)

  save_flow_status-OneOpen :
      (status : FlowStatus) (now : ℕ) (db : Db)
      → OneOpen tenant agent db
      → OneOpen tenant agent (save_flow_status tenant agent status now db)
  save_flow_status-OneOpen FlowStatus.done now db one =
      rw (save_flow_status-empties now db one) (omega arith)
  save_flow_status-OneOpen status now db one =
      unfold save_flow_status in rw (write_node-orders tenant agent (set_status status) db) one

  -- The state in which `create_order` calls `_ensure_open_order`.
  closed_and_reset : ℕ → Db → Db
  closed_and_reset now db =
      reset_flow_state tenant agent (
        close_order tenant agent OrderStatus.terminated none now
          (ensure_flow_nodes tenant agent db))

  closed_and_reset-empty :
      (now : ℕ) (db : Db)
      → OneOpen tenant agent db
      → select (open_of tenant agent) (closed_and_reset now db).orders ≡ []
  unfolding closed_and_reset
  closed_and_reset-empty now db one =
      let db' = ensure_flow_nodes tenant agent db in
      rw
        (reset_flow_state-orders tenant agent
          (close_order tenant agent OrderStatus.terminated none now db'))
        (close_order-empties tenant agent OrderStatus.terminated none now db' refl
          (rw (ensure_flow_nodes-orders tenant agent db) one))

  -- The flow points at the order that `_ensure_open_order` returns.
  ensure_open_order-current :
      (new_id created_by : Ident) (now : ℕ) (db : Db)
      → let (o, db') = ensure_open_order tenant agent new_id created_by now db in
        current_order_id tenant agent db' ≡ some o.id
  unfolding ensure_open_order set_current_order_id current_order_id
  ensure_open_order-current new_id created_by now db =
      elim (Option-cases (find_open tenant agent db)) [
        | inl n ↦
            let o = new_order tenant agent (next_order_no tenant agent db) new_id created_by now in
            ground (
              arith,
              meta_config-write_node tenant agent (λ c. record c { order_id = some new_id })
                  (record db { orders = db.orders ++ o ∷ [] }),
            )
        | inr (o, e) ↦
            ground (
              arith,
              meta_config-write_node tenant agent (λ c. record c { order_id = some o.id }) db,
            )
      ]

  -- A number below the bound after a closing was below it before.
  closed_and_reset-below :
      (n now : ℕ) (db : Db)
      → All (λ p. order_of tenant agent p ≡ true → p.order_no < n) (closed_and_reset now db).orders
      → All (λ p. order_of tenant agent p ≡ true → p.order_no < n) db.orders
  unfolding closed_and_reset
  closed_and_reset-below n now db h =
      let db' = ensure_flow_nodes tenant agent db in
      let closed = close_order tenant agent OrderStatus.terminated none now db' in
      let h' : All (λ p. order_of tenant agent p ≡ true → p.order_no < n) closed.orders =
        rw (reset_flow_state-orders tenant agent closed) at h in
      rw (ensure_flow_nodes-orders tenant agent db) at (
        close_order-All tenant agent (λ p. order_of tenant agent p ≡ true → p.order_no < n)
          OrderStatus.terminated none now db' (λ range o k. k) h')

  -- `create_order` closes the open order and leaves the new one, to which the flow points, as the
  -- only open one; its number is above all numbers of the agent's orders.
  pub create_order-sole :
      (new_id created_by : Ident) (now : ℕ) (db : Db)
      → OneOpen tenant agent db
      → let ((o, view), db') = create_order tenant agent new_id created_by now db in
        (select (open_of tenant agent) db'.orders ≡ o ∷ [])
        × (o.id ≡ new_id)
        × (current_order_id tenant agent db' ≡ some new_id)
        × All (λ p. order_of tenant agent p ≡ true → p.order_no < o.order_no) db.orders
  unfolding create_order closed_and_reset current_order_id
  create_order-sole new_id created_by now db one =
      let start = closed_and_reset now db in
      let e = closed_and_reset-empty now db one in
      let (same, _, sole) = ensure_open_order-opens tenant agent new_id created_by now start e in
      let mid = (ensure_open_order tenant agent new_id created_by now start).1 in
      (
        rw (get_flow_config-orders tenant agent mid) sole,
        ap (λ o. o.id) same,
        ap (λ c. c.order_id) (meta_config-ensure tenant agent mid)
            ∙ ensure_open_order-current new_id created_by now start
            ∙ ap (λ o. some o.id) same,
        rw same (
            closed_and_reset-below (next_order_no tenant agent start) now db
              (next_order_no-gt tenant agent start)),
      )

-- The calls that write to the orders of an agent; `open` is what `create_version` does to them.
pub data Call : Type 0 where
  save_status : FlowStatus → Call
  terminate start : Call
  create open_next : Ident → Ident → Call

pub apply : Ident → Ident → ℕ → Call → Db → Db
apply tenant agent now (save_status s) db = save_flow_status tenant agent s now db
apply tenant agent now terminate db = terminate_flow tenant agent now db
apply tenant agent now start db = (start_flow tenant agent db).1
apply tenant agent now (create new_id by) db = (create_order tenant agent new_id by now db).1
apply tenant agent now (open_next new_id by) db =
    (ensure_open_order tenant agent new_id by now db).1

-- Every call keeps the number of the agent's open orders at one or none.
pub apply-OneOpen :
    (tenant agent : Ident) (now : ℕ) (c : Call) (db : Db)
    → OneOpen tenant agent db
    → OneOpen tenant agent (apply tenant agent now c db)
unfolding apply
apply-OneOpen tenant agent now (save_status s) db one =
    save_flow_status-OneOpen tenant agent s now db one
apply-OneOpen tenant agent now terminate db one =
    rw (terminate_flow-empties tenant agent now db one) (omega arith)
apply-OneOpen tenant agent now start db one =
    unfold start_flow in
    rw
      (
        get_flow_config-orders tenant agent (reset_flow_state tenant agent db),
        reset_flow_state-orders tenant agent db,
      )
      one
apply-OneOpen tenant agent now (create new_id by) db one =
    rw ((create_order-sole tenant agent new_id by now db one).0) (omega arith)
apply-OneOpen tenant agent now (open_next new_id by) db one =
    ensure_open_order-OneOpen tenant agent new_id by now db one
