-- ===== src/Release/Orders/Stage.antt =====
-- What opens and what closes the gate of a release flow (app/release/service.py): `publish`,
-- `gray`, `rollback`, `halt` and `contract_check` start with `_ensure_not_terminated`.
use new_rag.Base.{
  ℕ, ◌≡◌, true, false, Option, none, some, arith, Ident, ok, err, release_flow_terminated,
}
use new_rag.Release.Model.{meta, NodeConfig, FlowView, FlowStatus, OrderStatus, Db}
use new_rag.Release.Flow.{
  is_terminated, meta_config, ensure_not_terminated, get_flow_config, write_node, reset_flow_state,
}
use new_rag.Release.Flow.Gate.{meta_config-write_node, meta_config-ensure, meta_config-reset}
use new_rag.Release.Orders.{close_order, set_status, save_flow_status, terminate_flow, start_flow}

module _ (tenant agent : Ident) where
  -- Closing an order writes to the orders alone.
  close_order_nodes :
      (status : OrderStatus) (view : Option FlowView) (now : ℕ) (db : Db)
      → meta_config tenant agent (close_order tenant agent status view now db)
        ≡ meta_config tenant agent db
  unfolding close_order meta_config
  close_order_nodes status view now db = ground arith

  -- After `terminate_flow` the gate is closed: the guard of every release operation raises
  -- RELEASE_FLOW_TERMINATED and changes nothing.
  pub terminate_flow-closes :
      (now : ℕ) (db : Db)
      → let db' = terminate_flow tenant agent now db in
        ensure_not_terminated tenant agent db' ≡ (err release_flow_terminated, db')
  unfolding terminate_flow ensure_not_terminated
  terminate_flow-closes now db =
      let f = λ (c : NodeConfig). record c { status = FlowStatus.terminated; terminated = true } in
      ground (
        arith,
        close_order_nodes OrderStatus.terminated none now (write_node tenant agent meta f db),
        meta_config-write_node tenant agent f db,
      )

  -- `start_flow` opens the gate again, whatever the flow was before.
  pub start_flow-opens :
      (db : Db)
      → let db' = (start_flow tenant agent db).1 in
        ensure_not_terminated tenant agent db' ≡ (ok tt, db')
  unfolding start_flow ensure_not_terminated get_flow_config
  start_flow-opens db = ground (
    arith,
    meta_config-ensure tenant agent (reset_flow_state tenant agent db),
    meta_config-reset tenant agent db,
  )

  -- So does every change of stage to anything but "terminated", also on a terminated flow.
  pub save_flow_status-opens :
      (status : FlowStatus) (now : ℕ) (db : Db)
      → is_terminated status ≡ false
      → let db' = save_flow_status tenant agent status now db in
        ensure_not_terminated tenant agent db' ≡ (ok tt, db')
  unfolding save_flow_status ensure_not_terminated
  save_flow_status-opens status now db h =
      let db' = write_node tenant agent meta (set_status status) db in
      let got = get_flow_config tenant agent db' in
      ground (
        arith,
        meta_config-write_node tenant agent (set_status status) db,
        close_order_nodes OrderStatus.done (some got.0) now got.1,
        meta_config-ensure tenant agent db',
      )
