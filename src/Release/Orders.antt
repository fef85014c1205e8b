-- ===== src/Release/Orders.antt =====
-- The release orders of an agent and the changes of stage that open and close them
-- (app/release/service.py, `save_flow_status`, `terminate_flow`, `start_flow` and the part on
-- orders). A new row takes a fresh `new_id`; `now` is the clock.
pub mod Stage
pub mod Lifecycle
pub mod Calls
use new_rag.Base.{
  ℕ, ◌+◌, Bool, true, false, ◌&&◌, Option, none, some, List, [], ◌∷◌, ◌++◌, map, take, leb, ◌==◌,
  if◌then◌else◌, Ident, Action, ok, err, opt_eq, release_order_not_found,
}
use new_rag.Base.Table.{select, latest, first, update}
use new_rag.Base.Order.{order_desc}
use new_rag.Release.Model.{
  NodeConfig, meta, FlowView, FlowStatus, OrderStatus, open_order, OrderRow, HistoryRow, Db,
  is_open,
}
use new_rag.Release.Flow.{
  order_of, version_of, is_terminated, is_done, version_range, ensure_flow_nodes, reset_flow_state,
  get_flow_config, write_node, set_current_order_id, current_order_id,
}

abbrev pub close_row : OrderStatus → Option FlowView → Option (ℕ × ℕ) → ℕ → OrderRow → OrderRow
close_row status snapshot range now o = record o {
  status = status;
  ended_at = some now;
  snapshot = elim snapshot [ none ↦ o.snapshot | some v ↦ some v ];
  summary = elim range [ none ↦ o.summary | some r ↦ some r ];
}

abbrev pub set_status : FlowStatus → NodeConfig → NodeConfig
set_status status c = record c {
  status = status;
  terminated = if is_terminated status then c.terminated else false;
}

module _ (tenant agent : Ident) where
  abbrev pub open_of : OrderRow → Bool
  open_of o = order_of tenant agent o && is_open o.status

  -- The open order, the one with the greatest number if there were several.
  unfoldable pub find_open : Db → Option OrderRow
  unfolding latest select
  find_open db = latest (λ o. o.order_no) (select open_of db.orders)

  -- `(max(order_no) or 0) + 1`
  unfoldable pub next_order_no : Db → ℕ
  unfolding latest select
  next_order_no db = elim (latest (λ o. o.order_no) (select (order_of tenant agent) db.orders)) [
    | none ↦ 1
    | some o ↦ o.order_no + 1
  ]

  abbrev pub new_order : ℕ → Ident → Ident → ℕ → OrderRow
  new_order order_no new_id created_by now = record {
    id = new_id;
    tenant = tenant;
    agent = agent;
    order_no = order_no;
    status = open_order;
    created_by = created_by;
    summary = none;
    snapshot = none;
    created_at = now;
    ended_at = none;
  }

  -- `_ensure_open_order`
  unfoldable pub ensure_open_order : Ident → Ident → ℕ → Db → OrderRow × Db
  unfolding find_open next_order_no set_current_order_id
  ensure_open_order new_id created_by now db = elim (find_open db) [
    | some o ↦ (o, set_current_order_id tenant agent o.id db)
    | none ↦
        let o = new_order (next_order_no db) new_id created_by now in
        (o, set_current_order_id tenant agent o.id (record db { orders = db.orders ++ o ∷ [] }))
  ]

  -- `_close_order`: the order that is written is the one that was found, by its number.
  unfoldable pub close_order : OrderStatus → Option FlowView → ℕ → Db → Db
  unfolding find_open update select version_range
  close_order status snapshot now db = elim (find_open db) [
    | none ↦ db
    | some o ↦
        let since =
          select (λ r. version_of tenant agent r && leb o.created_at r.created_at) db.versions in
        record db {
          orders =
              update (λ p. order_of tenant agent p && p.order_no == o.order_no)
                (close_row status snapshot (version_range (map (λ r. r.version) since)) now)
                db.orders;
        }
  ]

  unfoldable pub save_flow_status : FlowStatus → ℕ → Db → Db
  unfolding write_node get_flow_config close_order
  save_flow_status status now db =
      let db₁ = write_node tenant agent meta (set_status status) db in
      let (view, db₂) = get_flow_config tenant agent db₁ in
      if is_done status then close_order OrderStatus.done (some view) now db₂ else db₁

  unfoldable pub terminate_flow : ℕ → Db → Db
  unfolding write_node close_order
  terminate_flow now db = close_order OrderStatus.terminated none now (
      write_node tenant agent meta
        (λ c. record c { status = FlowStatus.terminated; terminated = true }) db)

  unfoldable pub start_flow : Db → FlowView × Db
  unfolding reset_flow_state get_flow_config
  start_flow db = get_flow_config tenant agent (reset_flow_state tenant agent db)

  unfoldable pub create_order : Ident → Ident → ℕ → Db → (OrderRow × FlowView) × Db
  unfolding ensure_flow_nodes close_order reset_flow_state ensure_open_order get_flow_config
  create_order new_id created_by now db =
      let db₁ = close_order OrderStatus.terminated none now (ensure_flow_nodes tenant agent db) in
      let (o, db₂) = ensure_open_order new_id created_by now (reset_flow_state tenant agent db₁) in
      let (view, db₃) = get_flow_config tenant agent db₂ in ((o, view), db₃)

  unfoldable pub list_orders : Db → List OrderRow
  unfolding order_desc select
  list_orders db = order_desc (λ o. o.order_no) (select (order_of tenant agent) db.orders)

  abbrev history_of : Option Ident → HistoryRow → Bool
  history_of order_id r =
      r.tenant == tenant
      && r.agent == agent
      && elim order_id [ none ↦ true | some i ↦ opt_eq r.order_id i ]

  unfoldable pub add_flow_history : ℕ → Ident → Ident → Ident → Bool → Option Ident → ℕ → Db → Db
  unfolding current_order_id
  add_flow_history version step operator summary succeeded detail now db = record db {
    history =
        db.history
        ++ record {
          tenant = tenant;
          agent = agent;
          order_id = current_order_id tenant agent db;
          version = version;
          step = step;
          operator = operator;
          summary = summary;
          succeeded = succeeded;
          detail = detail;
          created_at = now;
        }
          ∷ [];
  }

  pub record OrderDetail : Type 0 where
    pub order : OrderRow
    pub records : List HistoryRow
    pub view : Option FlowView

  -- `get_order`: an open order shows the flow as it is, a closed one its snapshot.
  unfoldable pub get_order : Ident → Action Db OrderDetail
  unfolding first select order_desc get_flow_config
  get_order order_id db =
      elim (first (select (λ o. order_of tenant agent o && o.id == order_id) db.orders)) [
        | none ↦ (err release_order_not_found, db)
        | some o ↦
            let records =
              order_desc (λ r. r.created_at) (select (history_of (some order_id)) db.history) in
            let (view, db') = get_flow_config tenant agent db in
            if is_open o.status
            then (ok (record { order = o; records = records; view = some view }), db')
            else (ok (record { order = o; records = records; view = o.snapshot }), db)
      ]

  -- `list_flow_history`
  unfoldable pub list_flow_history : Option Ident → ℕ → Db → List HistoryRow
  unfolding select order_desc
  list_flow_history step limit db =
      let hit =
        λ (r : HistoryRow). history_of none r && elim step [ none ↦ true | some x ↦ r.step == x ] in
      take limit (order_desc (λ r. r.created_at) (select hit db.history))
