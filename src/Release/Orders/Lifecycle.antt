-- ===== src/Release/Orders/Lifecycle.antt =====
-- The open order of an agent: at most one, opened and closed with the flow
-- (app/release/service.py).
use new_rag.Base.{
  is_some, ℕ, ◌≤◌, ◌<◌, ◌≡◌, refl, ap, true, false, ◌&&◌, Option, none, some, List, [], ◌∷◌, ◌++◌,
  arith, ◌==◌, Ident, length, All, All-mono, Option-cases, inl, inr, map, leb, ◌⊎◌,
}
use new_rag.Base.Table.{
  select, latest, latest-none, latest-ge, select-only, select-update_emptied, select-append,
  All-of-update, All-of-select,
}
use new_rag.Release.Model.{meta, NodeConfig, FlowView, OrderStatus, OrderRow, Db, is_open}
use new_rag.Release.Flow.{
  order_of, version_of, version_range, ensure_flow_nodes, get_flow_config, write_node,
  reset_flow_state, set_current_order_id,
}
use new_rag.Release.Orders.{
  open_of, find_open, next_order_no, new_order, ensure_open_order, close_order, close_row,
}

module _ (tenant agent : Ident) where
  -- At most one order of the agent is open.
  abbrev pub OneOpen : Db → Type 0
  OneOpen db = length (select (open_of tenant agent) db.orders) ≤ 1

  pub next_order_no-gt :
      (db : Db)
      → All
          (λ p. order_of tenant agent p ≡ true → p.order_no < next_order_no tenant agent db)
          db.orders
  unfolding next_order_no
  next_order_no-gt db =
      All-of-select (λ p. p.order_no < next_order_no tenant agent db) (order_of tenant agent)
        db.orders (go (Option-cases (latest (λ o. o.order_no) mine)))
    where
      mine : List OrderRow
      mine = select (order_of tenant agent) db.orders

      go :
          (latest (λ o. o.order_no) mine ≡ none)
            ⊎ ((o : OrderRow) × (latest (λ o. o.order_no) mine ≡ some o))
          → All (λ p. p.order_no < next_order_no tenant agent db) mine
      go (inl n) = rw (latest-none (λ o. o.order_no) mine n) tt
      go (inr (o, e)) =
          All-mono {P = λ p. p.order_no ≤ o.order_no}
            (λ p (l : p.order_no ≤ o.order_no). ground arith) mine
            (latest-ge (λ o. o.order_no) mine e)

  -- Closing leaves no open order.
  pub close_order-empties :
      (status : OrderStatus) (view : Option FlowView) (now : ℕ) (db : Db)
      → is_open status ≡ false
      → OneOpen db
      → select (open_of tenant agent) (close_order tenant agent status view now db).orders ≡ []
  unfolding close_order find_open
  close_order-empties status view now db closed one =
      elim (Option-cases (find_open tenant agent db)) [
        | inl n ↦
            ground
              (arith, latest-none (λ o. o.order_no) (select (open_of tenant agent) db.orders) n)
        | inr (o, e) ↦
            let hit = λ (p : OrderRow). order_of tenant agent p && p.order_no == o.order_no in
            let write =
              close_row status view
                (version_range (
                  map (λ r. r.version)
                    (select (λ r. version_of tenant agent r && leb o.created_at r.created_at)
                      db.versions)))
                now in
            rw (e, close_order)
              (select-update_emptied hit (open_of tenant agent) write (λ x h. ground arith)
                db.orders
                (All-mono {P = λ x. open_of tenant agent x ≡ true → x ≡ o}
                  (λ x h k. ground (arith, h k)) db.orders
                  (select-only (open_of tenant agent) (λ o. o.order_no) db.orders one e)))
      ]

  -- The flow nodes are apart from the orders.
  pub write_node-orders :
      (f : NodeConfig → NodeConfig) (db : Db)
      → (write_node tenant agent meta f db).orders ≡ db.orders
  unfolding write_node
  write_node-orders f db = ground arith

  pub ensure_flow_nodes-orders : (db : Db) → (ensure_flow_nodes tenant agent db).orders ≡ db.orders
  unfolding ensure_flow_nodes
  ensure_flow_nodes-orders db = ground arith

  pub reset_flow_state-orders : (db : Db) → (reset_flow_state tenant agent db).orders ≡ db.orders
  unfolding reset_flow_state
  reset_flow_state-orders db = ground (arith, ensure_flow_nodes-orders db)

  pub get_flow_config-orders : (db : Db) → (get_flow_config tenant agent db).1.orders ≡ db.orders
  unfolding get_flow_config
  get_flow_config-orders db = ground (arith, ensure_flow_nodes-orders db)

  select-new :
      (order_no : ℕ) (new_id created_by : Ident) (now : ℕ)
      → let o = new_order tenant agent order_no new_id created_by now in
        select (open_of tenant agent) (o ∷ []) ≡ o ∷ []
  unfolding select
  select-new order_no new_id created_by now = ground arith

  -- Where no order is open, `_ensure_open_order` opens the next one and no other.
  pub ensure_open_order-opens :
      (new_id created_by : Ident) (now : ℕ) (db : Db)
      → select (open_of tenant agent) db.orders ≡ []
      → let (o, db') = ensure_open_order tenant agent new_id created_by now db in
        (o ≡ new_order tenant agent (next_order_no tenant agent db) new_id created_by now)
        × (db'.orders ≡ db.orders ++ o ∷ [])
        × (select (open_of tenant agent) db'.orders ≡ o ∷ [])
  unfolding ensure_open_order find_open set_current_order_id
  ensure_open_order-opens new_id created_by now db e =
      let o = new_order tenant agent (next_order_no tenant agent db) new_id created_by now in
      let added : Db = record db { orders = db.orders ++ o ∷ [] } in
      ground (
        arith,
        ap (latest (λ o. o.order_no)) e,
        write_node-orders (λ c. record c { order_id = some new_id }) added,
        select-append (open_of tenant agent) db.orders (o ∷ []),
        select-new (next_order_no tenant agent db) new_id created_by now,
      )

  pub ensure_open_order-OneOpen :
      (new_id created_by : Ident) (now : ℕ) (db : Db)
      → OneOpen db
      → OneOpen (ensure_open_order tenant agent new_id created_by now db).1
  unfolding ensure_open_order find_open set_current_order_id
  ensure_open_order-OneOpen new_id created_by now db one =
      elim (Option-cases (find_open tenant agent db)) [
        | inl n ↦
            let e = latest-none (λ o. o.order_no) (select (open_of tenant agent) db.orders) n in
            rw ((ensure_open_order-opens new_id created_by now db e).2) (omega arith)
        | inr (o, e) ↦ ground (arith, write_node-orders (λ c. record c { order_id = some o.id }) db)
      ]

  -- What all orders have after a closing, and closing does not give, they had before it.
  pub close_order-All :
      (P : OrderRow → Type 0) (status : OrderStatus) (view : Option FlowView) (now : ℕ) (db : Db)
      → ((range : Option (ℕ × ℕ)) (o : OrderRow) → P (close_row status view range now o) → P o)
      → All P (close_order tenant agent status view now db).orders
      → All P db.orders
  unfolding close_order
  close_order-All P status view now db keep h = elim (Option-cases (find_open tenant agent db)) [
    | inl n ↦ rw (n, close_order) at h
    | inr (o, e) ↦
        let since =
          select (λ r. version_of tenant agent r && leb o.created_at r.created_at) db.versions in
        let range = version_range (map (λ r. r.version) since) in
        All-of-update P (λ p. order_of tenant agent p && p.order_no == o.order_no)
          (close_row status view range now) (keep range) db.orders (rw (e, close_order) at h)
  ]

  -- `_ensure_open_order` leaves an open order.
  pub ensure_open_order-is_some :
      (new_id created_by : Ident) (now : ℕ) (db : Db)
      → is_some (find_open tenant agent (ensure_open_order tenant agent new_id created_by now db).1)
        ≡ true
  ensure_open_order-is_some new_id created_by now db =
      elim (Option-cases (find_open tenant agent db)) [
        | inl n ↦
            let none_open =
              latest-none (λ o. o.order_no) (select (open_of tenant agent) db.orders)
                (unfold find_open in n) in
            unfold find_open in
            rw ((ensure_open_order-opens new_id created_by now db none_open).2)
              (unfold latest in refl)
        | inr (o, e) ↦
            unfold ensure_open_order find_open set_current_order_id in
            ground (arith, write_node-orders (λ c. record c { order_id = some o.id }) db)
      ]
