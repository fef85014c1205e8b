-- ===== src/Release/Flow/Gate.antt =====
-- The stage of a release flow under the writes to its `_meta` node, and the gate that a terminated
-- flow closes (app/release/service.py).
use new_rag.Base.{◌≡◌, refl, false, none, [], ◌∷◌, arith, Ident, Option-cases, inl, inr}
use new_rag.Base.Table.{
  select, first, first-select-update, first-select-append, select-append, select-none,
  first-select-update_kept, first-select-hit,
}
use new_rag.Release.Model.{meta, NodeConfig, no_config, NodeRow, Db}
use new_rag.Release.Flow.{
  same_code, node_of, meta_of, meta_config, ensure_flow_nodes, reset_row, reset_flow_state,
  write_node, node_row, seed_nodes,
}

module _ (tenant agent : Ident) where
  abbrev set_config : (NodeConfig → NodeConfig) → NodeRow → NodeRow
  set_config f r = record r { config = f r.config }

  -- A write to the `_meta` node, created if need be, changes the config that is read.
  pub meta_config-write_node :
      (f : NodeConfig → NodeConfig) (db : Db)
      → meta_config tenant agent (write_node tenant agent meta f db)
        ≡ f (meta_config tenant agent db)
  unfolding meta_config write_node same_code
  meta_config-write_node f db =
      elim (Option-cases (first (select (meta_of tenant agent) db.nodes))) [
        | inl n ↦ ground (
          arith,
          first-select-append (meta_of tenant agent) db.nodes
              (node_row tenant agent meta (f no_config)) n,
        )
        | inr (r, e) ↦
            ground
              (arith, first-select-update (meta_of tenant agent) (set_config f) (λ x h. h) db.nodes)
      ]

  select-seed :
      select (meta_of tenant agent) (seed_nodes tenant agent)
      ≡ node_row tenant agent meta no_config ∷ []
  unfolding select same_code
  select-seed = ground arith

  pub meta_config-ensure :
      (db : Db)
      → meta_config tenant agent (ensure_flow_nodes tenant agent db) ≡ meta_config tenant agent db
  unfolding meta_config ensure_flow_nodes
  meta_config-ensure db = elim (Option-cases (first (select (node_of tenant agent) db.nodes))) [
    | inl n ↦ ground (
      arith,
      select-none (node_of tenant agent) (meta_of tenant agent) (λ x h. ground arith) db.nodes n,
      select-append (meta_of tenant agent) db.nodes (seed_nodes tenant agent),
      select-seed,
    )
    | inr (r, e) ↦ ground arith
  ]

  pub meta_config-reset :
      (db : Db)
      → let cfg = meta_config tenant agent (reset_flow_state tenant agent db) in
        (cfg.terminated ≡ false) × (cfg.order_id ≡ none)
  unfolding reset_flow_state meta_config
  meta_config-reset db =
      let nodes = (ensure_flow_nodes tenant agent db).nodes in
      elim (Option-cases (first (select (meta_of tenant agent) nodes))) [
        | inl n ↦ ground (
          arith,
          first-select-update_kept (node_of tenant agent) (meta_of tenant agent) reset_row
              (λ x. refl) nodes,
        )
        | inr (r, e) ↦ ground (
          arith,
          first-select-hit (meta_of tenant agent) nodes r e,
          first-select-update_kept (node_of tenant agent) (meta_of tenant agent) reset_row
              (λ x. refl) nodes,
        )
      ]
