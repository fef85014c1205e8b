-- ===== src/Release/Flow.antt =====
-- The release flow of an agent: its nodes, its stage and its orders (app/release/service.py, from
-- `_ensure_flow_nodes` on). Every query names the tenant and the agent, the section's parameters.
pub mod Gate
use new_rag.Base.{
  ℕ, ◌+◌, Bool, true, false, ◌&&◌, not, Option, none, some, List, [], ◌∷◌, ◌++◌, ltb, ◌==◌,
  if◌then◌else◌, Ident, Action, gets, raise_if, ◌>>=◌, ◌>>◌, release_flow_terminated,
}
use mathlib.Core.Option
use new_rag.Base.Table.{select, latest, first, update}
use new_rag.Base.Order.{sort_asc}
use new_rag.Release.Model.{
  Status, VersionRow, NodeCode, meta, NodeConfig, no_config, NodeRow, NodeStatus, wait, process,
  finish, NodeView, FlowView, FlowStatus, OrderRow, Db,
}

-- Node codes as numbers, to compare them.
unfoldable pub code_key : NodeCode → ℕ
code_key NodeCode.draft = 0
code_key NodeCode.contract = 1
code_key NodeCode.regression = 2
code_key NodeCode.gray = 3
code_key NodeCode.release = 4
code_key meta = 5
code_key (NodeCode.other n) = 6 + n

unfoldable pub same_code : NodeCode → NodeCode → Bool
unfolding code_key
same_code a b = code_key a == code_key b

abbrev pub is_meta : NodeCode → Bool
is_meta code = same_code code meta

-- The stage that a version's status stands for.
unfoldable pub derived_status : Option Status → FlowStatus
derived_status none = FlowStatus.empty
derived_status (some Status.draft) = FlowStatus.draft
derived_status (some Status.gray) = FlowStatus.gray
derived_status (some Status.active) = FlowStatus.done
derived_status (some Status.disabled) = FlowStatus.disabled

-- `FLOW_NODES` in order, and 99 for a node that is not among them.
unfoldable pub node_order : NodeCode → ℕ
node_order NodeCode.draft = 0
node_order NodeCode.contract = 1
node_order NodeCode.regression = 2
node_order NodeCode.gray = 3
node_order NodeCode.release = 4
node_order _ = 99

-- `step_map`, with 0 for what it does not name.
unfoldable pub step_of : FlowStatus → ℕ
step_of FlowStatus.draft = 1
step_of FlowStatus.contract = 1
step_of FlowStatus.regression = 2
step_of FlowStatus.gray = 3
step_of FlowStatus.release = 4
step_of FlowStatus.done = 4
step_of FlowStatus.disabled = 4
step_of _ = 0

abbrev pub is_blank : FlowStatus → Bool
is_blank FlowStatus.blank = true
is_blank _ = false

abbrev pub is_done : FlowStatus → Bool
is_done FlowStatus.done = true
is_done _ = false

abbrev pub is_terminated : FlowStatus → Bool
is_terminated FlowStatus.terminated = true
is_terminated _ = false

abbrev pub is_ended : FlowStatus → Bool
is_ended FlowStatus.done = true
is_ended FlowStatus.disabled = true
is_ended _ = false

-- The status of the node at `idx`, by the stage of the flow.
unfoldable pub node_status : Bool → FlowStatus → ℕ → ℕ → NodeStatus
node_status terminated status current_step idx =
    if terminated
    then wait
    else if is_done status
    then finish
    else if ltb idx current_step
    then finish
    else if idx == current_step
    then process
    else wait

-- `for idx, n in enumerate(nodes)`
unfoldable pub view_nodes : (ℕ → NodeStatus) → ℕ → List NodeRow → List NodeView
view_nodes status idx [] = []
view_nodes status idx (n ∷ ns) =
    record { code = n.code; config = n.config; status = status idx }
    ∷ view_nodes status (idx + 1) ns

-- `min(versions), max(versions)`, if there are any.
unfoldable pub version_range : List ℕ → Option (ℕ × ℕ)
version_range [] = none
version_range (v ∷ vs) = elim (version_range vs) [
  | none ↦ some (v, v)
  | some (lo, hi) ↦ some (if ltb v lo then v else lo, if ltb hi v then v else hi)
]

abbrev pub reset_row : NodeRow → NodeRow
reset_row r = record r {
  config = if is_meta r.code then record no_config { status = FlowStatus.empty } else no_config;
}

module _ (tenant agent : Ident) where
  abbrev pub node_of : NodeRow → Bool
  node_of r = r.tenant == tenant && r.agent == agent

  abbrev pub meta_of : NodeRow → Bool
  meta_of r = node_of r && is_meta r.code

  abbrev pub version_of : VersionRow → Bool
  version_of r = r.tenant == tenant && r.agent == agent

  abbrev pub order_of : OrderRow → Bool
  order_of r = r.tenant == tenant && r.agent == agent

  -- The `_meta` row, unique by the constraint on (tenant, agent, node code).
  unfoldable pub find_meta : Db → Option NodeRow
  unfolding first select
  find_meta db = first (select meta_of db.nodes)

  -- The config of the `_meta` row, `{}` if there is no such row.
  unfoldable pub meta_config : Db → NodeConfig
  unfolding find_meta
  meta_config db = elim (find_meta db) [ none ↦ no_config | some r ↦ r.config ]

  unfoldable pub ensure_not_terminated : Action Db (Unit {0})
  ensure_not_terminated = do cfg ← gets meta_config; raise_if cfg.terminated release_flow_terminated

  abbrev pub node_row : NodeCode → NodeConfig → NodeRow
  node_row code config = record { tenant = tenant; agent = agent; code = code; config = config }

  -- The rows of `FLOW_NODES` and the `_meta` row.
  abbrev pub seed_nodes : List NodeRow
  seed_nodes =
      node_row NodeCode.draft no_config
      ∷ node_row NodeCode.contract no_config
      ∷ node_row NodeCode.regression no_config
      ∷ node_row NodeCode.gray no_config
      ∷ node_row NodeCode.release no_config
      ∷ node_row meta no_config
      ∷ []

  unfoldable pub ensure_flow_nodes : Db → Db
  unfolding first select
  ensure_flow_nodes db = elim (first (select node_of db.nodes)) [
    | some _ ↦ db
    | none ↦ record db { nodes = db.nodes ++ seed_nodes }
  ]

  -- The newest version of the agent.
  unfoldable pub newest : Db → Option VersionRow
  unfolding latest select
  newest db = latest (λ r. r.version) (select version_of db.versions)

  unfoldable pub flow_ended : Db → Bool
  unfolding meta_config newest derived_status
  flow_ended db =
      let cfg = meta_config db in
      if cfg.terminated
      then true
      else if is_blank cfg.status
      then is_ended (derived_status (Option.map (λ r. r.status) (newest db)))
      else is_ended cfg.status

  unfoldable pub reset_flow_state : Db → Db
  unfolding ensure_flow_nodes update
  reset_flow_state db =
      let db' = ensure_flow_nodes db in record db' { nodes = update node_of reset_row db'.nodes }

  -- The nodes in the order of `FLOW_NODES`, each with its status.
  unfoldable pub flow_view : Db → FlowView
  unfolding meta_config newest derived_status node_order step_of node_status view_nodes sort_asc
      select
  flow_view db =
      let cfg = meta_config db in
      let derived = derived_status (Option.map (λ r. r.status) (newest db)) in
      let stored = if is_blank cfg.status then derived else cfg.status in
      let status = if cfg.terminated then FlowStatus.terminated else stored in
      let step = step_of status in
      let plain = select (λ r. not (is_meta r.code)) (select node_of db.nodes) in
      record {
        status = status;
        terminated = cfg.terminated;
        current_step = step;
        nodes =
            view_nodes (node_status cfg.terminated status step) 0
              (sort_asc (λ r. node_order r.code) plain);
      }

  -- `get_flow_config`: the nodes are created first.
  unfoldable pub get_flow_config : Db → FlowView × Db
  unfolding flow_view ensure_flow_nodes
  get_flow_config db = let db' = ensure_flow_nodes db in (flow_view db', db')

  -- A write to the config of the row with a node code, which is created if there is none.
  unfoldable pub write_node : NodeCode → (NodeConfig → NodeConfig) → Db → Db
  unfolding first select update
  write_node code f db =
      let hit = λ (r : NodeRow). node_of r && same_code r.code code in
      elim (first (select hit db.nodes)) [
        | none ↦ record db { nodes = db.nodes ++ node_row code (f no_config) ∷ [] }
        | some _ ↦ record db { nodes = update hit (λ r. record r { config = f r.config }) db.nodes }
      ]

  unfoldable pub save_node_config : NodeCode → NodeConfig → Db → Db
  unfolding write_node
  save_node_config code config = write_node code (λ _. config)

  -- `_set_current_order_id`
  unfoldable pub set_current_order_id : Ident → Db → Db
  unfolding write_node
  set_current_order_id order_id = write_node meta (λ c. record c { order_id = some order_id })

  -- `_current_order_id`
  unfoldable pub current_order_id : Db → Option Ident
  current_order_id db = (meta_config db).order_id
