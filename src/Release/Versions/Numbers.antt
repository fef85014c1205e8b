-- ===== src/Release/Versions/Numbers.antt =====
-- The numbers of the versions of an agent (app/release/service.py): a new version has a number
-- above all others, and no two versions of an agent share one.
use new_rag.Base.{
  ℕ, ◌<◌, ◌≤◌, ◌≡◌, true, false, Option, none, some, List, [], ◌∷◌, ◌++◌, arith, if◌then◌else◌,
  Ident, ok, err, Code, All, All-mono, Bool-cases, Option-cases, inl, inr, ◌⊎◌, is_some,
  agent_not_found,
}
use new_rag.Base.Table.{select, latest, All-of-select, latest-ge, latest-none}
use new_rag.Release.Model.{Config, meta, NodeConfig, VersionRow, Db}
use new_rag.Release.Flow.{version_of, newest, write_node, reset_flow_state, flow_ended}
use new_rag.Release.Orders.{ensure_open_order, find_open}
use mathlib.Core.Path.{subst}
use new_rag.Release.Orders.Lifecycle.{ensure_open_order-is_some}
use new_rag.Release.Versions.{next_version, agent_exists, new_version, prepare_flow, create_version}

module _ (tenant agent : Ident) where
  -- The versions and agents are apart from the flow and the orders.
  write_node-versions :
      (f : NodeConfig → NodeConfig) (db : Db)
      → ((write_node tenant agent meta f db).versions ≡ db.versions)
        × ((write_node tenant agent meta f db).agents ≡ db.agents)
  unfolding write_node
  write_node-versions f db = ground arith

  ensure_open_order-versions :
      (new_id created_by : Ident) (now : ℕ) (db : Db)
      → let db' = (ensure_open_order tenant agent new_id created_by now db).1 in
        (db'.versions ≡ db.versions) × (db'.agents ≡ db.agents)
  unfolding ensure_open_order
  ensure_open_order-versions new_id created_by now db = ground (arith)

  reset_flow_state-versions :
      (db : Db)
      → ((reset_flow_state tenant agent db).versions ≡ db.versions)
        × ((reset_flow_state tenant agent db).agents ≡ db.agents)
  unfolding reset_flow_state
  reset_flow_state-versions db = ground arith

  pub prepare_flow-versions :
      (new_id created_by : Ident) (now : ℕ) (db : Db)
      → let db' = prepare_flow tenant agent new_id created_by now db in
        (db'.versions ≡ db.versions) × (db'.agents ≡ db.agents)
  unfolding prepare_flow
  prepare_flow-versions new_id created_by now db = elim (Bool-cases (flow_ended tenant agent db)) [
    | inl e ↦ ground (
      arith,
      reset_flow_state-versions db,
      ensure_open_order-versions new_id created_by now (reset_flow_state tenant agent db),
    )
    | inr e ↦ ground (arith, ensure_open_order-versions new_id created_by now db)
  ]

  pub next_version-gt :
      (db : Db)
      → All
          (λ r. version_of tenant agent r ≡ true → r.version < next_version tenant agent db)
          db.versions
  unfolding next_version newest
  next_version-gt db =
      All-of-select (λ r. r.version < next_version tenant agent db) (version_of tenant agent)
        db.versions (go (Option-cases (latest (λ r. r.version) mine)))
    where
      mine : List VersionRow
      mine = select (version_of tenant agent) db.versions

      go :
          (latest (λ r. r.version) mine ≡ none)
            ⊎ ((r : VersionRow) × (latest (λ r. r.version) mine ≡ some r))
          → All (λ r. r.version < next_version tenant agent db) mine
      go (inl n) = rw (latest-none (λ r. r.version) mine n) tt
      go (inr (r, e)) =
          All-mono {P = λ p. p.version ≤ r.version} (λ p (l : p.version ≤ r.version). ground arith)
            mine (latest-ge (λ r. r.version) mine e)

  -- A version that is created is appended as a DRAFT with the number that is returned, which is
  -- above the numbers of all versions of the agent; the other rows stay as they are.
  pub create_version-appends :
      (new_id order_id system_prompt : Ident) (model : Option Ident) (config : Option Config)
      (created_by : Ident) (now : ℕ) (db : Db) {v : ℕ}
      → (create_version tenant agent new_id order_id system_prompt model config created_by now db).0
        ≡ ok v
      → let db' =
          (create_version tenant agent new_id order_id system_prompt model config created_by now
            db).1 in
        (db'.versions
          ≡ db.versions ++ new_version tenant agent v new_id system_prompt model config now ∷ [])
        × All (λ r. version_of tenant agent r ≡ true → r.version < v) db.versions
  unfolding create_version
  create_version-appends new_id order_id system_prompt model config created_by now db {v} h =
      let db' = prepare_flow tenant agent order_id created_by now db in
      let same = prepare_flow-versions order_id created_by now db in
      let e : v ≡ next_version tenant agent db' = ground arith in
      (
        ground (arith),
        rw e (
            subst
              (λ rows.
                All
                  (λ r.
                    version_of tenant agent r ≡ true → r.version < next_version tenant agent db')
                  rows)
              same.0 (next_version-gt db')),
      )

  pub create_version-err :
      (new_id order_id system_prompt : Ident) (model : Option Ident) (config : Option Config)
      (created_by : Ident) (now : ℕ) (db : Db) {c : Code}
      → (create_version tenant agent new_id order_id system_prompt model config created_by now db).0
        ≡ err c
      → (create_version tenant agent new_id order_id system_prompt model config created_by now
          db).1.versions
        ≡ db.versions
  unfolding create_version
  create_version-err new_id order_id system_prompt model config created_by now db h =
      ground (arith, prepare_flow-versions order_id created_by now db)

  -- A call for an agent that does not exist raises AGENT_NOT_FOUND and creates no version, yet an
  -- order of that agent is open afterwards.
  pub create_version-unknown_agent :
      (new_id order_id system_prompt : Ident) (model : Option Ident) (config : Option Config)
      (created_by : Ident) (now : ℕ) (db : Db)
      → agent_exists tenant agent db ≡ false
      → let (r, db') =
          create_version tenant agent new_id order_id system_prompt model config created_by now
            db in
        (r ≡ err agent_not_found)
        × (db'.versions ≡ db.versions)
        × (is_some (find_open tenant agent db') ≡ true)
  unfolding create_version prepare_flow agent_exists
  create_version-unknown_agent new_id order_id system_prompt model config created_by now db h =
      let start = if flow_ended tenant agent db then reset_flow_state tenant agent db else db in
      ground (
        arith,
        prepare_flow-versions order_id created_by now db,
        ensure_open_order-is_some tenant agent order_id created_by now start,
      )
