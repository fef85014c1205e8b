-- ===== src/Release/Model.antt =====
-- The rows that the release service reads and writes (app/storage/models.py) and its state.
-- Timestamps are numbers of milliseconds, money is in millionths, texts that are only stored are
-- identifiers. JSON columns are records of the keys that the code reads, with the other keys as a
-- list or as one opaque value.
use new_rag.Base.{ℕ, Bool, false, true, Option, none, List, [], Ident, Code}

-- `AgentVersionRow.status`
pub data Status : Type 0 where
  draft active gray disabled : Status

abbrev pub is_active : Status → Bool
is_active active = true
is_active _ = false

abbrev pub is_gray : Status → Bool
is_gray gray = true
is_gray _ = false

-- `config_json` of a version: the key "tools", the legacy key "gray_percentage", and other keys.
pub record Config : Type 0 where
  pub tools : Option (List Ident)
  pub gray_percentage : Option ℕ
  pub others : List Ident

abbrev pub empty_config : Config
empty_config = record { tools = none; gray_percentage = none; others = [] }

pub record VersionRow : Type 0 where
  pub id : Ident
  pub tenant : Ident
  pub agent : Ident
  pub version : ℕ
  pub status : Status
  pub system_prompt : Ident
  pub model : Option Ident
  pub config : Config
  -- `release_json`, whose one key is "gray_percentage"
  pub release : Option ℕ
  pub created_at : ℕ

pub record AgentRow : Type 0 where
  pub id : Ident
  pub tenant : Ident

-- The columns of `AgentRunRow` that the checks read; `release_status` and `release_version` are
-- keys of `model_config`, and `error` is the code in `error_json`.
pub record RunRow : Type 0 where
  pub run_id : Ident
  pub tenant : Ident
  pub agent : Ident
  pub release_status : Option Status
  pub release_version : Option ℕ
  pub error : Option Code
  pub cost : ℕ
  pub started_at : ℕ
  pub finished_at : Option ℕ

pub record ToolCallRow : Type 0 where
  pub run_id : Ident
  pub tool_ref : Ident
  pub succeeded : Bool
  -- whether `data` in `result_json` is a list that is not empty
  pub has_data : Bool

-- An `EventRow`: whether its type is "feedback.bad", and its aggregate.
pub record FeedbackRow : Type 0 where
  pub is_bad : Bool
  pub aggregate_id : Ident

-- The stage of a flow: the `status` in the config of the `_meta` node. `blank` is a missing or
-- empty one, `other` one that the code does not name.
pub data FlowStatus : Type 0 where
  blank empty draft contract regression gray release done disabled terminated : FlowStatus
  other : Ident → FlowStatus

pub data NodeCode : Type 0 where
  draft contract regression gray release meta : NodeCode
  other : Ident → NodeCode

-- `config_json` of a node: the keys that are read from the `_meta` node, and all other keys.
pub record NodeConfig : Type 0 where
  pub status : FlowStatus
  pub terminated : Bool
  pub order_id : Option Ident
  pub body : Option Ident

-- `{}`
abbrev pub no_config : NodeConfig
no_config = record { status = blank; terminated = false; order_id = none; body = none }

pub record NodeRow : Type 0 where
  pub tenant : Ident
  pub agent : Ident
  pub code : NodeCode
  pub config : NodeConfig

pub data NodeStatus : Type 0 where
  wait process finish : NodeStatus

pub record NodeView : Type 0 where
  pub code : NodeCode
  pub config : NodeConfig
  pub status : NodeStatus

-- What `get_flow_config` returns.
pub record FlowView : Type 0 where
  pub status : FlowStatus
  pub terminated : Bool
  pub current_step : ℕ
  pub nodes : List NodeView

pub data OrderStatus : Type 0 where
  open_order done terminated : OrderStatus

abbrev pub is_open : OrderStatus → Bool
is_open open_order = true
is_open _ = false

pub record OrderRow : Type 0 where
  pub id : Ident
  pub tenant : Ident
  pub agent : Ident
  pub order_no : ℕ
  pub status : OrderStatus
  pub created_by : Ident
  -- the least and the greatest version of the summary "v1 → v2"
  pub summary : Option (ℕ × ℕ)
  pub snapshot : Option FlowView
  pub created_at : ℕ
  pub ended_at : Option ℕ

pub record HistoryRow : Type 0 where
  pub tenant : Ident
  pub agent : Ident
  pub order_id : Option Ident
  pub version : ℕ
  pub step : Ident
  pub operator : Ident
  pub summary : Ident
  pub succeeded : Bool
  pub detail : Option Ident
  pub created_at : ℕ

pub record Db : Type 0 where
  pub agents : List AgentRow
  pub versions : List VersionRow
  pub nodes : List NodeRow
  pub orders : List OrderRow
  pub history : List HistoryRow
  pub runs : List RunRow
  pub tool_calls : List ToolCallRow
  pub events : List FeedbackRow
