-- ===== src/Release/Resolve.antt =====
-- Which version serves a user (app/release/service.py, `resolve`). The hash of a user is a
-- parameter: the code takes an MD5 digest as a number.
pub mod Rollout
use new_rag.Base.{
  ℕ, ◌%◌, Bool, ◌&&◌, Option, none, some, ltb, Ident, Result, ok, err, agent_version_not_found,
}
use new_rag.Base.Table.{select, latest}
use new_rag.Base.Order.{order_desc, find}
use new_rag.Release.Model.{Status, active, gray, VersionRow, Db, is_active, is_gray}
use new_rag.Release.Flow.{version_of}

pub record Resolved : Type 0 where
  pub version : ℕ
  pub system_prompt : Ident
  pub model : Option Ident
  pub status : Status

-- `_gray_percentage`: the release key, else the legacy key of the config, else 0.
unfoldable pub gray_percentage : VersionRow → ℕ
gray_percentage r = elim r.release [
  | some p ↦ p
  | none ↦ elim r.config.gray_percentage [ some p ↦ p | none ↦ 0 ]
]

abbrev pub served : Status → VersionRow → Resolved
served status r = record {
  version = r.version;
  system_prompt = r.system_prompt;
  model = r.model;
  status = status;
}

-- Whether a gray version takes in the user.
abbrev pub takes_in : (Ident → ℕ) → Ident → VersionRow → Bool
takes_in stable_hash user r = ltb (stable_hash user % 100) (gray_percentage r)

module _ (tenant agent : Ident) where
  abbrev pub gray_of : VersionRow → Bool
  gray_of r = version_of tenant agent r && is_gray r.status

  abbrev pub active_of : VersionRow → Bool
  active_of r = version_of tenant agent r && is_active r.status

module _ (stable_hash : Ident → ℕ) (tenant agent : Ident) where
  unfoldable pub gray_hit : Option Ident → Db → Option VersionRow
  gray_hit none db = none
  gray_hit (some user) db =
      find (takes_in stable_hash user)
        (order_desc (λ r. r.version) (select (gray_of tenant agent) db.versions))

  unfoldable pub resolve : Option Ident → Db → Result Resolved
  resolve user db = elim (gray_hit user db) [
    | some r ↦ ok (served gray r)
    | none ↦ elim (latest (λ r. r.version) (select (active_of tenant agent) db.versions)) [
      | some r ↦ ok (served active r)
      | none ↦ err agent_version_not_found
    ]
  ]
