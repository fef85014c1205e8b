-- ===== src/Config.antt =====
-- Versioned configuration and feature flags (app/configcenter/service.py). Values and the rules' text are
-- numbers; the rules of a flag are the record that the code reads from its JSON, and the hash of a user is
-- a parameter.
pub mod History
pub mod Rollout
mod Tests
use new_rag.Base.{
  ℕ, ◌+◌, ◌%◌, ◌==◌, ◌&&◌, leb, not, Bool, true, false, Option, none, some, List, [], ◌∷◌, ◌++◌,
  Ident, if◌then◌else◌, mem,
}
use new_rag.Base.Table.{select, latest, first, update}

pub record ConfigurationRow : Type 0 where
  pub tenant_id : Ident
  pub scope : Ident
  pub scope_id : Ident
  pub key : Ident
  pub value : Ident
  pub version : ℕ

-- What the columns of a configuration are chosen by.
pub record ConfigKey : Type 0 where
  pub tenant_id : Ident
  pub scope : Ident
  pub scope_id : Ident
  pub key : Ident

abbrev pub row_of : ConfigKey → ConfigurationRow → Bool
row_of k r =
    r.tenant_id == k.tenant_id && r.scope == k.scope && r.scope_id == k.scope_id && r.key == k.key

unfoldable pub next_version : ConfigKey → List ConfigurationRow → ℕ
next_version k rows = elim (latest (λ r. r.version) (select (row_of k) rows)) [
  | none ↦ 1
  | some r ↦ r.version + 1
]

abbrev pub new_row : ConfigKey → Ident → ℕ → ConfigurationRow
new_row k value version = record {
  tenant_id = k.tenant_id;
  scope = k.scope;
  scope_id = k.scope_id;
  key = k.key;
  value = value;
  version = version;
}

-- `set` answers with the new version.
unfoldable pub set : ConfigKey → Ident → List ConfigurationRow → ℕ × List ConfigurationRow
set k value rows = (next_version k rows, rows ++ new_row k value (next_version k rows) ∷ [])

abbrev pub view_of : ConfigurationRow → Ident × ℕ
view_of r = (r.value, r.version)

unfoldable pub get : ConfigKey → List ConfigurationRow → Option (Ident × ℕ)
get k rows = elim (latest (λ r. r.version) (select (row_of k) rows)) [
  | none ↦ none
  | some r ↦ some (view_of r)
]

unfoldable pub get_version : ConfigKey → ℕ → List ConfigurationRow → Option (Ident × ℕ)
get_version k version rows = elim (first (select (λ r. row_of k r && r.version == version) rows)) [
  | none ↦ none
  | some r ↦ some (view_of r)
]

-- The `rules` of a flag, with the defaults that the code reads.
pub record Rules : Type 0 where
  pub percentage : ℕ
  pub users : List Ident
  pub tenants : List Ident

pub record FeatureFlagRow : Type 0 where
  pub tenant_id : Ident
  pub key : Ident
  pub rules : Rules
  pub enabled : Bool
  pub version : ℕ

abbrev pub flag_of : Ident → Ident → FeatureFlagRow → Bool
flag_of tenant key r = r.tenant_id == tenant && r.key == key

unfoldable pub find_flag : Ident → Ident → List FeatureFlagRow → Option FeatureFlagRow
find_flag tenant key rows = first (select (flag_of tenant key) rows)

-- The attributes are written to the row that was found, which is the only one of its tenant and key.
unfoldable pub set_flag : Ident → Ident → Rules → Bool → List FeatureFlagRow → List FeatureFlagRow
set_flag tenant key rules enabled rows = elim (find_flag tenant key rows) [
  | none ↦
      let row : FeatureFlagRow = record {
        tenant_id = tenant;
        key = key;
        rules = rules;
        enabled = enabled;
        version = 1;
      } in
      rows ++ row ∷ []
  | some _ ↦
      update (flag_of tenant key)
        (λ r. record r { rules = rules; enabled = enabled; version = r.version + 1 }) rows
]

module _ (hash : Ident → ℕ) where
  abbrev pub bucket : Ident → ℕ
  bucket user = hash user % 100

  abbrev pub tenant_passes : Ident → Rules → Bool
  tenant_passes tenant rules = elim rules.tenants [ [] ↦ true | _ ∷ _ ↦ mem tenant rules.tenants ]

  unfoldable pub is_enabled : Ident → Ident → Option Ident → List FeatureFlagRow → Bool
  is_enabled tenant key user rows = elim (find_flag tenant key rows) [
    | none ↦ false
    | some row ↦ if not row.enabled then false else (elim user [
      | none ↦ tenant_passes tenant row.rules
      | some u ↦
          if mem u row.rules.users
          then true
          else if leb row.rules.percentage (bucket u)
          then false
          else tenant_passes tenant row.rules
    ])
  ]
