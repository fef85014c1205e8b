-- ===== src/Config/Tests.antt =====
-- The theorems on configuration at concrete inputs.
use new_rag.Base.{◌≡◌, some, [], ◌∷◌, List}
use new_rag.Config.{ConfigurationRow, ConfigKey, Rules, set, get, get_version}
use new_rag.Config.History.{Write, set_all, set-get_version}

abbrev budget_key : ConfigKey
budget_key = record { tenant_id = 1; scope = 2; scope_id = 3; key = 4 }

abbrev other_key : ConfigKey
other_key = record budget_key { key = 5 }

abbrev stored : List ConfigurationRow
stored = (set budget_key 70 []).1

abbrev later : List Write
later = record { at = budget_key; value = 90 } ∷ record { at = other_key; value = 91 } ∷ []

set-get_version_example :
    (get budget_key (set budget_key 80 stored).1 ≡ some (80, (set budget_key 80 stored).0))
    × (get_version budget_key
          (set budget_key 80 stored).0
          (set_all later (set budget_key 80 stored).1)
        ≡ some (80, (set budget_key 80 stored).0))
set-get_version_example = set-get_version budget_key 80 later stored

abbrev half : Rules
half = record { percentage = 50; users = 8 ∷ []; tenants = [] }
