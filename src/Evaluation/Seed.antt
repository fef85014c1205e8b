-- ===== src/Evaluation/Seed.antt =====
-- `seed_cases` (app/evaluation/service.py): the upsert of a list of cases by query and kind.
pub mod Skip
pub mod Upsert
use new_rag.Base.{ℕ, suc, ◌==◌, Option, none, some, List, [], ◌∷◌, Ident, if◌then◌else◌}
use new_rag.Base.Table.{update}
use new_rag.Evaluation.Text.{Text, truthy, or_else, strip, upper}
use new_rag.Evaluation.Spec.{Dict, CaseSpec, build_spec, current_spec, eq_dict, keyword}
use new_rag.Evaluation.Cases.{Evaluations, NewCase, badcases, add_case, find_case}

-- An item that is an object, a missing field being empty.
pub record SeedItem : Type 0 where
  pub query : Text
  pub kind : Text
  pub reason : Text
  pub category : Text
  pub spec : CaseSpec

pub record Seeded : Type 0 where
  pub added : ℕ
  pub updated : ℕ
  pub skipped : ℕ

abbrev pub item_query : SeedItem → Text
item_query i = strip i.query

abbrev pub item_kind : SeedItem → Text
item_kind i = upper (or_else i.kind badcases)

abbrev pub item_spec : SeedItem → CaseSpec
item_spec i = record i.spec { judge_type = or_else i.spec.judge_type keyword }

-- The case that is added for an item.
abbrev pub item_case : SeedItem → NewCase
item_case i = record {
  query = item_query i;
  kind = item_kind i;
  run_id = [];
  reason = i.reason;
  category = i.category;
  spec = item_spec i;
}

-- The write of a specification to the row of an id.
unfoldable pub write_spec : Ident → Dict → Evaluations → Evaluations
write_spec id spec s = record s {
  cases = update (λ c. c.id == id) (λ c. record c { expected_json = spec }) s.cases;
}

-- The body of the loop for an object with a query.
unfoldable pub seed_item : ℕ → Ident → SeedItem → Seeded × Evaluations → Seeded × Evaluations
seed_item now tenant_id i (n, s) =
    let spec = build_spec (item_spec i) in
    elim (find_case tenant_id (item_kind i) (item_query i) s) [
      | some existing ↦
          if eq_dict (current_spec existing.expected_json) spec
          then (record n { skipped = suc n.skipped }, s)
          else (record n { updated = suc n.updated }, write_spec existing.id spec s)
      | none ↦ (record n { added = suc n.added }, (add_case now tenant_id (item_case i) s).1)
    ]

-- The loop; `none` is an item that is no object.
unfoldable pub seed_loop :
    ℕ → Ident → List (Option SeedItem) → Seeded × Evaluations → Seeded × Evaluations
seed_loop now tenant_id [] r = r
seed_loop now tenant_id (none ∷ items) r = seed_loop now tenant_id items r
seed_loop now tenant_id (some i ∷ items) r =
    seed_loop now tenant_id items (if truthy (item_query i) then seed_item now tenant_id i r else r)

unfoldable pub seed_cases : ℕ → Ident → List (Option SeedItem) → Evaluations → Seeded × Evaluations
seed_cases now tenant_id items s =
    seed_loop now tenant_id items (record { added = 0; updated = 0; skipped = 0 }, s)
