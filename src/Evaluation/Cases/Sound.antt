-- ===== src/Evaluation/Cases/Sound.antt =====
-- The datasets of an evaluation are found by tenant and kind, under unique ids (app/evaluation/service.py).
use mathlib.Core.Path.{subst}
use new_rag.Base.{
  suc, ◌<◌, ◌≡◌, Bool, true, false, none, some, List, [], ◌∷◌, ◌++◌, Ident, if◌then◌else◌, All,
  All-mono, All-append, inl, inr, refl, sym, ap, ◌∙◌, arith, Option-cases,
}
use new_rag.Base.Table.{select, first, first-select-hit}
use new_rag.Base.Keys.{Distinct, Distinct-snoc, first-select-key}
use new_rag.Evaluation.Text.{Text, eq_text, eq_text-true, eq_text_refl}
use new_rag.Evaluation.Cases.{
  EvaluationDatasetRow, EvaluationCaseRow, Evaluations, dataset_of, find_dataset, new_dataset,
  ensure_dataset, case_of, find_case,
}

module _ {A : Type 0} where
  -- The first hit among the rows and a new one.
  pub first-snoc :
      (p : A → Bool) (xs : List A) (y : A)
      → first (select p (xs ++ y ∷ []))
        ≡ elim (first (select p xs)) [ some x ↦ some x | none ↦ if p y then some y else none ]
  unfolding first select
  first-snoc p [] y = ground arith
  first-snoc p (x ∷ xs) y = ground (arith, first-snoc p xs y)

  pub first-select-All :
      (P : A → Type 0) (p : A → Bool) (xs : List A) (y : A)
      → All P xs
      → first (select p xs) ≡ some y
      → P y
  unfolding first select
  first-select-All P p [] y h e = cc
  first-select-All P p (x ∷ xs) y h e = ground (arith, h.0, first-select-All P p xs y h.1)

  pub first-select-none :
      (p : A → Bool) (xs : List A) → All (λ x. p x ≡ false) xs → first (select p xs) ≡ none
  unfolding first select
  first-select-none p [] h = refl
  first-select-none p (x ∷ xs) h = ground (arith, h.0, first-select-none p xs h.1)

-- Ids are unique and were taken from the counter.
pub record IsSound (s : Evaluations) : Type 0 where
  pub datasets_differ : Distinct (λ (d : EvaluationDatasetRow). d.id) s.datasets
  pub datasets_old : All (λ (d : EvaluationDatasetRow). d.id < s.next_id) s.datasets
  pub cases_differ : Distinct (λ (c : EvaluationCaseRow). c.id) s.cases
  pub cases_old : All (λ (c : EvaluationCaseRow). c.id < s.next_id) s.cases
  pub owners_old : All (λ (c : EvaluationCaseRow). c.dataset_id < s.next_id) s.cases

-- A dataset that two keys find is of one tenant and kind.
pub dataset_key :
    (t t' : Ident) (k k' : Text) (s : Evaluations) (d d' : EvaluationDatasetRow)
    → IsSound s
    → find_dataset t k s ≡ some d
    → find_dataset t' k' s ≡ some d'
    → d.id ≡ d'.id
    → (t ≡ t') × (k ≡ k')
unfolding find_dataset
dataset_key t t' k k' s d d' w e e' h =
    let same : d ≡ d' =
      first-select-All (λ x. x.id ≡ d'.id → x ≡ d') (dataset_of t k) s.datasets d
        (first-select-key (λ (d : EvaluationDatasetRow). d.id) (dataset_of t' k') s.datasets d'
          w.datasets_differ e')
        e h in
    let hit : dataset_of t k d ≡ true = first-select-hit (dataset_of t k) s.datasets d e in
    let hit' : dataset_of t' k' d' ≡ true = first-select-hit (dataset_of t' k') s.datasets d' e' in
    let kind : eq_text d.kind k ≡ true = ground (arith, hit) in
    let kind' : eq_text d'.kind k' ≡ true = ground (arith, hit') in
    (
      ground (arith, hit, hit', same),
      sym (eq_text-true d.kind k kind)
          ∙ ap (λ (d : EvaluationDatasetRow). d.kind) same
          ∙ eq_text-true d'.kind k' kind',
    )

pub ensure_dataset-found :
    (t : Ident) (k n : Text) (s : Evaluations)
    → (d : EvaluationDatasetRow) × (find_dataset t k (ensure_dataset t k n s).1 ≡ some d)
      × (d.id ≡ (ensure_dataset t k n s).0)
unfolding find_dataset ensure_dataset
ensure_dataset-found t k n s = elim (Option-cases (find_dataset t k s)) [
  | inl e ↦
      let d = new_dataset s.next_id t k n in
      let new = first-snoc (dataset_of t k) s.datasets d in
      (d, ground (arith, e, new, eq_text_refl k), ground (arith, e))
  | inr (d, e) ↦ (d, ground (arith, e), ground (arith, e))
]

pub ensure_dataset-IsSound :
    (t : Ident) (k n : Text) (s : Evaluations) → IsSound s → IsSound (ensure_dataset t k n s).1
unfolding ensure_dataset
ensure_dataset-IsSound t k n s w = elim (Option-cases (find_dataset t k s)) [
  | inl e ↦
      let eq : (ensure_dataset t k n s).1 ≡ record s {
        datasets = s.datasets ++ new_dataset s.next_id t k n ∷ [];
        next_id = suc s.next_id;
      } =
        ground (arith, e) in
      subst IsSound (sym eq) (record {
        datasets_differ =
            Distinct-snoc (λ (d : EvaluationDatasetRow). d.id) s.datasets
              (new_dataset s.next_id t k n) w.datasets_differ w.datasets_old;
        datasets_old =
            All-append (λ (d : EvaluationDatasetRow). d.id < suc s.next_id) s.datasets
              (new_dataset s.next_id t k n ∷ [])
              (All-mono (λ (d : EvaluationDatasetRow) (l : d.id < s.next_id). omega arith)
                s.datasets w.datasets_old)
              (omega arith, tt);
        cases_differ = w.cases_differ;
        cases_old =
            All-mono (λ (c : EvaluationCaseRow) (l : c.id < s.next_id). omega arith) s.cases
              w.cases_old;
        owners_old =
            All-mono (λ (c : EvaluationCaseRow) (l : c.dataset_id < s.next_id). omega arith) s.cases
              w.owners_old;
      })
  | inr (d, e) ↦
      let eq : (ensure_dataset t k n s).1 ≡ s = ground (arith, e) in subst IsSound (sym eq) w
]

-- A dataset that is made leaves every key with its case.
pub find_case-ensure_dataset :
    (t t' : Ident) (k n k' q : Text) (s : Evaluations)
    → IsSound s
    → find_case t' k' q (ensure_dataset t k n s).1 ≡ find_case t' k' q s
unfolding find_case ensure_dataset find_dataset
find_case-ensure_dataset t t' k n k' q s w = elim (Option-cases (find_dataset t k s)) [
  | inr (d, e) ↦ ground (arith, e)
  | inl e ↦
      let new = first-snoc (dataset_of t' k') s.datasets (new_dataset s.next_id t k n) in
      let fresh = first-select-none (case_of s.next_id q) s.cases (
        All-mono {Q = λ c. case_of s.next_id q c ≡ false}
          (λ (c : EvaluationCaseRow) (l : c.dataset_id < s.next_id). ground (arith, l)) s.cases
          w.owners_old) in
      ground (arith, e, new, fresh)
]
