-- ===== src/Evaluation/Cases/Keys.antt =====
-- The cases of an evaluation are found by tenant, kind and query (app/evaluation/service.py).
use mathlib.Core.Path.{subst}
use new_rag.Base.{
  ℕ, suc, ◌<◌, ◌≢◌, ◌≡◌, ◌==◌, ◌&&◌, Bool, true, none, some, [], ◌∷◌, ◌++◌, Ident, if◌then◌else◌,
  All-mono, All-append, inl, inr, refl, sym, ap, ◌∙◌, arith, Option-cases, Bool-cases,
}
use new_rag.Base.Table.{select, first, first-select-hit}
use new_rag.Base.Keys.{Distinct-snoc, first-select-key}
use new_rag.Evaluation.Text.{Text, eq_text, eq_text-true, eq_text_ap}
use new_rag.Evaluation.Cases.{
  EvaluationDatasetRow, EvaluationCaseRow, Evaluations, NewCase, dataset_of, find_dataset,
  ensure_dataset, add_case, new_case, case_of, find_case,
}
use new_rag.Evaluation.Cases.Sound.{
  IsSound, first-snoc, first-select-All, dataset_key, ensure_dataset-found, ensure_dataset-IsSound,
  find_case-ensure_dataset,
}

-- Whether two keys are one.
abbrev pub same_key : Ident → Text → Text → Ident → Text → Text → Bool
same_key t k q t' k' q' = t == t' && eq_text k k' && eq_text q q'

module _ (now : ℕ) (t : Ident) (c : NewCase) (s : Evaluations) (w : IsSound s) where
  -- The state before the row is added_case, and what `add_case` makes of it.
  abbrev pub based : Evaluations
  based = (ensure_dataset t c.kind [] s).1

  abbrev pub added_case : EvaluationCaseRow
  added_case = new_case now based.next_id (ensure_dataset t c.kind [] s).0 t c

  add_case-based :
      (add_case now t c s).1
      ≡ record based { cases = based.cases ++ added_case ∷ []; next_id = suc based.next_id }
  unfolding add_case
  add_case-based = refl

  pub add_case-IsSound : IsSound (add_case now t c s).1
  unfolding find_dataset
  add_case-IsSound =
      let b = ensure_dataset-IsSound t c.kind [] s w in
      let (d, found, id) = ensure_dataset-found t c.kind [] s in
      let old =
        first-select-All (λ d. d.id < based.next_id) (dataset_of t c.kind) based.datasets d
          b.datasets_old (ground (arith, found)) in
      subst IsSound (sym add_case-based) (record {
        datasets_differ = b.datasets_differ;
        datasets_old =
            All-mono (λ (d : EvaluationDatasetRow) (l : d.id < based.next_id). omega arith)
              based.datasets b.datasets_old;
        cases_differ =
            Distinct-snoc (λ (c : EvaluationCaseRow). c.id) based.cases added_case b.cases_differ
              b.cases_old;
        cases_old =
            All-append (λ (c : EvaluationCaseRow). c.id < suc based.next_id) based.cases
              (added_case ∷ [])
              (All-mono (λ (c : EvaluationCaseRow) (l : c.id < based.next_id). omega arith)
                based.cases b.cases_old)
              (omega arith, tt);
        owners_old =
            All-append (λ (c : EvaluationCaseRow). c.dataset_id < suc based.next_id) based.cases
              (added_case ∷ [])
              (All-mono (λ (c : EvaluationCaseRow) (l : c.dataset_id < based.next_id). omega arith)
                based.cases b.owners_old)
              (omega (arith, old, id), tt);
      })

  -- After `add_case`, the key of the case finds the old case or else the new one, and every other key what
  -- it found before.
  pub find_case-add_case :
      (t' : Ident) (k q : Text)
      → find_case t' k q (add_case now t c s).1 ≡ elim (find_case t' k q s) [
        | some x ↦ some x
        | none ↦ if same_key t c.kind c.query t' k q then some added_case else none
      ]
  unfolding find_case add_case find_dataset
  find_case-add_case t' k q =
      let kept = find_case-ensure_dataset t t' c.kind [] k q s w in
      let b = ensure_dataset-IsSound t c.kind [] s w in
      let (d, found, id) = ensure_dataset-found t c.kind [] s in
      elim (Bool-cases (t == t' && eq_text c.kind k)) [
        | inl h ↦
            let t=t' : t ≡ t' = ground (arith, h) in
            let k=k : c.kind ≡ k = eq_text-true c.kind k (ground (arith, h)) in
            let found' : find_dataset t' k based ≡ some d =
              subst (λ x. find_dataset t' x based ≡ some d) k=k
                (subst (λ x. find_dataset x c.kind based ≡ some d) t=t' found) in
            let new = first-snoc (case_of d.id q) based.cases added_case in
            ground (arith, h, kept, id, found', new)
        | inr h ↦ elim (Option-cases (find_dataset t' k based)) [
          | inl e ↦ ground (arith, h, kept, e)
          | inr (d', e) ↦
              let apart : d.id ≢ d'.id = λ x.
                let (t=t', k=k) = dataset_key t t' c.kind k based d d' b found e x in
                let kinds = eq_text_ap k=k in absurd (ground (arith, h, t=t', kinds)) in
              let new = first-snoc (case_of d'.id q) based.cases added_case in
              ground (arith, h, kept, id, e, new, apart)
        ]
      ]

-- The dataset of a case that a key finds.
pub find_case-dataset :
    (t : Ident) (k q : Text) (s : Evaluations) (e : EvaluationCaseRow)
    → find_case t k q s ≡ some e
    → (d : EvaluationDatasetRow) × (find_dataset t k s ≡ some d)
      × (first (select (case_of d.id q) s.cases) ≡ some e)
unfolding find_case
find_case-dataset t k q s e h = elim (Option-cases (find_dataset t k s)) [
  | inl n ↦ absurd (ground (arith, h, n))
  | inr (d, f) ↦ (d, f, ground (arith, h, f))
]

-- A case that two keys find is of one key.
pub case_key :
    (t t' : Ident) (k q k' q' : Text) (s : Evaluations) (e e' : EvaluationCaseRow)
    → IsSound s
    → find_case t k q s ≡ some e
    → find_case t' k' q' s ≡ some e'
    → e.id ≡ e'.id
    → same_key t k q t' k' q' ≡ true
case_key t t' k q k' q' s e e' w h h' same =
    let (d, f, hit) = find_case-dataset t k q s e h in
    let (d', f', hit') = find_case-dataset t' k' q' s e' h' in
    let e=e' : e ≡ e' =
      first-select-All (λ x. x.id ≡ e'.id → x ≡ e') (case_of d.id q) s.cases e
        (first-select-key (λ (c : EvaluationCaseRow). c.id) (case_of d'.id q') s.cases e'
          w.cases_differ hit')
        hit same in
    let of : case_of d.id q e ≡ true = first-select-hit (case_of d.id q) s.cases e hit in
    let of' : case_of d'.id q' e' ≡ true = first-select-hit (case_of d'.id q') s.cases e' hit' in
    let owner : e.dataset_id ≡ e'.dataset_id = ap (λ (x : EvaluationCaseRow). x.dataset_id) e=e' in
    let key = dataset_key t t' k k' s d d' w f f' (ground (arith, of, of', owner)) in
    let queries : q ≡ q' =
      sym (eq_text-true e.query q (ground (arith, of)))
      ∙ ap (λ (x : EvaluationCaseRow). x.query) e=e'
      ∙ eq_text-true e'.query q' (ground (arith, of')) in
    ground (arith, key.0, eq_text_ap key.1, eq_text_ap queries)

-- Keys that are the same find the same.
pub find_case-same :
    (t t' : Ident) (k q k' q' : Text) (s : Evaluations)
    → same_key t k q t' k' q' ≡ true
    → find_case t k q s ≡ find_case t' k' q' s
find_case-same t t' k q k' q' s h =
    let t=t' : t ≡ t' = ground (arith, h) in
    let k=k' : k ≡ k' = eq_text-true k k' (ground (arith, h)) in
    let q=q' : q ≡ q' = eq_text-true q q' (ground (arith, h)) in
    λ i. find_case (t=t' i) (k=k' i) (q=q' i) s
