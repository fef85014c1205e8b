-- ===== src/Evaluation/Seed/Upsert.antt =====
-- `seed_cases` is the upsert of its items (app/evaluation/service.py).
use mathlib.Core.Path.{subst}
use mathlib.Core.Option
use new_rag.Base.{
  ◌⊎◌, ℕ, ◌<◌, ◌≢◌, ◌≡◌, ◌==◌, ◌&&◌, ◌∙◌, Bool, true, Option, none, some, List, [], ◌∷◌, Ident,
  if◌then◌else◌, refl, sym, ap, arith, inl, inr, Bool-cases, Option-cases, All,
}
use new_rag.Base.Table.{update, first-select-update_kept, All-update}
use new_rag.Base.Keys.{Distinct}
use new_rag.Evaluation.Text.{Text, truthy, or_else}
use new_rag.Evaluation.Spec.{
  Dict, CaseSpec, case_spec, build_spec, current_spec, eq_dict, keyword, case_spec-build_spec,
}
use new_rag.Evaluation.Cases.{
  EvaluationCaseRow, Evaluations, add_case, find_case, find_dataset, case_of,
}
use new_rag.Evaluation.Cases.Sound.{IsSound}
use new_rag.Evaluation.Cases.Keys.{
  same_key, case_key, find_case-same, find_case-add_case, add_case-IsSound,
}
use new_rag.Evaluation.Seed.{
  SeedItem, Seeded, item_query, item_kind, item_spec, item_case, write_spec, seed_item, seed_loop,
  seed_cases,
}
use new_rag.Evaluation.Seed.Skip.{skipped-kept}

-- The expectations that a key has.
unfoldable pub view : Ident → Text → Text → Evaluations → Option CaseSpec
view t k q s = Option.map (λ c. case_spec c.expected_json) (find_case t k q s)

Distinct-update :
    (p : EvaluationCaseRow → Bool) (f : EvaluationCaseRow → EvaluationCaseRow)
    → ((c : EvaluationCaseRow) → (f c).id ≡ c.id)
    → (xs : List EvaluationCaseRow) → Distinct (λ (c : EvaluationCaseRow). c.id) xs
    → Distinct (λ (c : EvaluationCaseRow). c.id) (update p f xs)
unfolding update
Distinct-update p f h [] d = tt
Distinct-update p f h (x ∷ xs) d =
    let same : (if p x then f x else x).id ≡ x.id = ground (arith, h x) in
    (
      subst (λ n. All (λ (c : EvaluationCaseRow). c.id ≢ n) (update p f xs)) (sym same)
          (All-update (λ (c : EvaluationCaseRow). c.id ≢ x.id) p f
            (λ c (n : c.id ≢ x.id) _. ground (arith, n, h c)) xs d.0),
      Distinct-update p f h xs d.1,
    )

write_spec-IsSound :
    (id : Ident) (d : Dict) (s : Evaluations) → IsSound s → IsSound (write_spec id d s)
unfolding write_spec
write_spec-IsSound id d s w =
    let p = λ (c : EvaluationCaseRow). c.id == id in
    let f = λ (c : EvaluationCaseRow). record c { expected_json = d } in
    record {
      datasets_differ = w.datasets_differ;
      datasets_old = w.datasets_old;
      cases_differ = Distinct-update p f (λ c. refl) s.cases w.cases_differ;
      cases_old =
          All-update (λ (c : EvaluationCaseRow). c.id < s.next_id) p f (λ c l _. l) s.cases
            w.cases_old;
      owners_old =
          All-update (λ (c : EvaluationCaseRow). c.dataset_id < s.next_id) p f (λ c l _. l) s.cases
            w.owners_old;
    }

find_case-write_spec :
    (id : Ident) (d : Dict) (t : Ident) (k q : Text) (s : Evaluations)
    → find_case t k q (write_spec id d s)
      ≡ Option.map
          (λ c. if c.id == id then record c { expected_json = d } else c)
          (find_case t k q s)
unfolding find_case write_spec find_dataset
find_case-write_spec id d t k q s = elim (Option-cases (find_dataset t k s)) [
  | inl n ↦ ground (arith, n)
  | inr (x, e) ↦
      let kept =
        first-select-update_kept (λ (c : EvaluationCaseRow). c.id == id) (case_of x.id q)
          (λ (c : EvaluationCaseRow). record c { expected_json = d }) (λ c. refl) s.cases in
      ground (arith, e, kept)
]

or_else_twice : (t : Text) → or_else (or_else t keyword) keyword ≡ or_else t keyword
or_else_twice [] = refl
or_else_twice (x ∷ t) = refl

stored : (i : SeedItem) → case_spec (build_spec (item_spec i)) ≡ item_spec i
stored i = case_spec-build_spec (item_spec i) ∙ λ j. record i.spec {
  judge_type = or_else_twice i.spec.judge_type j;
}

module _ (now : ℕ) (t : Ident) (i : SeedItem) (n : Seeded) (s : Evaluations) (w : IsSound s) where
  seed_item-IsSound : IsSound (seed_item now t i (n, s)).1
  unfolding seed_item
  seed_item-IsSound = elim (Option-cases (find_case t (item_kind i) (item_query i) s)) [
    | inl e ↦
        let eq : (seed_item now t i (n, s)).1 ≡ (add_case now t (item_case i) s).1 =
          ground (arith, e) in
        subst IsSound (sym eq) (add_case-IsSound now t (item_case i) s w)
    | inr (c, e) ↦
        elim (Bool-cases (eq_dict (current_spec c.expected_json) (build_spec (item_spec i)))) [
          | inl h ↦
              let eq : (seed_item now t i (n, s)).1 ≡ s = ground (arith, e, h) in
              subst IsSound (sym eq) w
          | inr h ↦
              let eq : (seed_item now t i (n, s)).1 ≡ write_spec c.id (build_spec (item_spec i)) s =
                ground (arith, e, h) in
              subst IsSound (sym eq) (write_spec-IsSound c.id (build_spec (item_spec i)) s w)
        ]
  ]

  -- An item sets the expectations of its key, and no other's.
  view-seed_item :
      (t' : Ident) (k q : Text)
      → view t' k q (seed_item now t i (n, s)).1 ≡ (
          if same_key t (item_kind i) (item_query i) t' k q
          then some (item_spec i)
          else view t' k q s)
  unfolding seed_item view
  view-seed_item t' k q = elim (Bool-cases (same_key t (item_kind i) (item_query i) t' k q)) [
    | inl m ↦
        let same = find_case-same t t' (item_kind i) (item_query i) k q s m in
        elim (Option-cases (find_case t (item_kind i) (item_query i) s)) [
          | inl e ↦
              let new = find_case-add_case now t (item_case i) s w t' k q in
              ground (arith, e, new, m, same, stored i)
          | inr (c, e) ↦
              elim (Bool-cases
                (eq_dict (current_spec c.expected_json) (build_spec (item_spec i)))) [
                  | inl h ↦
                      let kept = (skipped-kept c.expected_json (item_spec i) h).0 in
                      ground (arith, e, m, h, same, kept)
                  | inr h ↦
                      let new = find_case-write_spec c.id (build_spec (item_spec i)) t' k q s in
                      ground (arith, e, m, h, same, new, stored i)
                ]
        ]
    | inr m ↦ elim (Option-cases (find_case t (item_kind i) (item_query i) s)) [
      | inl e ↦
          let new = find_case-add_case now t (item_case i) s w t' k q in ground (arith, e, new, m)
      | inr (c, e) ↦
          elim (Bool-cases (eq_dict (current_spec c.expected_json) (build_spec (item_spec i)))) [
            | inl h ↦ ground (arith, e, m, h)
            | inr h ↦
                let new = find_case-write_spec c.id (build_spec (item_spec i)) t' k q s in
                elim (Option-cases (find_case t' k q s)) [
                  | inl e' ↦ ground (arith, e, m, h, new, e')
                  | inr (c', e') ↦
                      let apart : c.id ≢ c'.id = λ x.
                        let y = case_key t t' (item_kind i) (item_query i) k q s c c' w e e' x in
                        cc in
                      ground (arith, e, m, h, new, e', apart)
                ]
          ]
    ]
  ]

-- What the last item of a key asks for, and without one what was there.
unfoldable pub last_asked :
    Ident → List (Option SeedItem) → Ident → Text → Text → Option CaseSpec → Option CaseSpec
last_asked t [] t' k q v = v
last_asked t (none ∷ items) t' k q v = last_asked t items t' k q v
last_asked t (some i ∷ items) t' k q v = last_asked t items t' k q (
    if truthy (item_query i) && same_key t (item_kind i) (item_query i) t' k q
    then some (item_spec i)
    else v)

module _ (now : ℕ) (t t' : Ident) (k q : Text) where
  view-seed_loop :
      (items : List (Option SeedItem)) (n : Seeded) (s : Evaluations)
      → IsSound s
      → (view t' k q (seed_loop now t items (n, s)).1 ≡ last_asked t items t' k q (view t' k q s))
        × IsSound (seed_loop now t items (n, s)).1
  unfolding seed_loop last_asked
  view-seed_loop [] n s w = (refl, w)
  view-seed_loop (none ∷ items) n s w = view-seed_loop items n s w
  view-seed_loop (some i ∷ items) n s w = elim (Bool-cases (truthy (item_query i))) [
    | inl h ↦
        let r = seed_item now t i (n, s) in
        let run : seed_loop now t (some i ∷ items) (n, s) ≡ seed_loop now t items r =
          ap (λ b. seed_loop now t items (if b then r else (n, s))) h in
        let ih = view-seed_loop items r.0 r.1 (seed_item-IsSound now t i n s w) in
        (
          ap (λ x. view t' k q x.1) run
              ∙ ih.0
              ∙ ap (last_asked t items t' k q)
                  (view-seed_item now t i n s w t' k q ∙ sym (asked h)),
          subst (λ x. IsSound x.1) (sym run) ih.1,
        )
    | inr h ↦
        let run : seed_loop now t (some i ∷ items) (n, s) ≡ seed_loop now t items (n, s) =
          ap (λ b. seed_loop now t items (if b then seed_item now t i (n, s) else (n, s))) h in
        let ih = view-seed_loop items n s w in
        (
          ap (λ x. view t' k q x.1) run ∙ ih.0 ∙ ap (last_asked t items t' k q) (ground (arith, h)),
          subst (λ x. IsSound x.1) (sym run) ih.1,
        )
  ]
    where
      asked :
          truthy (item_query i) ≡ true
          → (if truthy (item_query i) && same_key t (item_kind i) (item_query i) t' k q
              then some (item_spec i)
              else view t' k q s)
            ≡ (if same_key t (item_kind i) (item_query i) t' k q
                then some (item_spec i)
                else view t' k q s)
      asked h = ground (arith, h)

  -- The items either ask for a key, whatever was there, or leave it.
  last_asked-cases :
      (items : List (Option SeedItem))
      → ((c : CaseSpec) × ((v : Option CaseSpec) → last_asked t items t' k q v ≡ some c))
        ⊎ ((v : Option CaseSpec) → last_asked t items t' k q v ≡ v)
  unfolding last_asked
  last_asked-cases [] = inr (λ v. refl)
  last_asked-cases (none ∷ items) = last_asked-cases items
  last_asked-cases (some i ∷ items) = elim (last_asked-cases items) [
    | inl (c, f) ↦ inl (c, λ v. f _)
    | inr f ↦
        elim (Bool-cases
          (truthy (item_query i) && same_key t (item_kind i) (item_query i) t' k q)) [
            | inl h ↦ inl (item_spec i, λ v. f _ ∙ ground (arith, h))
            | inr h ↦ inr (λ v. f _ ∙ ground (arith, h))
          ]
  ]

  -- Where ids are unique: after `seed_cases` every tenant, kind and query has the expectations of the
  -- last item that asks for them, and what it had before where no item does; seeding the same items
  -- again changes no expectations.
  pub seed_cases-upserts :
      (items : List (Option SeedItem)) (s : Evaluations)
      → IsSound s
      → (view t' k q (seed_cases now t items s).1 ≡ last_asked t items t' k q (view t' k q s))
        × (view t' k q (seed_cases now t items (seed_cases now t items s).1).1
            ≡ view t' k q (seed_cases now t items s).1)
  unfolding seed_cases
  seed_cases-upserts items s w =
      let zero_counts : Seeded = record { added = 0; updated = 0; skipped = 0 } in
      let once = view-seed_loop items zero_counts s w in
      let s' = (seed_cases now t items s).1 in
      let twice = view-seed_loop items zero_counts s' once.1 in
      let again : last_asked t items t' k q (view t' k q s') ≡ view t' k q s' =
        elim (last_asked-cases items) [
          | inl (c, f) ↦ f (view t' k q s') ∙ sym (f (view t' k q s)) ∙ sym once.0
          | inr f ↦ f (view t' k q s')
        ] in
      (once.0, twice.0 ∙ again)
