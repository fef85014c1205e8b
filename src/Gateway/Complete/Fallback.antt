-- ===== src/Gateway/Complete/Fallback.antt =====
-- What one call of `ModelGateway.complete` does (app/agent/model/gateway.py).
use mathlib.Core.List.{append_assoc}
use new_rag.Base.{
  map, ap, ◌∙◌, ◌++◌, model_error, ◌⊎◌, ℕ, true, Option, List, [], ◌∷◌, ◌≡◌, refl, arith, Ident,
  Code, Result, Result-cases, ok, err, inl, inr,
}
use new_rag.Gateway.Breaker.{CircuitBreaker, closed, allow, record_call}
use new_rag.Gateway.Complete.{
  answered, uncaught, rate_limited, failed, model_failed, ModelGateway, Caught, caught, Clock, Keys,
  try_model, complete_from, complete, failure,
}

Caught-cases : (k : Caught) → (k ≡ model_failed) ⊎ (k ≡ rate_limited) ⊎ (k ≡ uncaught)
Caught-cases model_failed = inl refl
Caught-cases rate_limited = inr (inl refl)
Caught-cases uncaught = inr (inr refl)

-- A success closes the breaker that has let the call pass.
record_call-closes :
    (now later : ℕ) (b : CircuitBreaker)
    → (allow now b).0 ≡ true
    → let b' = record_call true later (allow now b).1 in (b'.state ≡ closed) × (b'.failures ≡ [])
unfolding allow record_call
record_call-closes now later b e = ground arith

module _ {A : Type 0} (provider : Ident → Result A) (keys : Keys) (clock : Ident → Clock) where
  try_model-ok :
      (tenant : Option Ident) (m : Ident) (g : ModelGateway) {a : A}
      → (try_model provider keys clock tenant m g).0 ≡ ok a
      → (provider m ≡ ok a)
        × ((try_model provider keys clock tenant m g).1.breaker.state ≡ closed)
        × ((try_model provider keys clock tenant m g).1.breaker.failures ≡ [])
        × ((try_model provider keys clock tenant m g).1.health ≡ g.health ++ answered ∷ [])
  unfolding try_model
  try_model-ok tenant m g {a} e = elim (Result-cases (provider m)) [
    | inl (x, p) ↦ ground (arith, record_call-closes (clock m).before (clock m).after g.breaker)
    | inr (c, p) ↦ ground (arith)
  ]

  try_model-err :
      (tenant : Option Ident) (m : Ident) (g : ModelGateway) {c : Code}
      → (try_model provider keys clock tenant m g).0 ≡ err c
      → (try_model provider keys clock tenant m g).1.health ≡ g.health
  unfolding try_model
  try_model-err tenant m g {c} e = elim (Result-cases (provider m)) [
    | inl (x, p) ↦ ground arith
    | inr (d, p) ↦ ground arith
  ]

  -- A chain's result: the provider's for a model, the models before which failed. The breaker is closed
  -- and remembers no failure, and the outcomes are recorded in the order of the chain.
  pub record Answers (models : List Ident) (g : ModelGateway) (a : A) (g' : ModelGateway)
      : Type 0 where
    pub before : List Ident
    pub model : Ident
    pub rest : List Ident
    pub in_chain : models ≡ before ++ model ∷ rest
    pub asked : provider model ≡ ok a
    pub closes : g'.breaker.state ≡ closed
    pub forgets : g'.breaker.failures ≡ []
    pub records : g'.health ≡ g.health ++ (map (λ _. failed) before ++ answered ∷ [])

  complete_from-Answers :
      (tenant : Option Ident) (models : List Ident) (last : Code) (g : ModelGateway) {a : A}
      → (complete_from provider keys clock tenant models last g).0 ≡ ok a
      → Answers models g a (complete_from provider keys clock tenant models last g).1
  unfolding complete_from
  complete_from-Answers tenant [] last g e = ground arith
  complete_from-Answers tenant (m ∷ ms) last g {a} e =
      let t = try_model provider keys clock tenant m g in
      elim (Result-cases t.0) [
        | inl (x, p) ↦
            let (asked, shut, forgot, health) = try_model-ok tenant m g p in
            let same : ok x ≡ ok a = rw (p, complete_from) at e in
            rw (p, complete_from)
              (record {
                before = [];
                model = m;
                rest = ms;
                in_chain = refl;
                asked = cc;
                closes = shut;
                forgets = forgot;
                records = health;
              })
        | inr (c, p) ↦ elim (Caught-cases (caught c)) [
          | inl k ↦
              let g' = failure provider keys clock failed m t.1 in
              let e' : (complete_from provider keys clock tenant ms c g').0 ≡ ok a =
                rw (p, complete_from, k) at e in
              let ih = complete_from-Answers tenant ms c g' e' in
              let kept = try_model-err tenant m g p in
              rw (p, complete_from, k)
                (record {
                  before = m ∷ ih.before;
                  model = ih.model;
                  rest = ih.rest;
                  in_chain = ap (λ l. m ∷ l) ih.in_chain;
                  asked = ih.asked;
                  closes = ih.closes;
                  forgets = ih.forgets;
                  records =
                      ih.records
                      ∙ append_assoc t.1.health (failed ∷ [])
                          (map (λ _. failed) ih.before ++ answered ∷ [])
                      ∙ ap (λ h. h ++ (failed ∷ (map (λ _. failed) ih.before ++ answered ∷ [])))
                          kept;
                })
          | inr (inl k) ↦ ground arith
          | inr (inr k) ↦ ground arith
        ]
      ]

  -- A call that returns a result returns the provider's for some model of the chain, all models before
  -- it having failed; afterwards the breaker is closed and remembers no failure, and the health has one
  -- failure for each of the models before it and then the answer, in this order.
  pub complete-Answers :
      (tenant : Option Ident) (models : List Ident) (g : ModelGateway) {a : A}
      → (complete provider keys clock tenant models g).0 ≡ ok a
      → Answers models g a (complete provider keys clock tenant models g).1
  unfolding complete
  complete-Answers tenant models g e = complete_from-Answers tenant models model_error g e
