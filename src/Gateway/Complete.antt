-- ===== src/Gateway/Complete.antt =====
-- `ModelGateway.complete` (app/agent/model/gateway.py): the chain of models, the limiter, the breaker
-- and one call of the provider. The provider is a parameter, the gateway has no pool, and its
-- provider health, which this path writes and never reads, is the list of the outcomes recorded.
pub mod Fallback
use new_rag.Base.{
  ℕ, Bool, true, false, Option, none, some, List, [], ◌∷◌, ◌++◌, if◌then◌else◌, Ident, Code,
  model_error, model_timeout, model_rate_limit, model_unavailable, model_breaker_open, Result, ok,
  err,
}
use new_rag.Gateway.Breaker.{CircuitBreaker, allow, record_call}
use new_rag.Gateway.Limiter.{RateLimiter, acquire}

pub data HealthRecord : Type 0 where
  answered throttled failed : HealthRecord

pub record ModelGateway : Type 0 where
  pub breaker : CircuitBreaker
  pub limiter : RateLimiter
  pub health : List HealthRecord

-- How an exception is caught: `except ModelRateLimitError`, `except (ModelTimeoutError, ModelError)`,
-- or not at all.
pub data Caught : Type 0 where
  rate_limited model_failed uncaught : Caught

unfoldable pub caught : Code → Caught
caught model_rate_limit = rate_limited
caught model_error = model_failed
caught model_timeout = model_failed
caught model_unavailable = model_failed
caught model_breaker_open = model_failed
caught _ = uncaught

-- The two clocks that an attempt reads: `time.monotonic` in the limiter, `time.time` in the breaker
-- before and after the provider's call.
pub record Clock : Type 0 where
  pub monotonic : ℕ
  pub before : ℕ
  pub after : ℕ

-- The keys `llm:global:<model>` and `llm:tenant:<tenant>:<model>` of the limiter.
pub record Keys : Type 0 where
  pub global : Ident → Ident
  pub tenant : Ident → Ident → Ident

module _ {A : Type 0} (provider : Ident → Result A) (keys : Keys) (clock : Ident → Clock) where
  -- The tenant's limit, which is not asked without a tenant.
  unfoldable pub acquire_tenant : Option Ident → Ident → RateLimiter → Bool × RateLimiter
  acquire_tenant none m l = (true, l)
  acquire_tenant (some t) m l = acquire (clock m).monotonic (keys.tenant t m) l

  -- The body of the `try`, which raises or returns the provider's result.
  unfoldable pub try_model : Option Ident → Ident → ModelGateway → Result A × ModelGateway
  try_model tenant m g =
      let (passed, l) = acquire (clock m).monotonic (keys.global m) g.limiter in
      let (tenant_passed, l') = acquire_tenant tenant m l in
      let (allowed, b) = allow (clock m).before g.breaker in
      if passed
      then (if tenant_passed
          then (let g' = record g { limiter = l'; breaker = b } in
              if allowed
              then (elim (provider m) [
                | ok a ↦ (
                  ok a,
                  record g' {
                    breaker = record_call true (clock m).after b;
                    health = g.health ++ answered ∷ [];
                  },
                )
                | err c ↦ (err c, g')
              ])
              else (err model_breaker_open, g'))
          else (err model_rate_limit, record g { limiter = l' }))
      else (err model_rate_limit, record g { limiter = l })

  abbrev pub failure : HealthRecord → Ident → ModelGateway → ModelGateway
  failure h m g = record g {
    breaker = record_call false (clock m).after g.breaker;
    health = g.health ++ h ∷ [];
  }

  -- The loop over the chain; `last` is `last_exc`.
  unfoldable pub complete_from :
      Option Ident → List Ident → Code → ModelGateway → Result A × ModelGateway
  complete_from tenant [] last g = (err last, g)
  complete_from tenant (m ∷ ms) last g =
      let (r, g') = try_model tenant m g in
      elim r [
        | ok a ↦ (ok a, g')
        | err c ↦ elim (caught c) [
          | rate_limited ↦ (err c, failure throttled m g')
          | model_failed ↦ complete_from tenant ms c (failure failed m g')
          | uncaught ↦ (err c, g')
        ]
      ]

  unfoldable pub complete : Option Ident → List Ident → ModelGateway → Result A × ModelGateway
  complete tenant models g = complete_from tenant models model_error g
