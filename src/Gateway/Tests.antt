-- ===== src/Gateway/Tests.antt =====
-- The theorems on the model gateway at concrete inputs.
use new_rag.Gateway.Pool.{ProviderHealth, ProviderEntry}
use new_rag.Base.{
  length, leb, err, ℕ, ◌≡◌, ◌≤◌, refl, arith, none, List, [], ◌∷◌, ◌+◌, ◌==◌, if◌then◌else◌, ok,
  Result, model_error, Ident,
}
use new_rag.Gateway.Breaker.{closed, opened, new, allow, record_call}
use new_rag.Gateway.Breaker.Trips.{fail_all, fail_all-new}
use new_rag.Gateway.Limiter.{new_limiter, pop_old, acquire}
use new_rag.Gateway.Limiter.Window.{IsClock, end_of, in_window, granted, granted-bounded}
use new_rag.Gateway.Router.{ModelRouter}
use new_rag.Gateway.Complete.{
  ModelGateway, Clock, Keys, caught, acquire_tenant, try_model, complete_from, complete,
}
use new_rag.Gateway.Complete.Fallback.{Answers, complete-Answers}

abbrev failing : List ℕ
failing = 10 ∷ 12 ∷ 15 ∷ []

fail_all-new_example :
    (fail_all failing (new 3 60 30)).state ≡ (if leb 3 (length failing) then opened else closed)
fail_all-new_example =
    fail_all-new 3 60 30 10 failing (omega arith)
      ((omega arith, omega arith), ((omega arith, omega arith), ((omega arith, omega arith), tt)))

abbrev times : List ℕ
times = 1 ∷ 2 ∷ 3 ∷ 62 ∷ []

times-IsClock : IsClock 0 times
unfolding IsClock
times-IsClock = (omega arith, (omega arith, (omega arith, (omega arith, tt))))

granted-bounded_example : in_window 60 (end_of 0 times) (granted 5 times (new_limiter 2 60)).0 ≤ 2
granted-bounded_example = granted-bounded 2 60 0 5 times times-IsClock

abbrev router : ModelRouter
router = record { small_model = 3; medium_model = 2; large_model = 3; default_model = 4 }

-- A provider that serves one model.
abbrev provider : Ident → Result ℕ
provider m = if m == 2 then ok 77 else err model_error

abbrev keys : Keys
keys = record { global = λ m. m + 100; tenant = λ t m. t + m + 1000 }

abbrev clock : Ident → Clock
clock m = record { monotonic = 50; before = 50; after = 51 }

abbrev gateway : ModelGateway
gateway = record { breaker = new 5 60 30; limiter = new_limiter 1 60; health = [] }

completes : (complete provider keys clock none (3 ∷ 2 ∷ []) gateway).0 ≡ ok 77
unfolding complete complete_from try_model acquire_tenant acquire pop_old allow caught new
    record_call
completes = refl

complete-Answers_example :
    Answers provider keys clock
      (3 ∷ 2 ∷ [])
      gateway
      77
      (complete provider keys clock none (3 ∷ 2 ∷ []) gateway).1
complete-Answers_example = complete-Answers provider keys clock none (3 ∷ 2 ∷ []) gateway completes

abbrev calm : ProviderHealth
calm = record { window = 60; error_threshold = 300; unavailable_threshold = 900; calls = [] }

abbrev providers : List ProviderEntry
providers = record { provider = 1; health = calm } ∷ record { provider = 2; health = calm } ∷ []
