-- ===== src/Idempotency/Tests.antt =====
-- The deduplication at a concrete input: a counter that every request raises.
use new_rag.Base.{◌∷◌, Ident, ℕ, ◌+◌, ◌≡◌, refl, arith, true, false, some, []}
use new_rag.Base.Table.{first, select}
use new_rag.Idempotency.{Method, Request, Response, is_write, idempotency_middleware}
use new_rag.Idempotency.Once.{serve_all, middleware-once}

abbrev counts : Request → ℕ → Response × ℕ
counts r n =
    (record { status_code = 200; body = n + 2; is_stream = false; is_replayed = false }, n + 1)

abbrev order : Request
order = record { method = Method.post; idem_key = some 7; path = 1; body = 2 }

abbrev other_order : Request
other_order = record order { path = 3 }

-- Texts in UTF-8.
abbrev same : Ident → Ident
same body = body

-- A request under another key.
abbrev other : Request
other = record order { idem_key = some 8 }

middleware-once_example :
    let (response, s) = idempotency_middleware same same counts 100 order ([], 0) in
    (response ≡ (counts order 0).0)
    × (s.1 ≡ 1)
    × (idempotency_middleware same same counts 500 other_order
          (serve_all same same counts ((200, other) ∷ []) s)
        ≡ (
          record {
            status_code = response.status_code;
            body = response.body;
            is_stream = false;
            is_replayed = true;
          },
          serve_all same same counts ((200, other) ∷ []) s,
        ))
unfolding is_write first select
middleware-once_example =
    middleware-once same same counts 100 500 order other_order ((200, other) ∷ []) 7 [] 0 refl refl
      refl refl refl (ground arith) refl (λ e. absurd (omega (arith, e))) refl (omega arith, tt)
      (ground arith)
