-- ===== src/Idempotency/Once.antt =====
-- A request is carried out once (app/gateway/idempotency.py).
use mathlib.Core.Path.{subst}
use new_rag.Base.{
  inl, inr, Option-cases, Bool-cases, ◌==◌, ◌&&◌, ◌≢◌, All, ap, sym, ◌∙◌, ℕ, ◌+◌, ◌≡◌, ◌≤◌, ◌<◌,
  refl, arith, true, false, none, some, List, [], ◌∷◌, Ident,
}
use new_rag.Base.Table.{select, first}
use new_rag.Idempotency.{
  cached_text, empty_text, Method, Request, Response, IdempotencyRow, has_key, is_write,
  method_text, ttl, get_cached, store, idempotency_middleware,
}
use new_rag.Idempotency.Rows.{get_cached-none, store-other, get_cached-held, store-first}

module _ {W : Type 0} (decode encode : Ident → Ident) (call_next : Request → W → Response × W) where
  carried_out :
      (now : ℕ) (request : Request) (key : Ident) (rows : List IdempotencyRow) (w : W)
      → request.idem_key ≡ some key
      → is_write request.method ≡ true
      → get_cached now request.method key rows ≡ none
      → (call_next request w).0.status_code < 400
      → (call_next request w).0.is_stream ≡ false
      → idempotency_middleware decode encode call_next now request (rows, w) ≡ (
        (call_next request w).0,
        (
          store now request.method key
              (call_next request w).0.status_code
              (cached_text decode (call_next request w).0.body)
              rows,
          (call_next request w).1,
        ),
      )
  unfolding idempotency_middleware
  carried_out now request key rows w k write fresh success plain =
      ground (arith, k, write, fresh, success, plain)

  replayed :
      (now : ℕ) (request : Request) (key : Ident) (status : ℕ) (body : Ident)
      (rows : List IdempotencyRow) (w : W)
      → request.idem_key ≡ some key
      → is_write request.method ≡ true
      → get_cached now request.method key rows ≡ some (status, body)
      → idempotency_middleware decode encode call_next now request (rows, w) ≡ (
        record { status_code = status; body = encode body; is_stream = false; is_replayed = true },
        (rows, w),
      )
  unfolding idempotency_middleware
  replayed now request key status body rows w k write hit = ground (arith, k, write, hit)

  -- The table and the world after requests, each at its time.
  unfoldable pub serve_all : List (ℕ × Request) → List IdempotencyRow × W → List IdempotencyRow × W
  serve_all [] s = s
  serve_all ((t, request) ∷ rest) s =
      serve_all rest (idempotency_middleware decode encode call_next t request s).1

  serve-kept :
      (t : ℕ) (request : Request) (m : Method) (key : Ident) (rows : List IdempotencyRow) (w : W)
      (r : IdempotencyRow)
      → first (select (has_key m key) rows) ≡ some r
      → t ≤ r.created_at + ttl
      → first (
          select
            (has_key m key)
            (idempotency_middleware decode encode call_next t request (rows, w)).1.0)
        ≡ some r
  unfolding idempotency_middleware
  serve-kept t request m key rows w r h le = elim (Option-cases request.idem_key) [
    | inl n ↦ ground (arith, n, h)
    | inr (k, e) ↦
        let other =
          store-other t m request.method key k (call_next request w).0.status_code
            (cached_text decode (call_next request w).0.body) rows r h in
        elim (Bool-cases (method_text request.method == method_text m && k == key)) [
          | inl same ↦
              let hit = get_cached-held t m request.method key k rows r h same le in
              ground (arith, e, h, hit)
          | inr ne ↦ ground (arith, e, h, other ne le)
        ]
  ]

  served-kept :
      (cs : List (ℕ × Request)) (m : Method) (key : Ident) (s : List IdempotencyRow × W)
      (r : IdempotencyRow)
      → first (select (has_key m key) s.0) ≡ some r
      → All (λ c. c.0 ≤ r.created_at + ttl) cs
      → first (select (has_key m key) (serve_all cs s).0) ≡ some r
  unfolding serve_all
  served-kept [] m key s r h le = h
  served-kept ((t, request) ∷ cs) m key s r h le =
      served-kept cs m key (idempotency_middleware decode encode call_next t request s).1 r
        (serve-kept t request m key s.0 s.1 r h le.0) le.1

  -- A writing request whose key is new and that succeeds without a stream is answered as the
  -- application answers it and leaves the application's world. Where the body is text in UTF-8 that is
  -- not empty: after any other requests, a request with the same method and key, all of them within 24
  -- hours and whatever their paths and bodies, is answered with the same status and body, and leaves the
  -- table and the world as they are.
  pub middleware-once :
      (now later : ℕ) (first_request again : Request) (between : List (ℕ × Request)) (key : Ident)
      (rows : List IdempotencyRow) (w : W)
      → first_request.idem_key ≡ some key
      → again.idem_key ≡ some key
      → again.method ≡ first_request.method
      → is_write first_request.method ≡ true
      → first (select (has_key first_request.method key) rows) ≡ none
      → (call_next first_request w).0.status_code < 400
      → (call_next first_request w).0.is_stream ≡ false
      → decode (call_next first_request w).0.body ≢ empty_text
      → encode (decode (call_next first_request w).0.body) ≡ (call_next first_request w).0.body
      → All (λ c. c.0 ≤ now + ttl) between
      → later ≤ now + ttl
      → let (response, s) =
          idempotency_middleware decode encode call_next now first_request (rows, w) in
        (response ≡ (call_next first_request w).0)
        × (s.1 ≡ (call_next first_request w).1)
        × (idempotency_middleware decode encode call_next later again (serve_all between s) ≡ (
          record {
            status_code = response.status_code;
            body = response.body;
            is_stream = false;
            is_replayed = true;
          },
          serve_all between s,
        ))
  unfolding cached_text
  middleware-once now later first_request again between key rows w k k' m write fresh success plain
        text utf8 early le =
      let response = (call_next first_request w).0 in
      let body = cached_text decode response.body in
      let stored = store now first_request.method key response.status_code body rows in
      let out =
        carried_out now first_request key rows w k write
          (get_cached-none now first_request.method key rows fresh) success plain in
      let s : List IdempotencyRow × W = (stored, (call_next first_request w).1) in
      let end = serve_all between s in
      let r : IdempotencyRow = record {
        method = method_text first_request.method;
        key = key;
        status_code = response.status_code;
        body = body;
        created_at = now;
      } in
      let row = store-first now first_request.method key response.status_code body rows fresh in
      let held = served-kept between first_request.method key s r row early in
      let hit =
        get_cached-held later first_request.method again.method key key end.0 r held
          (ground (arith, ap method_text m)) le in
      let answered =
        replayed later again key response.status_code body end.0 end.1 k' (ap is_write m ∙ write)
          hit in
      let sent : encode body ≡ response.body = ground (arith, text, utf8) in
      subst
        (λ (p : Response × (List IdempotencyRow × W)).
          (p.0 ≡ response)
          × (p.1.1 ≡ (call_next first_request w).1)
          × (idempotency_middleware decode encode call_next later again (serve_all between p.1) ≡ (
            record {
              status_code = p.0.status_code;
              body = p.0.body;
              is_stream = false;
              is_replayed = true;
            },
            serve_all between p.1,
          )))
        (sym out)
        (
          refl,
          refl,
          answered ∙ (λ i. (
            record {
              status_code = response.status_code;
              body = sent i;
              is_stream = false;
              is_replayed = true;
            },
            end,
          )),
        )
