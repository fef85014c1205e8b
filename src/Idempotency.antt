-- ===== src/Idempotency.antt =====
-- The deduplication of requests by an Idempotency-Key (app/gateway/idempotency.py). The rest of the
-- application is a parameter: a function from a request and its world to a response. A body is bytes:
-- `decode` is `decode("utf-8", errors="replace")`, and `encode` what the framework sends for a text.
-- Times are seconds.
pub mod Rows
pub mod Once
mod Tests
use new_rag.Base.{
  ℕ, ◌+◌, ◌==◌, ◌&&◌, ltb, not, Bool, true, false, Option, none, some, List, [], ◌∷◌, ◌++◌, Ident,
  if◌then◌else◌,
}
use new_rag.Base.Table.{select, first, update}

pub data Method : Type 0 where
  get post put patch delete : Method

unfoldable pub is_write : Method → Bool
is_write post = true
is_write put = true
is_write patch = true
is_write _ = false

pub record Request : Type 0 where
  pub method : Method
  pub idem_key : Option Ident
  pub path : Ident
  pub body : Ident

pub record Response : Type 0 where
  pub status_code : ℕ
  pub body : Ident
  pub is_stream : Bool
  pub is_replayed : Bool

-- The key of a row is the text of the method and of the header.
pub record IdempotencyRow : Type 0 where
  pub method : Ident
  pub key : Ident
  pub status_code : ℕ
  pub body : Ident
  pub created_at : ℕ

-- `_IDEM_TTL_S`
abbrev pub ttl : ℕ
ttl = 86400

unfoldable pub method_text : Method → Ident
method_text get = 0
method_text post = 1
method_text put = 2
method_text patch = 3
method_text delete = 4

abbrev pub has_key : Method → Ident → IdempotencyRow → Bool
has_key m key r = r.method == method_text m && r.key == key

-- `_ttl_expired`, and the rows that `_store` deletes.
abbrev pub ttl_expired : ℕ → IdempotencyRow → Bool
ttl_expired now r = ltb (r.created_at + ttl) now

unfoldable pub get_cached : ℕ → Method → Ident → List IdempotencyRow → Option (ℕ × Ident)
get_cached now m key rows = elim (first (select (has_key m key) rows)) [
  | none ↦ none
  | some r ↦ if ttl_expired now r then none else some (r.status_code, r.body)
]

unfoldable pub store : ℕ → Method → Ident → ℕ → Ident → List IdempotencyRow → List IdempotencyRow
store now m key status body rows =
    let row : IdempotencyRow = record {
      method = method_text m;
      key = key;
      status_code = status;
      body = body;
      created_at = now;
    } in
    let written : List IdempotencyRow = elim (first (select (has_key m key) rows)) [
      | none ↦ rows ++ row ∷ []
      | some _ ↦ update (has_key m key) (λ r. record r { status_code = status; body = body }) rows
    ] in
    select (λ r. not (ttl_expired now r)) written

-- The texts "" and "null".
abbrev pub empty_text : Ident
empty_text = 0

abbrev pub null_text : Ident
null_text = 1

-- `body_bytes.decode("utf-8", errors="replace") or "null"`
unfoldable pub cached_text : (Ident → Ident) → Ident → Ident
cached_text decode body = let t = decode body in if t == empty_text then null_text else t

module _ {W : Type 0} (decode encode : Ident → Ident) (call_next : Request → W → Response × W) where
  -- A request with a key, which was not answered from the table.
  abbrev pub run_and_store :
      ℕ → Request → Ident → List IdempotencyRow × W → Response × (List IdempotencyRow × W)
  run_and_store now request key (rows, w) =
      let (response, w') = call_next request w in
      if ltb response.status_code 400 && not response.is_stream
      then (
        response,
        (
          store now request.method key response.status_code (cached_text decode response.body) rows,
          w',
        ),
      )
      else (response, (rows, w'))

  unfoldable pub idempotency_middleware :
      ℕ → Request → List IdempotencyRow × W → Response × (List IdempotencyRow × W)
  idempotency_middleware now request (rows, w) = elim request.idem_key [
    | none ↦ let (response, w') = call_next request w in (response, (rows, w'))
    | some key ↦
        if not (is_write request.method)
        then (let (response, w') = call_next request w in (response, (rows, w')))
        else (elim (get_cached now request.method key rows) [
          | some (status, body) ↦
              let replayed : Response = record {
                status_code = status;
                body = encode body;
                is_stream = false;
                is_replayed = true;
              } in
              (replayed, (rows, w))
          | none ↦ run_and_store now request key (rows, w)
        ])
  ]
