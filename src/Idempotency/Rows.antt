-- ===== src/Idempotency/Rows.antt =====
-- The rows of stored responses under writes and lookups (app/gateway/idempotency.py).
use new_rag.Base.{
  inl, inr, Option-cases, Bool-cases, ◌==◌, ◌&&◌, All-All, ap, ◌∙◌, ℕ, ◌+◌, ◌≡◌, ◌≤◌, not, refl,
  arith, Bool, true, false, none, some, List, [], ◌∷◌, ◌++◌, Ident,
}
use new_rag.Base.Table.{update, select-update_other, select, first}
use new_rag.Idempotency.{
  Method, IdempotencyRow, has_key, method_text, ttl, ttl_expired, get_cached, store,
}

-- Rows that a filter keeps stay the first hits of another, where the hit is kept.
first-select-kept :
    (p q : IdempotencyRow → Bool) (rows : List IdempotencyRow) (r : IdempotencyRow)
    → first (select p rows) ≡ none
    → p r ≡ true
    → q r ≡ true
    → first (select p (select q (rows ++ r ∷ []))) ≡ some r
unfolding first select
first-select-kept p q [] r h k l = ground (arith, k, l)
first-select-kept p q (x ∷ rows) r h k l = ground (arith, h, k, l, first-select-kept p q rows r)

pub get_cached-none :
    (now : ℕ) (m : Method) (key : Ident) (rows : List IdempotencyRow)
    → first (select (has_key m key) rows) ≡ none
    → get_cached now m key rows ≡ none
unfolding get_cached
get_cached-none now m key rows h = rw (get_cached, h) refl

first-select-stays :
    (p q : IdempotencyRow → Bool) (rows : List IdempotencyRow) (r : IdempotencyRow)
    → first (select p rows) ≡ some r
    → q r ≡ true
    → first (select p (select q rows)) ≡ some r
unfolding first select
first-select-stays p q [] r h k = ground (arith, h)
first-select-stays p q (x ∷ rows) r h k = elim (Bool-cases (p x)) [
  | inl e ↦ ground (arith, h, k, e)
  | inr e ↦ ground (arith, h, k, e, first-select-stays p q rows r)
]

first-select-append :
    (p : IdempotencyRow → Bool) (rows more : List IdempotencyRow) (r : IdempotencyRow)
    → first (select p rows) ≡ some r
    → first (select p (rows ++ more)) ≡ some r
unfolding first select
first-select-append p [] more r h = absurd (ground (arith, h))
first-select-append p (x ∷ rows) more r h = elim (Bool-cases (p x)) [
  | inl e ↦ ground (arith, h, e)
  | inr e ↦ ground (arith, h, e, first-select-append p rows more r)
]

-- A write under another key, while a row is fresh, leaves the row.
pub store-other :
    (now : ℕ) (m m' : Method) (key key' : Ident) (status : ℕ) (body : Ident)
    (rows : List IdempotencyRow) (r : IdempotencyRow)
    → first (select (has_key m key) rows) ≡ some r
    → (method_text m' == method_text m && key' == key) ≡ false
    → now ≤ r.created_at + ttl
    → first (select (has_key m key) (store now m' key' status body rows)) ≡ some r
unfolding store
store-other now m m' key key' status body rows r h ne le =
    let fresh : not (ttl_expired now r) ≡ true = ground arith in
    let row : IdempotencyRow = record {
      method = method_text m';
      key = key';
      status_code = status;
      body = body;
      created_at = now;
    } in
    let written =
      update (has_key m' key') (λ x. record x { status_code = status; body = body }) rows in
    let appended =
      first-select-stays (has_key m key) (λ x. not (ttl_expired now x)) (rows ++ row ∷ []) r
        (first-select-append (has_key m key) rows (row ∷ []) r h) fresh in
    let same : select (has_key m key) written ≡ select (has_key m key) rows =
      select-update_other (has_key m' key') (has_key m key)
        (λ x. record x { status_code = status; body = body }) rows
        (All-All (λ x k. (ground arith, ground arith)) rows) in
    let updated =
      first-select-stays (has_key m key) (λ x. not (ttl_expired now x)) written r
        (ap first same ∙ h) fresh in
    elim (Option-cases (first (select (has_key m' key') rows))) [
      | inl n ↦ ground (arith, n, appended)
      | inr (x, e) ↦ ground (arith, e, updated)
    ]

pub get_cached-held :
    (now : ℕ) (m m' : Method) (key key' : Ident) (rows : List IdempotencyRow) (r : IdempotencyRow)
    → first (select (has_key m key) rows) ≡ some r
    → (method_text m' == method_text m && key' == key) ≡ true
    → now ≤ r.created_at + ttl
    → get_cached now m' key' rows ≡ some (r.status_code, r.body)
unfolding get_cached
get_cached-held now m m' key key' rows r h same le =
    let methods : method_text m' ≡ method_text m = ground arith in
    let keys : key' ≡ key = ground arith in
    let found : first (select (has_key m' key') rows) ≡ some r =
      (λ i. first (select (λ x. x.method == methods i && x.key == keys i) rows)) ∙ h in
    let fresh : ttl_expired now r ≡ false = ground arith in ground (arith, found, fresh)

pub store-first :
    (now : ℕ) (m : Method) (key : Ident) (status : ℕ) (body : Ident) (rows : List IdempotencyRow)
    → first (select (has_key m key) rows) ≡ none
    → first (select (has_key m key) (store now m key status body rows))
      ≡ some (record {
        method = method_text m;
        key = key;
        status_code = status;
        body = body;
        created_at = now;
      })
unfolding store
store-first now m key status body rows h =
    let row : IdempotencyRow = record {
      method = method_text m;
      key = key;
      status_code = status;
      body = body;
      created_at = now;
    } in
    let kept =
      first-select-kept (has_key m key) (λ r. not (ttl_expired now r)) rows row h (ground arith)
        (ground arith) in
    ground (arith, h, kept)
