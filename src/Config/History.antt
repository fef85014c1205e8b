-- ===== src/Config/History.antt =====
-- Versions of a configuration are never lost (app/configcenter/service.py).
use new_rag.Base.{
  ℕ, ◌≡◌, ◌≤◌, ◌<◌, ◌==◌, ◌&&◌, refl, arith, true, none, some, List, [], ◌∷◌, ◌++◌, Ident, All,
  All-mono, Bool, Option-cases, inl, inr,
}
use new_rag.Base.Table.{
  first-select-append, select, latest, first, latest-ge, first-select-append, latest-none,
  select-snoc, All-of-select, latest-last,
}
use new_rag.Config.{
  ConfigurationRow, ConfigKey, row_of, new_row, next_version, set, get, get_version,
}

pub record Write : Type 0 where
  pub at : ConfigKey
  pub value : Ident

unfoldable pub set_all : List Write → List ConfigurationRow → List ConfigurationRow
set_all [] rows = rows
set_all (w ∷ ws) rows = set_all ws (set w.at w.value rows).1

-- The first hit stays when rows are added.
first-append :
    (p : ConfigurationRow → Bool) (xs ys : List ConfigurationRow) (r : ConfigurationRow)
    → first (select p xs) ≡ some r
    → first (select p (xs ++ ys)) ≡ some r
unfolding first select
first-append p [] ys r h = ground (arith, h)
first-append p (x ∷ xs) ys r h = ground (arith, h, first-append p xs ys r)

-- No row of the key has the next version or a later one.
next_version-above :
    (k : ConfigKey) (rows : List ConfigurationRow)
    → All (λ r. r.version < next_version k rows) (select (row_of k) rows)
unfolding next_version
next_version-above k rows = elim (Option-cases (latest (λ r. r.version) (select (row_of k) rows))) [
  | inl n ↦ rw (latest-none (λ (r : ConfigurationRow). r.version) (select (row_of k) rows) n) tt
  | inr (m, e) ↦
      All-mono (λ (r : ConfigurationRow) (l : r.version ≤ m.version). ground (arith, e))
        (select (row_of k) rows)
        (latest-ge (λ (r : ConfigurationRow). r.version) (select (row_of k) rows) e)
]

first-fresh :
    (p : ConfigurationRow → Bool) (n : ℕ) (rows : List ConfigurationRow)
    → All (λ r. p r ≡ true → r.version < n) rows
    → first (select (λ r. p r && r.version == n) rows) ≡ none
unfolding first select
first-fresh p n [] h = refl
first-fresh p n (r ∷ rows) h = ground (arith, h.0, first-fresh p n rows h.1)

row_of_self : (k : ConfigKey) (value : Ident) (n : ℕ) → row_of k (new_row k value n) ≡ true
row_of_self k value n = ground arith

get-set :
    (k : ConfigKey) (value : Ident) (rows : List ConfigurationRow)
    → get k (set k value rows).1 ≡ some (value, (set k value rows).0)
unfolding get set
get-set k value rows =
    let x = new_row k value (next_version k rows) in
    let split : select (row_of k) (rows ++ x ∷ []) ≡ select (row_of k) rows ++ x ∷ [] =
      select-snoc (row_of k) rows x (row_of_self k value (next_version k rows)) in
    let last =
      latest-last (λ (r : ConfigurationRow). r.version) (select (row_of k) rows) x
        (next_version-above k rows) in
    ground (arith, split, last)

get_version-now :
    (k : ConfigKey) (value : Ident) (rows : List ConfigurationRow)
    → get_version k (set k value rows).0 (set k value rows).1 ≡ some (value, (set k value rows).0)
unfolding get_version set
get_version-now k value rows =
    let n = next_version k rows in
    let x = new_row k value n in
    let fresh = first-fresh (row_of k) n rows (
      All-of-select (λ (r : ConfigurationRow). r.version < n) (row_of k) rows
        (next_version-above k rows)) in
    let hit = first-select-append (λ r. row_of k r && r.version == n) rows x fresh (ground arith) in
    ground (arith, hit)

-- The value of a version stays.
get_version-set_all :
    (k : ConfigKey) (version : ℕ) (ws : List Write) (v : Ident × ℕ) (rows : List ConfigurationRow)
    → get_version k version rows ≡ some v
    → get_version k version (set_all ws rows) ≡ some v
unfolding get_version set set_all
get_version-set_all k version [] v rows h = h
get_version-set_all k version (w ∷ ws) v rows h =
    get_version-set_all k version ws v (set w.at w.value rows).1
      (elim (Option-cases (first (select (λ r. row_of k r && r.version == version) rows))) [
        | inl n ↦ absurd (ground (arith, h, n))
        | inr (r, e) ↦
            let kept =
              first-append (λ r. row_of k r && r.version == version) rows
                (new_row w.at w.value (next_version w.at rows) ∷ []) r e in
            ground (arith, h, e, kept)
      ])

-- The value that a call of `set` writes is read by `get` right after it, and by `get_version` under the
-- version that the call returned, whatever calls of `set` follow.
pub set-get_version :
    (k : ConfigKey) (value : Ident) (ws : List Write) (rows : List ConfigurationRow)
    → (get k (set k value rows).1 ≡ some (value, (set k value rows).0))
      × (get_version k (set k value rows).0 (set_all ws (set k value rows).1)
          ≡ some (value, (set k value rows).0))
set-get_version k value ws rows = (
  get-set k value rows,
  get_version-set_all k (set k value rows).0 ws (value, (set k value rows).0) (set k value rows).1
      (get_version-now k value rows),
)
