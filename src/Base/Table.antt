-- ===== src/Base/Table.antt =====
-- Tables as lists of rows in the order of insertion, and what the services ask of SQLAlchemy:
-- a filtered select, a scalar under a descending order, and a write to the rows of a filter.
use Prim.Native.Nat.{ℕ, ◌≤◌, ◌<◌}
use mathlib.Core.Path.{◌≡◌, refl}
use mathlib.Core.Logic.{inl, inr}
use mathlib.Core.Bool.{Bool, true, false}
use mathlib.Core.List.{List, [], ◌∷◌, ◌++◌}
use mathlib.Core.Option
use mathlib.Core.Option.{Option, none, some}
use native.Mathlib.Omega.{arith}
use new_rag.Base.Tests.{ltb, if◌then◌else◌, Bool-cases, Option-cases}
use new_rag.Base.Lists.{All, All-mono, length}

module _ {ℓ} {A : Type ℓ} where
  -- `select(T).where(p)`
  unfoldable pub select : (A → Bool) → List A → List A
  select p [] = []
  select p (x ∷ xs) = let rest = select p xs in if p x then x ∷ rest else rest

  -- The scalar of `order_by(key.desc())`: a row with the greatest key, the first such.
  unfoldable pub latest : (A → ℕ) → List A → Option A
  latest key [] = none
  latest key (x ∷ xs) = elim (latest key xs) [
    | none ↦ some x
    | some y ↦ if ltb (key x) (key y) then some y else some x
  ]

  -- A scalar with no order: the first row.
  unfoldable pub first : List A → Option A
  first [] = none
  first (x ∷ _) = some x

  -- Writes to the attributes of every row that a filter selects.
  unfoldable pub update : (A → Bool) → (A → A) → List A → List A
  update p f [] = []
  update p f (x ∷ xs) = (if p x then f x else x) ∷ update p f xs

module _ {ℓ κ} {A : Type ℓ} (P : A → Type κ) where
  -- A row that `latest` returns has what all rows have.
  pub latest-All : (key : A → ℕ) (xs : List A) {y : A} → All P xs → latest key xs ≡ some y → P y
  unfolding latest
  latest-All key [] h e = cc
  latest-All key (x ∷ xs) h e = elim (Option-cases (latest key xs)) [
    | inl n ↦ ground (arith)
    | inr (z, s) ↦ ground (arith, latest-All key xs h.1 s)
  ]

  -- What every row has that passes the filter, the selected rows have.
  pub All-select :
      (p : A → Bool) (xs : List A) → All (λ x. p x ≡ true → P x) xs → All P (select p xs)
  unfolding select
  All-select p [] h = tt
  All-select p (x ∷ xs) h = elim (Bool-cases (p x)) [
    | inl e ↦ rw (e, if◌then◌else◌) (h.0 e, All-select p xs h.1)
    | inr e ↦ rw (e, if◌then◌else◌) (All-select p xs h.1)
  ]

  -- What all selected rows have, every row has that passes the filter.
  pub All-of-select :
      (p : A → Bool) (xs : List A) → All P (select p xs) → All (λ x. p x ≡ true → P x) xs
  unfolding select
  All-of-select p [] h = tt
  All-of-select p (x ∷ xs) h = elim (Bool-cases (p x)) [
    | inl e ↦
        let h' : P x × All P (select p xs) = rw (e, if◌then◌else◌) at h in
        (λ _. h'.0, All-of-select p xs h'.1)
    | inr e ↦
        let h' : All P (select p xs) = rw (e, if◌then◌else◌) at h in
        (λ e'. cc, All-of-select p xs h')
  ]

module _ {ℓ} {A : Type ℓ} where
  pub select-All : (p : A → Bool) (xs : List A) → All (λ x. p x ≡ true) (select p xs)
  unfolding select
  select-All p [] = tt
  select-All p (x ∷ xs) = ground (arith, select-All p xs)

  pub latest-none : (key : A → ℕ) (xs : List A) → latest key xs ≡ none → xs ≡ []
  unfolding latest
  latest-none key [] e = refl
  latest-none key (x ∷ xs) e = ground (arith)

  -- `latest` returns a row whose key no row exceeds.
  pub latest-ge :
      (key : A → ℕ) (xs : List A) {y : A} → latest key xs ≡ some y → All (λ x. key x ≤ key y) xs
  unfolding latest
  latest-ge key [] e = tt
  latest-ge key (x ∷ xs) {y} e = elim (Option-cases (latest key xs)) [
    | inl n ↦ (ground arith, rw (latest-none key xs n) tt)
    | inr (z, s) ↦ (
      ground (arith),
      All-mono {Q = λ x. key x ≤ key y} (λ w (l : key w ≤ key z). ground arith) xs
          (latest-ge key xs s),
    )
  ]

  -- A write outside of a filter's rows, before and after, leaves the filter's rows as they were.
  pub select-update_other :
      (p q : A → Bool) (f : A → A) (xs : List A)
      → All (λ x. p x ≡ true → (q x ≡ false) × (q (f x) ≡ false)) xs
      → select q (update p f xs) ≡ select q xs
  unfolding select update
  select-update_other p q f [] h = refl
  select-update_other p q f (x ∷ xs) h = ground (arith, h.0, select-update_other p q f xs h.1)

module _ {ℓ κ} {A : Type ℓ} (P : A → Type κ) where
  -- What a write gives the rows of its filter, and all other rows have, every row has afterwards.
  pub All-update :
      (p : A → Bool) (f : A → A)
      → ((x : A) → P x → p x ≡ true → P (f x))
      → (xs : List A) → All P xs
      → All P (update p f xs)
  unfolding update
  All-update p f h [] a = tt
  All-update p f h (x ∷ xs) a = ground (arith, h x, All-update p f h xs a.1)

module _ {ℓ} {A : Type ℓ} where
  pub select-one : (p : A → Bool) (x : A) → select p (x ∷ []) ≡ (if p x then x ∷ [] else [])
  unfolding select
  select-one p x = refl

  -- A write that keeps rows in a filter changes the first row of the filter.
  pub first-select-update :
      (p : A → Bool) (f : A → A)
      → ((x : A) → p x ≡ true → p (f x) ≡ true)
      → (xs : List A) → first (select p (update p f xs)) ≡ Option.map f (first (select p xs))
  unfolding first select update
  first-select-update p f h [] = refl
  first-select-update p f h (x ∷ xs) = ground (arith, h x, first-select-update p f h xs)

  -- A row that is added to a table without hits is the first hit, if it is one.
  pub first-select-append :
      (p : A → Bool) (xs : List A) (y : A)
      → first (select p xs) ≡ none
      → p y ≡ true
      → first (select p (xs ++ y ∷ [])) ≡ some y
  unfolding first select
  first-select-append p [] y h e = ground arith
  first-select-append p (x ∷ xs) y h e = ground (arith, first-select-append p xs y)

  pub select-append :
      (p : A → Bool) (xs ys : List A) → select p (xs ++ ys) ≡ select p xs ++ select p ys
  unfolding select
  select-append p [] ys = refl
  select-append p (x ∷ xs) ys = ground (arith, select-append p xs ys)

module _ {ℓ} {A : Type ℓ} where
  -- A narrower filter has no hits where a wider one has none.
  pub select-none :
      (p q : A → Bool)
      → ((x : A) → q x ≡ true → p x ≡ true)
      → (xs : List A) → first (select p xs) ≡ none
      → select q xs ≡ []
  unfolding first select
  select-none p q h [] e = refl
  select-none p q h (x ∷ xs) e = ground (arith, h x, select-none p q h xs)

  -- The first hit of a filter that a write to other rows, or to some of its own, respects.
  pub first-select-update_kept :
      (p q : A → Bool) (f : A → A)
      → ((x : A) → q (f x) ≡ q x)
      → (xs : List A)
      → first (select q (update p f xs))
        ≡ Option.map (λ x. if p x then f x else x) (first (select q xs))
  unfolding first select update
  first-select-update_kept p q f h [] = refl
  first-select-update_kept p q f h (x ∷ xs) =
      ground (arith, h x, first-select-update_kept p q f h xs)

  -- A hit of a filter passes it.
  pub first-select-hit :
      (p : A → Bool) (xs : List A) (x : A) → first (select p xs) ≡ some x → p x ≡ true
  unfolding first select
  first-select-hit p [] y e = cc
  first-select-hit p (x ∷ xs) y e = ground (arith, first-select-hit p xs y)

module _ {ℓ} {A : Type ℓ} where
  -- The only hit of a filter is the one that `latest` finds.
  pub select-only :
      (q : A → Bool) (key : A → ℕ) (xs : List A) {y : A}
      → length (select q xs) ≤ 1
      → latest key (select q xs) ≡ some y
      → All (λ x. q x ≡ true → x ≡ y) xs
  unfolding select latest
  select-only q key xs {y} le e = All-of-select (λ x. x ≡ y) q xs (go (select q xs) le e)
    where
      go : (l : List A) → length l ≤ 1 → latest key l ≡ some y → All (λ x. x ≡ y) l
      go [] le e = tt
      go (x ∷ []) le e = (ground arith, tt)
      go (x ∷ z ∷ l) le e = absurd (omega arith)

  -- A write that covers the hits of a filter, and takes them out of it, empties it.
  pub select-update_emptied :
      (p q : A → Bool) (f : A → A)
      → ((x : A) → p x ≡ true → q (f x) ≡ false)
      → (xs : List A) → All (λ x. q x ≡ true → p x ≡ true) xs
      → select q (update p f xs) ≡ []
  unfolding select update
  select-update_emptied p q f h [] a = refl
  select-update_emptied p q f h (x ∷ xs) a =
      ground (arith, h x, a.0, select-update_emptied p q f h xs a.1)

  -- What the rows have after a write, they had before it.
  pub All-of-update {κ} :
      (P : A → Type κ) (p : A → Bool) (f : A → A)
      → ((x : A) → P (f x) → P x)
      → (xs : List A) → All P (update p f xs)
      → All P xs
  unfolding update
  All-of-update P p f h [] a = tt
  All-of-update P p f h (x ∷ xs) a = (ground (arith, h x, a.0), All-of-update P p f h xs a.1)

  -- A row with a key above all others is the latest.
  pub latest-last :
      (key : A → ℕ) (xs : List A) (x : A)
      → All (λ y. key y < key x) xs
      → latest key (xs ++ x ∷ []) ≡ some x
  unfolding latest
  latest-last key [] x h = refl
  latest-last key (y ∷ xs) x h = ground (arith, h.0, latest-last key xs x h.1)

  -- A new row that passes a filter is its last hit.
  pub select-snoc :
      (p : A → Bool) (xs : List A) (x : A)
      → p x ≡ true
      → select p (xs ++ x ∷ []) ≡ select p xs ++ x ∷ []
  unfolding select
  select-snoc p [] x h = ground (arith, h)
  select-snoc p (y ∷ xs) x h = ground (arith, select-snoc p xs x h)
