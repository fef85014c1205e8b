-- ===== src/Base/Order.antt =====
-- Sorting by a key, as `ORDER BY key DESC` and Python's stable `sort(key=...)` do it, and the first
-- hit in a sorted list.
use Prim.Native.Nat.{ℕ, ◌≤◌}
use mathlib.Core.Path.{◌≡◌, refl}
use mathlib.Core.Logic.{◌↔◌, inl, inr}
use mathlib.Core.Bool.{◌||◌, ◌&&◌, Bool, true, false}
use mathlib.Core.List.{List, [], ◌∷◌}
use mathlib.Core.Option.{Option, none, some}
use native.Mathlib.Omega.{arith}
use new_rag.Base.Tests.{is_some, ltb, if◌then◌else◌, Bool-cases, Option-cases}
use new_rag.Base.Lists.{Exists, All, All-mono}
use new_rag.Base.Table.{update, select, latest}

module _ {ℓ} {A : Type ℓ} (key : A → ℕ) where
  unfoldable pub insert_desc : A → List A → List A
  insert_desc x [] = x ∷ []
  insert_desc x (y ∷ ys) = if ltb (key x) (key y) then y ∷ insert_desc x ys else x ∷ y ∷ ys

  -- `order_by(key.desc())`
  unfoldable pub order_desc : List A → List A
  unfolding insert_desc
  order_desc [] = []
  order_desc (x ∷ xs) = insert_desc x (order_desc xs)

  unfoldable pub insert_asc : A → List A → List A
  insert_asc x [] = x ∷ []
  insert_asc x (y ∷ ys) = if ltb (key y) (key x) then y ∷ insert_asc x ys else x ∷ y ∷ ys

  -- `xs.sort(key=key)`
  unfoldable pub sort_asc : List A → List A
  unfolding insert_asc
  sort_asc [] = []
  sort_asc (x ∷ xs) = insert_asc x (sort_asc xs)

-- The first element that passes a test, as a `for` loop that returns from its body finds it.
unfoldable pub find {ℓ} : {A : Type ℓ} → (A → Bool) → List A → Option A
find p [] = none
find p (x ∷ xs) = let rest = find p xs in if p x then some x else rest

module _ {ℓ} {A : Type ℓ} (key : A → ℕ) where
  abbrev IsDesc : List A → Type 0
  IsDesc [] = Unit
  IsDesc (x ∷ xs) = All (λ y. key y ≤ key x) xs × IsDesc xs

  insert_desc-All {κ} :
      (P : A → Type κ) (x : A) (ys : List A) → P x → All P ys → All P (insert_desc key x ys)
  unfolding insert_desc
  insert_desc-All P x [] px h = (px, tt)
  insert_desc-All P x (y ∷ ys) px h = ground (arith, insert_desc-All P x ys px h.1)

  find-All {κ} :
      (P : A → Type κ) (p : A → Bool) (xs : List A) (z : A) → All P xs → find p xs ≡ some z → P z
  unfolding find
  find-All P p [] z h e = cc
  find-All P p (x ∷ xs) z h e = ground (arith, find-All P p xs z h.1)

  insert_desc-IsDesc : (x : A) (ys : List A) → IsDesc ys → IsDesc (insert_desc key x ys)
  unfolding insert_desc
  insert_desc-IsDesc x [] h = (tt, tt)
  insert_desc-IsDesc x (y ∷ ys) h = elim (Bool-cases (ltb (key x) (key y))) [
    | inl lt ↦
        rw (lt, if◌then◌else◌)
          (
            insert_desc-All (λ z. key z ≤ key y) x ys (ground arith) h.0,
            insert_desc-IsDesc x ys h.1,
          )
    | inr ge ↦
        rw (ge, if◌then◌else◌)
          (
            (
              ground arith,
              All-mono {Q = λ z. key z ≤ key x} (λ z (l : key z ≤ key y). ground arith) ys h.0,
            ),
            h,
          )
  ]

  order_desc-IsDesc : (xs : List A) → IsDesc (order_desc key xs)
  unfolding order_desc
  order_desc-IsDesc [] = tt
  order_desc-IsDesc (x ∷ xs) = insert_desc-IsDesc x (order_desc key xs) (order_desc-IsDesc xs)

  abbrev prefer : A → Option A → Option A
  prefer x none = some x
  prefer x (some z) = if ltb (key x) (key z) then some z else some x

  find-insert_desc :
      (p : A → Bool) (x : A) (ys : List A)
      → IsDesc ys
      → find p (insert_desc key x ys) ≡ (if p x then prefer x (find p ys) else find p ys)
  unfolding insert_desc find
  find-insert_desc p x [] h = ground arith
  find-insert_desc p x (y ∷ ys) h = elim (Option-cases (find p ys)) [
    | inl n ↦ ground (arith, find-insert_desc p x ys h.1)
    | inr (z, e) ↦
        ground (arith, find-insert_desc p x ys h.1, find-All (λ w. key w ≤ key y) p ys z h.0 e)
  ]

  -- The first hit in descending order is a hit with the greatest key.
  pub find-order_desc :
      (p : A → Bool) (xs : List A) → find p (order_desc key xs) ≡ latest key (select p xs)
  unfolding order_desc find latest select
  find-order_desc p [] = refl
  find-order_desc p (x ∷ xs) =
      ground (
        arith,
        find-insert_desc p x (order_desc key xs) (order_desc-IsDesc xs),
        find-order_desc p xs,
      )

-- `any(p(x) for x in xs)`
abbrev pub any {ℓ} : {A : Type ℓ} → (A → Bool) → List A → Bool
any p [] = false
any p (x ∷ xs) = p x || any p xs

module _ {ℓ} {A : Type ℓ} (key : A → ℕ) where
  -- A filter has a latest row exactly if some row passes it.
  pub is_some-latest-select :
      (p : A → Bool) (xs : List A) → is_some (latest key (select p xs)) ≡ any p xs
  unfolding latest select
  is_some-latest-select p [] = refl
  is_some-latest-select p (x ∷ xs) = ground (arith, is_some-latest-select p xs)

module _ {ℓ} {A : Type ℓ} where
  pub any-select : (p q : A → Bool) (xs : List A) → any p (select q xs) ≡ any (λ x. q x && p x) xs
  unfolding select
  any-select p q [] = refl
  any-select p q (x ∷ xs) = ground (arith, any-select p q xs)

  -- A test that implies another on every row.
  pub any_mono :
      (p q : A → Bool) (xs : List A)
      → All (λ x. p x ≡ true → q x ≡ true) xs
      → any p xs ≡ true
      → any q xs ≡ true
  any_mono p q [] h e = cc
  any_mono p q (x ∷ xs) h e = ground (arith, h.0, any_mono p q xs h.1)

  pub any-update :
      (p w : A → Bool) (f : A → A) (xs : List A)
      → All (λ x. p x ≡ true → w x ≡ true → p (f x) ≡ true) xs
      → any p xs ≡ true
      → any p (update w f xs) ≡ true
  unfolding update
  any-update p w f [] h e = cc
  any-update p w f (x ∷ xs) h e = ground (arith, h.0, any-update p w f xs h.1)

  pub any-false : (p : A → Bool) (xs : List A) → All (λ x. p x ≡ false) xs → any p xs ≡ false
  any-false p [] h = refl
  any-false p (x ∷ xs) h = ground (arith, h.0, any-false p xs h.1)

-- A test on the elements, and the property that it decides.
pub any-Exists :
    {A : Type 0} {P : A → Type 0} {p : A → Bool}
    → ((x : A) → (p x ≡ true) ↔ P x)
    → (xs : List A) → (any p xs ≡ true) ↔ Exists P xs
any-Exists f [] = ((λ e. absurd (ground arith)), λ h. absurd h)
any-Exists {P = P} {p = p} f (x ∷ xs) =
    let rest = any-Exists {P = P} {p = p} f xs in
    (
      λ e. elim (Bool-cases (p x)) [
        | inl h ↦ inl ((f x).0 h)
        | inr n ↦ inr (rest.0 (ground arith))
      ],
      λ h. elim h [
        | inl l ↦ let now = (f x).1 l in ground arith
        | inr l ↦ let later = rest.1 l in ground arith
      ],
    )
