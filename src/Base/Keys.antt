-- ===== src/Base/Keys.antt =====
-- Tables whose rows have distinct keys, as a unique constraint asks.
use Prim.Native.Nat.{ℕ, ◌<◌}
use mathlib.Core.Path.{◌≡◌, sym, ap, ◌∙◌}
use mathlib.Core.Logic.{inl, inr, ◌≢◌}
use mathlib.Core.Bool.{Bool, true}
use mathlib.Core.Option.{some}
use mathlib.Core.List.{List, [], ◌∷◌, ◌++◌}
use native.Mathlib.Omega.{arith}
use new_rag.Base.Tests.{if◌then◌else◌, Bool-cases}
use new_rag.Base.Lists.{All, All-mono}
use new_rag.Base.Table.{select, update, first}

module _ {ℓ} {A : Type ℓ} (key : A → ℕ) where
  -- No two rows have one key.
  abbrev pub Distinct : List A → Type 0
  Distinct [] = Unit
  Distinct (x ∷ xs) = All (λ y. key y ≢ key x) xs × Distinct xs

  Distinct-append-All :
      (k : ℕ) (xs : List A) (y : A)
      → All (λ z. key z ≢ k) xs
      → key y ≢ k
      → All (λ z. key z ≢ k) (xs ++ y ∷ [])
  Distinct-append-All k [] y h n = (n, tt)
  Distinct-append-All k (x ∷ xs) y h n = (h.0, Distinct-append-All k xs y h.1 n)

  -- A row with a key above all others can be added.
  pub Distinct-snoc :
      (xs : List A) (y : A) → Distinct xs → All (λ x. key x < key y) xs → Distinct (xs ++ y ∷ [])
  Distinct-snoc [] y d h = (tt, tt)
  Distinct-snoc (x ∷ xs) y d h =
      (Distinct-append-All (key x) xs y d.0 (omega arith), Distinct-snoc xs y d.1 h.1)

  ne-update :
      (p q : A → Bool) (f : A → A)
      → ((x : A) → (q (f x) ≡ q x) × (key (f x) ≡ key x))
      → (k : ℕ) (xs : List A) → All (λ z. key z ≢ k) (select q xs)
      → All (λ z. key z ≢ k) (select q (update p f xs))
  unfolding select update
  ne-update p q f h k [] a = tt
  ne-update p q f h k (x ∷ xs) a = elim (Bool-cases (q x)) [
    | inl e ↦
        let a' : All (λ z. key z ≢ k) (x ∷ select q xs) = rw (e, if◌then◌else◌) at a in
        ground (arith, h x, ne-update p q f h k xs a'.1)
    | inr e ↦
        let a' : All (λ z. key z ≢ k) (select q xs) = rw (e, if◌then◌else◌) at a in
        ground (arith, h x, ne-update p q f h k xs a')
  ]

  -- A write that keeps keys keeps them distinct.
  pub Distinct-select-update :
      (p q : A → Bool) (f : A → A)
      → ((x : A) → (q (f x) ≡ q x) × (key (f x) ≡ key x))
      → (xs : List A) → Distinct (select q xs)
      → Distinct (select q (update p f xs))
  unfolding select update
  Distinct-select-update p q f h [] d = tt
  Distinct-select-update p q f h (x ∷ xs) d = elim (Bool-cases (q x)) [
    | inl e ↦
        let d' : Distinct (x ∷ select q xs) = rw (e, if◌then◌else◌) at d in
        let y = if p x then f x else x in
        let hit : q y ≡ true = ground (arith, h x) in
        let same : key y ≡ key x = ground (arith, h x) in
        rw (hit, if◌then◌else◌)
          (rw same (ne-update p q f h (key x) xs d'.0), Distinct-select-update p q f h xs d'.1)
    | inr e ↦
        let d' : Distinct (select q xs) = rw (e, if◌then◌else◌) at d in
        ground (arith, h x, Distinct-select-update p q f h xs d')
  ]

  first-key-ne :
      (q : A → Bool) (xs : List A) (y x : A)
      → All (λ z. key z ≢ key x) xs
      → first (select q xs) ≡ some y
      → key x ≢ key y
  unfolding first select
  first-key-ne q [] y x a e k = cc
  first-key-ne q (z ∷ xs) y x a e k = elim (Bool-cases (q z)) [
    | inl h ↦ let z=y : z ≡ y = ground arith in a.0 (ap key z=y ∙ sym k)
    | inr h ↦ first-key-ne q xs y x a.1 (ground arith) k
  ]

  -- With distinct keys, a row with the key of the first hit of a filter is that hit.
  pub first-select-key :
      (q : A → Bool) (xs : List A) (y : A)
      → Distinct xs
      → first (select q xs) ≡ some y
      → All (λ x. key x ≡ key y → x ≡ y) xs
  unfolding first select
  first-select-key q [] y d e = tt
  first-select-key q (x ∷ xs) y d e = elim (Bool-cases (q x)) [
    | inl h ↦
        let x=y : x ≡ y = ground arith in
        (
          λ _. x=y,
          All-mono {P = λ z. key z ≢ key x} (λ z n k. absurd (n (k ∙ sym (ap key x=y)))) xs d.0,
        )
    | inr h ↦
        let e' : first (select q xs) ≡ some y = ground arith in
        (λ k. absurd (first-key-ne q xs y x d.0 e' k), first-select-key q xs y d.1 e')
  ]
