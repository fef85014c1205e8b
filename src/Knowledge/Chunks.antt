-- ===== src/Knowledge/Chunks.antt =====
-- What the chunks of a section keep of its lines (app/knowledge/chunker.py).
use mathlib.Core.Path.{subst}
use new_rag.Base.{
  ◌⊎◌, ℕ, ◌+◌, ◌≡◌, ◌≤◌, ltb, ◌&&◌, not, refl, sym, ap, ◌∙◌, arith, Bool-cases, true, false, inl,
  inr, List, [], ◌∷◌, ◌++◌, Ident, All,
}
use new_rag.Knowledge.{Block, is_empty, reversed, carry_from, carried, chunk_from, chunk_lines}

append_assoc : (xs ys zs : Block) → (xs ++ ys) ++ zs ≡ xs ++ (ys ++ zs)
append_assoc [] ys zs = refl
append_assoc (x ∷ xs) ys zs = ap (λ l. x ∷ l) (append_assoc xs ys zs)

append_nil : (xs : Block) → xs ++ [] ≡ xs
append_nil [] = refl
append_nil (x ∷ xs) = ap (λ l. x ∷ l) (append_nil xs)

reversed-last : (xs : Block) (x : Ident) → reversed (xs ++ x ∷ []) ≡ x ∷ reversed xs
unfolding reversed
reversed-last [] x = refl
reversed-last (y ∷ xs) x = ap (λ l. l ++ y ∷ []) (reversed-last xs x)

reversed-reversed : (xs : Block) → reversed (reversed xs) ≡ xs
unfolding reversed
reversed-reversed [] = refl
reversed-reversed (x ∷ xs) = reversed-last (reversed xs) x ∙ ap (λ l. x ∷ l) (reversed-reversed xs)

-- Blocks that hold the lines in their order: each is a piece of the lines that is not empty, after lines
-- that end the block before it.
pub data Covers : Block → List Block → List Ident → Type 0 where
  done : {prev : Block} → Covers prev [] []
  next :
      {prev : Block} (kept carry piece : Block) {blocks : List Block} {lines : List Ident}
      → kept ++ carry ≡ prev
      → is_empty piece ≡ false
      → Covers (carry ++ piece) blocks lines
      → Covers prev ((carry ++ piece) ∷ blocks) (piece ++ lines)

is_empty-append : (xs ys : Block) → is_empty ys ≡ false → is_empty (xs ++ ys) ≡ false
is_empty-append [] ys h = h
is_empty-append (x ∷ xs) ys h = refl

piece_some :
    (carry piece : Block)
    → (is_empty piece ≡ false) ⊎ ((carry ≡ []) × (piece ≡ []))
    → is_empty (carry ++ piece) ≡ false
    → is_empty piece ≡ false
piece_some carry piece (inl h) e = h
piece_some carry piece (inr (c, p)) e =
    let none_left : carry ++ piece ≡ [] = ap (λ x. x ++ piece) c ∙ p in
    absurd (ground (arith, none_left, e))

is_empty_nil : (xs : Block) → is_empty xs ≡ true → xs ≡ []
is_empty_nil [] h = refl
is_empty_nil (x ∷ xs) h = absurd (ground (arith, h))

module _ (count_tokens : Ident → ℕ) (max_tokens overlap_tokens : ℕ) where
  unfoldable pub tokens_of : Block → ℕ
  tokens_of [] = 0
  tokens_of (x ∷ xs) = count_tokens x + tokens_of xs

  tokens_of-append : (xs ys : Block) → tokens_of (xs ++ ys) ≡ tokens_of xs + tokens_of ys
  unfolding tokens_of
  tokens_of-append [] ys = ground arith
  tokens_of-append (x ∷ xs) ys = ground (arith, tokens_of-append xs ys)

  -- Lines that end a block, with their count of tokens, which is within the overlap.
  abbrev IsCarried : Block → Block × ℕ → Type 0
  IsCarried whole p =
      (kept : Block) × (kept ++ p.0 ≡ whole) × (tokens_of p.0 ≡ p.1) × (p.1 ≤ overlap_tokens)

  carry_from-IsCarried :
      (rs carry : Block) (n : ℕ)
      → tokens_of carry ≡ n
      → n ≤ overlap_tokens
      → IsCarried
          (reversed rs ++ carry)
          (carry_from count_tokens max_tokens overlap_tokens rs carry n)
  unfolding carry_from reversed tokens_of
  carry_from-IsCarried [] carry n e le = ([], refl, e, le)
  carry_from-IsCarried (p ∷ ps) carry n e le =
      elim (Bool-cases (ltb overlap_tokens (n + count_tokens p))) [
        | inl over ↦
            let eq : carry_from count_tokens max_tokens overlap_tokens (p ∷ ps) carry n
                ≡ (carry, n) =
              ground (arith, over) in
            subst (IsCarried (reversed (p ∷ ps) ++ carry)) (sym eq) (reversed (p ∷ ps), refl, e, le)
        | inr under ↦
            let eq : carry_from count_tokens max_tokens overlap_tokens (p ∷ ps) carry n
                ≡ carry_from count_tokens max_tokens overlap_tokens ps (p ∷ carry)
                    (n + count_tokens p) =
              ground (arith, under) in
            let whole : reversed ps ++ p ∷ carry ≡ reversed (p ∷ ps) ++ carry =
              sym (append_assoc (reversed ps) (p ∷ []) carry) in
            subst (IsCarried (reversed (p ∷ ps) ++ carry)) (sym eq) (
              subst
                (λ w. IsCarried w (
                  carry_from count_tokens max_tokens overlap_tokens ps (p ∷ carry)
                    (n + count_tokens p)))
                whole
                (carry_from-IsCarried ps (p ∷ carry) (n + count_tokens p) (ground (arith, e))
                  (ground (arith, under))))
      ]

  carried-IsCarried :
      (cur : Block) → IsCarried cur (carried count_tokens max_tokens overlap_tokens cur)
  unfolding tokens_of
  carried-IsCarried cur =
      subst (λ w. IsCarried w (carried count_tokens max_tokens overlap_tokens cur))
        (append_nil (reversed (reversed cur)) ∙ reversed-reversed cur)
        (carry_from-IsCarried (reversed cur) [] 0 refl (ground arith))

  -- The blocks cover the lines, and none is larger than a full block and its overlap.
  abbrev pub IsCut : Block → List Block → List Ident → Type 0
  IsCut prev blocks lines =
      Covers prev blocks lines × All (λ b. tokens_of b ≤ overlap_tokens + max_tokens) blocks

  more_bound :
      (cur : Block) (n : ℕ) (line : Ident)
      → tokens_of cur ≡ n
      → (not (is_empty cur) && ltb max_tokens (n + count_tokens line)) ≡ false
      → count_tokens line ≤ max_tokens
      → n + count_tokens line ≤ overlap_tokens + max_tokens
  unfolding tokens_of
  more_bound [] n line e goes le = ground (arith, e, le)
  more_bound (x ∷ xs) n line e goes le = ground (arith, goes)

  chunk_from-IsCut :
      (prev kept carry piece : Block) (n : ℕ) (lines : List Ident)
      → kept ++ carry ≡ prev
      → tokens_of (carry ++ piece) ≡ n
      → n ≤ overlap_tokens + max_tokens
      → (is_empty piece ≡ false) ⊎ ((carry ≡ []) × (piece ≡ []))
      → All (λ l. count_tokens l ≤ max_tokens) lines
      → IsCut prev
          (chunk_from count_tokens max_tokens overlap_tokens (carry ++ piece) n lines)
          (piece ++ lines)
  unfolding chunk_from tokens_of
  chunk_from-IsCut prev kept carry piece n [] k e le ne h = elim ne [
    | inl more ↦
        let full = is_empty-append carry piece more in
        let eq : chunk_from count_tokens max_tokens overlap_tokens (carry ++ piece) n []
            ≡ (carry ++ piece) ∷ [] =
          ground (arith, full) in
        subst (λ bs. IsCut prev bs (piece ++ [])) (sym eq)
          (next kept carry piece k more done, (ground (arith, e, le), tt))
    | inr (c, p) ↦
        let none_left : carry ++ piece ≡ [] = ap (λ x. x ++ piece) c ∙ p in
        let eq : chunk_from count_tokens max_tokens overlap_tokens (carry ++ piece) n [] ≡ [] =
          ground (arith, none_left) in
        subst (λ bs. IsCut prev bs (piece ++ [])) (sym eq)
          (subst (λ x. Covers prev [] (x ++ [])) (sym p) done, tt)
  ]
  chunk_from-IsCut prev kept carry piece n (line ∷ lines) k e le ne h =
      let cur = carry ++ piece in
      let (kept', k', count, small) = carried-IsCarried cur in
      let (carry', n') = carried count_tokens max_tokens overlap_tokens cur in
      elim (Bool-cases (not (is_empty cur) && ltb max_tokens (n + count_tokens line))) [
        | inl cuts ↦
            let rest =
              chunk_from-IsCut cur kept' carry' (line ∷ []) (n' + count_tokens line) lines k'
                (ground (arith, tokens_of-append carry' (line ∷ []), count))
                (ground (arith, small, h.0)) (inl refl) h.1 in
            let eq : chunk_from count_tokens max_tokens overlap_tokens cur n (line ∷ lines)
                ≡ cur
                  ∷ chunk_from count_tokens max_tokens overlap_tokens (carry' ++ line ∷ [])
                      (n' + count_tokens line) lines =
              ground (arith, cuts) in
            subst (λ bs. IsCut prev bs (piece ++ line ∷ lines)) (sym eq)
              (
                next kept carry piece k (piece_some carry piece ne (ground (arith, cuts))) rest.0,
                (ground (arith, e, le), rest.1),
              )
        | inr goes ↦
            let rest =
              chunk_from-IsCut prev kept carry (piece ++ line ∷ []) (n + count_tokens line) lines k
                (ground (
                  arith,
                  tokens_of-append carry (piece ++ line ∷ []),
                  tokens_of-append piece (line ∷ []),
                  tokens_of-append carry piece,
                  e,
                ))
                (more_bound cur n line e goes h.0) (inl (is_empty-append piece (line ∷ []) refl))
                h.1 in
            let eq : chunk_from count_tokens max_tokens overlap_tokens cur n (line ∷ lines)
                ≡ chunk_from count_tokens max_tokens overlap_tokens (carry ++ (piece ++ line ∷ []))
                    (n + count_tokens line) lines =
              ground (arith, goes, append_assoc carry piece (line ∷ [])) in
            subst (λ bs. IsCut prev bs (piece ++ line ∷ lines)) (sym eq)
              (subst
                (λ ls.
                  IsCut prev
                    (chunk_from count_tokens max_tokens overlap_tokens
                      (carry ++ (piece ++ line ∷ [])) (n + count_tokens line) lines)
                    ls)
                (append_assoc piece (line ∷ []) lines) rest)
      ]

  -- Where no line is above the budget alone, the blocks of a section hold its lines in their order,
  -- each block being some new lines after lines that end the block before it, and no block is above the
  -- budget and the overlap together.
  pub chunk_lines-IsCut :
      (lines : List Ident)
      → All (λ l. count_tokens l ≤ max_tokens) lines
      → IsCut [] (chunk_lines count_tokens max_tokens overlap_tokens lines) lines
  unfolding chunk_lines tokens_of
  chunk_lines-IsCut lines h =
      chunk_from-IsCut [] [] [] [] 0 lines refl refl (ground arith) (inr (refl, refl)) h
