-- ===== src/Runtime/Context/Recent.antt =====
-- What the context budget keeps of the messages (app/agent/context/summary.py).
use mathlib.Core.Path.{subst}
use new_rag.Base.{
  if◌then◌else◌, ℕ, zero, suc, ◌+◌, ◌-◌, ◌*◌, ◌≤◌, ◌≡◌, ◌∙◌, refl, ap, sym, arith, Bool-cases,
  Option, Option-cases, some, List, [], ◌∷◌, length, leb, ltb, Ident, inl, inr,
}
use new_rag.Runtime.Context.{
  Message, drop, recent, older, summarize, compress_history, total_tokens, apply_context_budget,
  text_message, system,
}

module _ {ℓ} {A : Type ℓ} where
  length-drop : (n : ℕ) (xs : List A) → length (drop n xs) ≡ length xs - n
  length-drop zero xs = ground arith
  length-drop (suc n) [] = ground arith
  length-drop (suc n) (x ∷ xs) = ground (arith, length-drop n xs)

  drop-nil : (n : ℕ) → drop {A = A} n [] ≡ []
  drop-nil zero = refl
  drop-nil (suc n) = refl

  drop-drop : (m n : ℕ) (xs : List A) → drop m (drop n xs) ≡ drop (m + n) xs
  drop-drop m zero xs = ap (λ i. drop i xs) (omega arith)
  drop-drop m (suc n) [] =
      ap (drop m) (sym (drop-nil (suc n))) ∙ drop-nil m ∙ sym (drop-nil (m + suc n))
  drop-drop m (suc n) (x ∷ xs) =
      let e : suc (m + n) ≡ m + suc n = omega arith in
      drop-drop m n xs ∙ ap (λ i. drop i (x ∷ xs)) e

length-recent : (n : ℕ) (ms : List Message) → length (recent n ms) ≡ length ms - (length ms - n)
length-recent n ms = length-drop (length ms - n) ms

recent-recent : (m n : ℕ) (ms : List Message) → m ≤ n → recent m (recent n ms) ≡ recent m ms
recent-recent m n ms le =
    drop-drop (length (recent n ms) - m) (length ms - n) ms
    ∙ ap (λ i. drop i ms) (omega (arith, length-recent n ms, le))

module _ (tokens : Option Ident → ℕ) (summary_text : ℕ → List Ident → Ident) where
  -- Folding the older messages keeps the recent ones, and makes at most one message of the others.
  compress_history-recent :
      (n : ℕ) (ms : List Message)
      → (recent n (compress_history tokens summary_text n ms) ≡ recent n ms)
        × (length (compress_history tokens summary_text n ms) ≤ n + 1)
  unfolding compress_history
  compress_history-recent n ms = elim (Bool-cases (leb (length ms) n)) [
    | inl y ↦
        let eq : compress_history tokens summary_text n ms ≡ ms = ground (arith, y) in
        subst Kept (sym eq) (refl, ground (arith, y))
    | inr y ↦ elim (Option-cases (summarize tokens summary_text (older n ms))) [
      | inl e ↦
          let eq : compress_history tokens summary_text n ms ≡ recent n ms = ground (arith, y, e) in
          subst Kept (sym eq)
            (recent-recent n n ms (omega arith), omega (arith, length-recent n ms))
      | inr (s, e) ↦
          let m = text_message system (some s) in
          let eq : compress_history tokens summary_text n ms ≡ m ∷ recent n ms =
            ground (arith, y, e) in
          let one : length (m ∷ recent n ms) - n ≡ 1 = ground (arith, y, length-recent n ms) in
          subst Kept (sym eq)
            (ap (λ i. drop i (m ∷ recent n ms)) one, ground (arith, length-recent n ms))
    ]
  ]
    where
      Kept : List Message → Type 0
      Kept c = (recent n c ≡ recent n ms) × (length c ≤ n + 1)

  -- Where at least two messages are kept raw, the messages that a loop starts with end with the last
  -- two messages that it was given, and there are at most twice as many as are kept raw.
  pub apply_context_budget-recent :
      (max_tokens keep_recent : ℕ) (ms : List Message)
      → 2 ≤ keep_recent
      → (recent 2 (apply_context_budget tokens summary_text max_tokens keep_recent ms)
          ≡ recent 2 ms)
        × (length (apply_context_budget tokens summary_text max_tokens keep_recent ms)
            ≤ keep_recent * 2)
  unfolding apply_context_budget
  apply_context_budget-recent max_tokens keep_recent ms le =
      elim (Bool-cases (leb (total_tokens tokens summary_text trimmed) max_tokens)) [
        | inl y ↦
            let eq : apply_context_budget tokens summary_text max_tokens keep_recent ms ≡ trimmed =
              ground (arith, y) in
            subst Kept (sym eq) trimmed-Kept
        | inr y ↦
            let eq : apply_context_budget tokens summary_text max_tokens keep_recent ms
                ≡ compress_history tokens summary_text 2 trimmed =
              ground (arith, y) in
            let again = compress_history-recent 2 trimmed in
            subst Kept (sym eq) (again.0 ∙ trimmed-Kept.0, ground (arith, again.1, le))
      ]
    where
      trimmed : List Message
      trimmed =
          if ltb (keep_recent * 2) (length ms)
          then compress_history tokens summary_text keep_recent ms
          else ms

      Kept : List Message → Type 0
      Kept c = (recent 2 c ≡ recent 2 ms) × (length c ≤ keep_recent * 2)

      trimmed-Kept : Kept trimmed
      trimmed-Kept = elim (Bool-cases (ltb (keep_recent * 2) (length ms))) [
        | inl y ↦
            let c = compress_history tokens summary_text keep_recent ms in
            let eq : trimmed ≡ c = ground (arith, y) in
            let kept = compress_history-recent keep_recent ms in
            subst Kept (sym eq) (
              sym (recent-recent 2 keep_recent c le)
                  ∙ ap (recent 2) kept.0
                  ∙ recent-recent 2 keep_recent ms le,
              omega (arith, kept.1, le),
            )
        | inr y ↦
            let eq : trimmed ≡ ms = ground (arith, y) in
            subst Kept (sym eq) (refl, ground (arith, y))
      ]
