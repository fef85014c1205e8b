-- ===== src/Runtime/Rebuild/Order.antt =====
-- Steps that are kept in the order of their numbers (app/agent/runtime/runtime.py).
use new_rag.Base.{
  ℕ, ◌≤◌, ◌≡◌, refl, ap, ◌∙◌, sym, arith, List, [], ◌∷◌, ◌++◌, Ident, All, All-mono, All-append,
}
use new_rag.Runtime.Context.{Message, ToolDraft, append_tool_call_block}
use new_rag.Runtime.Loop.{StepRow}
use new_rag.Runtime.Rebuild.{insert_step, sort_steps, append_results, append_step, append_steps}

unfoldable pub IsOrdered : List StepRow → Type 0
IsOrdered [] = Unit {0}
IsOrdered (r ∷ rs) = All (λ q. r.seq ≤ q.seq) rs × IsOrdered rs

sort_steps-id : (rs : List StepRow) → IsOrdered rs → sort_steps rs ≡ rs
unfolding sort_steps insert_step IsOrdered
sort_steps-id [] h = refl
sort_steps-id (r ∷ []) h = refl
sort_steps-id (r ∷ q ∷ rs) h = ground (arith, sort_steps-id (q ∷ rs) h.1)

IsOrdered-last :
    (rs : List StepRow) (r : StepRow)
    → IsOrdered rs
    → All (λ q. q.seq ≤ r.seq) rs
    → IsOrdered (rs ++ r ∷ [])
unfolding IsOrdered
IsOrdered-last [] r o h = (tt, tt)
IsOrdered-last (q ∷ rs) r o h =
    (All-append (λ p. q.seq ≤ p.seq) rs (r ∷ []) o.0 (h.0, tt), IsOrdered-last rs r o.1 h.1)

-- What the steps tell of the messages since `base`.
pub record IsRebuilt (obs_call_id : Ident → Ident) (base : List Message) (messages : List Message)
    (steps : List StepRow) (last : ℕ) : Type 0 where
  pub rebuilt : append_steps obs_call_id (sort_steps steps) base ≡ messages
  pub ordered : IsOrdered steps
  pub bounded : All (λ q. q.seq ≤ last) steps

append_steps-last :
    (f : Ident → Ident) (rs : List StepRow) (r : StepRow) (ms : List Message)
    → append_steps f (rs ++ r ∷ []) ms ≡ append_step f r (append_steps f rs ms)
unfolding append_steps
append_steps-last f [] r ms = refl
append_steps-last f (q ∷ rs) r ms = append_steps-last f rs r (append_step f q ms)

pub IsRebuilt-last :
    (f : Ident → Ident) (base messages : List Message) (rs : List StepRow) (last : ℕ) (r : StepRow)
    → IsRebuilt f base messages rs last
    → last ≤ r.seq
    → IsRebuilt f base (append_step f r messages) (rs ++ r ∷ []) r.seq
IsRebuilt-last f base messages rs last r h le =
    let below : All (λ q. q.seq ≤ r.seq) rs =
      All-mono (λ (q : StepRow) (n : q.seq ≤ last). omega (arith, n, le)) rs h.bounded in
    let ordered : IsOrdered (rs ++ r ∷ []) = IsOrdered-last rs r h.ordered below in
    record {
      rebuilt =
          ap (λ s. append_steps f s base) (sort_steps-id (rs ++ r ∷ []) ordered)
          ∙ append_steps-last f rs r base
          ∙ ap (append_step f r)
              (ap (λ s. append_steps f s base) (sym (sort_steps-id rs h.ordered)) ∙ h.rebuilt);
      ordered = ordered;
      bounded = All-append (λ q. q.seq ≤ r.seq) rs (r ∷ []) below ((omega arith, tt));
    }

pub append_step-calls :
    (f : Ident → Ident) (r : StepRow) (c : ToolDraft) (cs : List ToolDraft) (ms : List Message)
    → r.calls ≡ c ∷ cs
    → append_step f r ms
      ≡ append_results f r.calls r.observations (append_tool_call_block r.calls ms)
unfolding append_step
append_step-calls f r c cs ms e = ground (arith, e)
