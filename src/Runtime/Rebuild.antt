-- ===== src/Runtime/Rebuild.antt =====
-- The messages of a run from its steps (app/agent/runtime/runtime.py, `rebuild_messages_from_run`). The
-- `call_id` inside an observation, which is a text here, is the parameter `obs_call_id`.
pub mod Order
use new_rag.Base.{List, [], ◌∷◌, ◌++◌, leb, if◌then◌else◌, Ident, some}
use new_rag.Runtime.Context.{
  Message, ToolDraft, text_message, build_messages, append_tool_call_block, append_tool_result,
  system, user,
}
use new_rag.Runtime.Loop.{StepRow}

-- The first messages of a run, which `execute_run` builds in the same way.
unfoldable pub initial_messages : Ident → List Message → Ident → List Message
initial_messages system_prompt [] user_text = build_messages system_prompt user_text
initial_messages system_prompt (m ∷ ms) user_text =
    text_message system (some system_prompt) ∷ (m ∷ ms) ++ text_message user (some user_text) ∷ []

-- `sorted(steps, key=seq)`
unfoldable pub insert_step : StepRow → List StepRow → List StepRow
insert_step r [] = r ∷ []
insert_step r (q ∷ qs) =
    let rest = insert_step r qs in if leb r.seq q.seq then r ∷ q ∷ qs else q ∷ rest

unfoldable pub sort_steps : List StepRow → List StepRow
unfolding insert_step
sort_steps [] = []
sort_steps (r ∷ rs) = insert_step r (sort_steps rs)

module _ (obs_call_id : Ident → Ident) where
  unfoldable pub append_results : List ToolDraft → List Ident → List Message → List Message
  append_results _ [] messages = messages
  append_results [] (o ∷ os) messages =
      append_results [] os (append_tool_result (obs_call_id o) o messages)
  append_results (c ∷ cs) (o ∷ os) messages =
      append_results cs os (append_tool_result c.id o messages)

  unfoldable pub append_step : StepRow → List Message → List Message
  append_step r messages =
      append_results r.calls r.observations
        (elim r.calls [ [] ↦ messages | _ ∷ _ ↦ append_tool_call_block r.calls messages ])

  unfoldable pub append_steps : List StepRow → List Message → List Message
  append_steps [] messages = messages
  append_steps (r ∷ rs) messages = append_steps rs (append_step r messages)

  unfoldable pub rebuild_messages_from_run :
      Ident → List Message → Ident → List StepRow → List Message
  rebuild_messages_from_run system_prompt history user_text steps =
      append_steps (sort_steps steps) (initial_messages system_prompt history user_text)
