-- ===== src/Runtime/Context.antt =====
-- The messages of a run and their budget (app/agent/context/builder.py and summary.py). The
-- empty text is 0, and a content that is missing is `none`; the tokens of `str(content)` and the text of
-- a summary, which names the count of the messages, are parameters.
pub mod Recent
use new_rag.Base.{
  ◌==◌, ℕ, ◌+◌, ◌-◌, ◌*◌, Option, none, some, List, [], ◌∷◌, ◌++◌, zero, suc, leb, ltb,
  if◌then◌else◌, Ident, take, length,
}

pub data Role : Type 0 where
  system user assistant tool : Role

-- `ToolCallDraft`
pub record ToolDraft : Type 0 where
  pub id : Ident
  pub name : Ident
  pub arguments : Ident

pub record Message : Type 0 where
  pub role : Role
  pub content : Option Ident
  pub tool_calls : List ToolDraft
  pub tool_call_id : Option Ident

abbrev pub text_message : Role → Option Ident → Message
text_message role content = record {
  role = role;
  content = content;
  tool_calls = [];
  tool_call_id = none;
}

unfoldable pub build_messages : Ident → Ident → List Message
build_messages system_prompt user_text =
    text_message system (some system_prompt) ∷ text_message user (some user_text) ∷ []

unfoldable pub append_tool_call_block : List ToolDraft → List Message → List Message
append_tool_call_block calls messages =
    messages
    ++ record { role = assistant; content = none; tool_calls = calls; tool_call_id = none } ∷ []

unfoldable pub append_tool_result : Ident → Ident → List Message → List Message
append_tool_result id content messages =
    messages
    ++ record { role = tool; content = some content; tool_calls = []; tool_call_id = some id } ∷ []

abbrev pub drop {ℓ} : {A : Type ℓ} → ℕ → List A → List A
drop zero xs = xs
drop (suc n) [] = []
drop (suc n) (x ∷ xs) = drop n xs

-- `messages[:-n]` and `messages[-n:]` of a list that is longer than `n > 0`
abbrev pub older : ℕ → List Message → List Message
older n messages = take (length messages - n) messages

abbrev pub recent : ℕ → List Message → List Message
recent n messages = drop (length messages - n) messages

unfoldable pub contents : List Message → List Ident
contents [] = []
contents (m ∷ ms) =
    let rest = contents ms in
    elim m.content [ none ↦ rest | some c ↦ if c == 0 then rest else c ∷ rest ]

module _ (tokens : Option Ident → ℕ) (summary_text : ℕ → List Ident → Ident) where
  -- `_summarize` without a model: nothing for messages without text.
  unfoldable pub summarize : List Message → Option Ident
  summarize messages = elim (contents messages) [
    | [] ↦ none
    | c ∷ cs ↦ some (summary_text (length messages) (c ∷ cs))
  ]

  unfoldable pub compress_history : ℕ → List Message → List Message
  compress_history keep_recent messages =
      if leb (length messages) keep_recent
      then messages
      else (elim (summarize (older keep_recent messages)) [
        | none ↦ recent keep_recent messages
        | some s ↦ text_message system (some s) ∷ recent keep_recent messages
      ])

  unfoldable pub total_tokens : List Message → ℕ
  total_tokens [] = 0
  total_tokens (m ∷ ms) = tokens m.content + total_tokens ms

  unfoldable pub apply_context_budget : ℕ → ℕ → List Message → List Message
  apply_context_budget max_tokens keep_recent messages =
      let trimmed =
        if ltb (keep_recent * 2) (length messages)
        then compress_history keep_recent messages
        else messages in
      if leb (total_tokens trimmed) max_tokens then trimmed else compress_history 2 trimmed
