-- ===== src/Runtime/Tests.antt =====
-- A small world for the loop: a clock, the table of locks, and a model that asks for one tool and then
-- answers.
use new_rag.Runtime.Recovery.{StateRow}
use new_rag.Runtime.Recovery.Versions.{Write, sets, swaps}
use new_rag.Base.{
  length, ◌≤◌, ℕ, ◌+◌, ◌==◌, ◌≡◌, arith, refl, true, false, none, some, List, [], ◌∷◌,
  if◌then◌else◌, ok,
}
use new_rag.Runtime.State.{
  waiting_tool, transition, can, allowed, mem_state, new, completed, running,
}
use new_rag.Runtime.Context.{
  build_messages, total_tokens, append_tool_call_block, append_tool_result, Message, ToolDraft,
  apply_context_budget, recent, text_message, user,
}
use new_rag.Runtime.Context.Recent.{apply_context_budget-recent}
use new_rag.Runtime.Loop.{
  fingerprint, insert_pair, push_fp, is_stuck, Deps, LlmResult, LoopState, Finish, finish,
  Checkpoint,
}
use new_rag.Runtime.Drive.{
  settle, take_result, answer_with, use_tools, observe, run_tools, run_tool, goto, snapshot, drive,
  round, call_llm,
}
use new_rag.Runtime.Drive.Bounds.{IsAnswered, drive-returns, call_llm-retries}
use new_rag.Runtime.Rebuild.{initial_messages, rebuild_messages_from_run}
use new_rag.Runtime.Run.{
  start_loop, restore, unspent, is_completed, RunInput, RunRow, execute_run, resume_run, first_loop,
  create_run,
}
use new_rag.Runtime.Run.Ending.{
  start_loop-running, IsFinished, execute_run-IsFinished, resume_run-IsFinished,
}
use new_rag.Runtime.Run.Resume.{Fits, round-restore, rebuild-drive}
use new_rag.Runtime.Lock
use new_rag.Runtime.Lock.{LockTable}
use new_rag.Runtime.Lock.Hold.{acquires, touches, releases, acquire-sole, apply_all, IsHolding}
use new_rag.Access.Budget.{check, ExecutionBudget}

record World : Type 0 where
  now : ℕ
  locks : LockTable
  turn : ℕ

abbrev weather : ToolDraft
weather = record { id = 7; name = 8; arguments = 9 }

abbrev answer_of : ℕ → LlmResult
answer_of turn = record {
  content = 5;
  tool_calls = if turn == 0 then weather ∷ [] else [];
  tokens_in = 10;
  tokens_out = 4;
  cost = 2;
  model = 1;
}

abbrev deps : Deps World
deps = record {
  start_clock = λ w. w;
  elapsed = λ w. w.now;
  step_elapsed = λ _. 0;
  is_cancelled = λ _. false;
  is_paused = λ _. false;
  clear_pause = λ w. w;
  acquire =
      λ w. let (got, locks) = Lock.acquire 600 w.now 3 w.locks in (got, record w { locks = locks });
  touch = λ w. record w { locks = Lock.touch 600 w.now 3 w.locks };
  release = λ w. record w { locks = Lock.release 3 w.locks };
  tokens = λ _. 1;
  summary_text = λ _ _. 0;
  streaming = false;
  partial_answer = λ _. none;
  complete = λ _ w. (ok (answer_of w.turn), record w { now = w.now + 1; turn = w.turn + 1 });
  execute_tool = λ c w. (ok (c.id + 100), record w { now = w.now + 2 });
}

abbrev budget : ExecutionBudget
budget = record {
  max_steps = 3;
  max_tokens = 1000;
  max_cost = 50;
  max_tool_calls = 5;
  max_runtime = 100;
  max_retries = 2;
  step_timeout = none;
}

abbrev request : RunInput
request = record { system_prompt = 1; history = []; text = 2 }

abbrev start : World
start = record { now = 0; locks = []; turn = 0 }

execute_run-IsFinished_example : IsFinished deps (execute_run deps 4 request budget start)
unfolding Lock.acquire Lock.expires
execute_run-IsFinished_example =
    execute_run-IsFinished deps 3 request budget start refl (ground arith)

start-running : (first_loop deps request budget start).sm.state ≡ running
start-running =
    (start_loop-running deps (initial_messages 1 [] 2) unspent (create_run request budget) start).0

drive-returns_example : IsAnswered (drive deps budget 4 (first_loop deps request budget start))
drive-returns_example =
    drive-returns deps budget 3 (first_loop deps request budget start) start-running (ground arith)

call_llm-retries_example :
    ((call_llm deps budget 2 (first_loop deps request budget start)).1.spent.retries
      ≤ (first_loop deps request budget start).spent.retries + 2 + 1)
    × (deps.streaming ≡ true
        → (call_llm deps budget 2 (first_loop deps request budget start)).1.spent.retries
          ≡ (first_loop deps request budget start).spent.retries)
call_llm-retries_example = call_llm-retries deps budget 2 (first_loop deps request budget start)

abbrev finished : Finish
finished = finish (some 5) none completed

first-Fits : Fits deps (initial_messages 1 [] 2)
unfolding initial_messages build_messages total_tokens
first-Fits = (ground arith, ground arith)

drive_answers : (drive deps budget 4 (first_loop deps request budget start)).0 ≡ some (ok finished)
unfolding drive settle round check call_llm take_result answer_with use_tools observe run_tools
    run_tool goto transition can allowed mem_state new start_loop create_run initial_messages
    build_messages apply_context_budget total_tokens fingerprint insert_pair push_fp is_stuck
    append_tool_call_block append_tool_result Lock.touch
drive_answers = refl

rebuild-drive_example :
    rebuild_messages_from_run
      (λ o. o)
      1
      []
      2
      (drive deps budget 4 (first_loop deps request budget start)).1.steps
    ≡ (drive deps budget 4 (first_loop deps request budget start)).1.messages
rebuild-drive_example =
    rebuild-drive deps 4 (λ o. o) request budget finished start first-Fits drive_answers refl

acquire-sole_example :
    (Lock.acquire 600 5000 3 (
      apply_all 600
        (Lock.acquire 600 0 3 []).1
        (acquires 10 4 ∷ touches 20 4 ∷ releases 30 4 ∷ []))).0
    ≡ false
unfolding Lock.acquire Lock.expires IsHolding
acquire-sole_example =
    acquire-sole 600 0 5000 3 [] (acquires 10 4 ∷ touches 20 4 ∷ releases 30 4 ∷ []) refl
      ((ground arith, tt))

abbrev chat : List Message
chat =
    text_message user (some 1)
    ∷ text_message user (some 2)
    ∷ text_message user (some 3)
    ∷ text_message user (some 4)
    ∷ text_message user (some 5)
    ∷ []

apply_context_budget-recent_example :
    (recent 2 (apply_context_budget (λ _. 1) (λ _ _. 0) 4000 2 chat) ≡ recent 2 chat)
    × (length (apply_context_budget (λ _. 1) (λ _ _. 0) 4000 2 chat) ≤ 4)
apply_context_budget-recent_example =
    apply_context_budget-recent (λ _. 1) (λ _ _. 0) 4000 2 chat (ground arith)

abbrev second : LoopState World
second = (round deps budget (first_loop deps request budget start)).1

round_goes_on : round deps budget (first_loop deps request budget start) ≡ (ok none, second)
unfolding round check call_llm take_result use_tools observe run_tools run_tool goto transition can
    allowed mem_state new start_loop create_run initial_messages build_messages apply_context_budget
    total_tokens fingerprint insert_pair push_fp is_stuck append_tool_call_block append_tool_result
    Lock.touch
round_goes_on = refl

second-Fits : Fits deps second.messages
unfolding round check call_llm take_result use_tools observe run_tools run_tool goto transition can
    allowed mem_state new start_loop create_run initial_messages build_messages apply_context_budget
    total_tokens fingerprint insert_pair push_fp is_stuck append_tool_call_block append_tool_result
    Lock.touch
second-Fits = (ground arith, ground arith)

round-restore_example :
    (cp : Checkpoint) × (second.checkpoint ≡ some cp)
    × (cp.current_step ≡ some second.spent.steps)
    × ((start_loop deps cp.messages (restore cp) (create_run request budget) start).messages
        ≡ second.messages)
    × ((start_loop deps cp.messages (restore cp) (create_run request budget) start).spent
        ≡ record second.spent { elapsed = 0; retries = 0 })
    × ((start_loop deps cp.messages (restore cp) (create_run request budget) start).sm.state
        ≡ second.sm.state)
round-restore_example =
    round-restore deps budget (first_loop deps request budget start) second
      (create_run request budget) start start-running round_goes_on second-Fits

abbrev halfway : Checkpoint
halfway = snapshot none (first_loop deps request budget start)

abbrev interrupted : RunRow
interrupted = record (create_run request budget) { state = running; checkpoint = some halfway }

resume_run-IsFinished_example : IsFinished deps (resume_run deps 4 interrupted start)
unfolding Lock.acquire Lock.expires is_completed create_run start_loop goto transition can allowed
    mem_state new
resume_run-IsFinished_example =
    resume_run-IsFinished deps 3 interrupted halfway start refl refl refl (ground arith)

abbrev stuck_run : StateRow
stuck_run = record {
  run_id = 3;
  state = running;
  version = 4;
  has_checkpoint = false;
  error = none;
}

abbrev writes : List Write
writes = sets 5 completed ∷ swaps 3 waiting_tool 5 ∷ []
