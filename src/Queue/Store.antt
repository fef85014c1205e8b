-- ===== src/Queue/Store.antt =====
-- `JobStore` (app/queue/store.py) over the rows of `JobRow` (app/storage/models.py). The clock and the
-- new job's id are arguments; times count seconds; the payload is an identifier.
pub mod Lifecycle
pub mod Attempts
use new_rag.Base.{
  ℕ, Bool, true, false, Option, none, some, List, [], ◌∷◌, ◌++◌, map, ltb, leb, ◌==◌, ◌+◌, ◌&&◌,
  if◌then◌else◌, Ident, opt_eq,
}
use new_rag.Base.Table.{select, first, update}

pub data JobState : Type 0 where
  created queued running succeeded failed dead_letter cancelled expired : JobState

pub record JobRow : Type 0 where
  pub job_id : Ident
  pub tenant_id : Ident
  pub job_type : Ident
  pub payload : Ident
  pub priority : ℕ
  pub state : JobState
  pub attempts : ℕ
  pub max_attempts : ℕ
  pub error : Option Ident
  pub dedupe_key : Option Ident
  pub lease_until : Option ℕ
  pub created_at : ℕ
  pub started_at : Option ℕ
  pub finished_at : Option ℕ

abbrev pub Jobs : Type 0
Jobs = List JobRow

-- `row.state in ("CREATED", "QUEUED")`
abbrev pub waiting : JobState → Bool
waiting created = true
waiting queued = true
waiting _ = false

abbrev pub is_running : JobState → Bool
is_running running = true
is_running _ = false

abbrev pub is_dead : JobState → Bool
is_dead dead_letter = true
is_dead _ = false

-- `row.state in ["CREATED", "QUEUED", "RUNNING"]`
abbrev pub unfinished : JobState → Bool
unfinished running = true
unfinished s = waiting s

abbrev pub has_id : Ident → JobRow → Bool
has_id j r = r.job_id == j

unfoldable pub get : Ident → Jobs → Option JobRow
unfolding first select
get j jobs = first (select (has_id j) jobs)

-- Writes to the row of an id.
abbrev pub edit : Ident → (JobRow → JobRow) → Jobs → Jobs
edit j f jobs = update (has_id j) f jobs

abbrev pub new_job : Ident → Ident → Ident → Ident → ℕ → ℕ → Option Ident → ℕ → JobRow
new_job j tenant job_type payload priority max_attempts dedupe_key now = record {
  job_id = j;
  tenant_id = tenant;
  job_type = job_type;
  payload = payload;
  priority = priority;
  state = created;
  attempts = 0;
  max_attempts = max_attempts;
  error = none;
  dedupe_key = dedupe_key;
  lease_until = none;
  created_at = now;
  started_at = none;
  finished_at = none;
}

unfoldable pub create : Ident → Ident → Ident → Ident → ℕ → ℕ → Option Ident → ℕ → Jobs → Jobs
create j tenant job_type payload priority max_attempts dedupe_key now jobs =
    jobs ++ new_job j tenant job_type payload priority max_attempts dedupe_key now ∷ []

unfoldable pub find_active : Ident → Ident → Ident → Jobs → Option Ident
unfolding first select
find_active tenant job_type key jobs =
    elim (first (
      select
        (λ r.
          r.tenant_id == tenant
          && r.job_type == job_type
          && opt_eq r.dedupe_key key
          && unfinished r.state)
        jobs)) [ none ↦ none | some r ↦ some r.job_id ]

abbrev pub claimed : ℕ → ℕ → JobRow → JobRow
claimed now lease r = record r {
  state = running;
  attempts = r.attempts + 1;
  started_at = some now;
  lease_until = some (now + lease);
}

unfoldable pub claim : ℕ → ℕ → Ident → Jobs → Bool × Jobs
claim now lease j jobs = elim (get j jobs) [
  | none ↦ (false, jobs)
  | some r ↦ if waiting r.state then (true, edit j (claimed now lease) jobs) else (false, jobs)
]

unfoldable pub heartbeat : ℕ → ℕ → Ident → Jobs → Jobs
heartbeat now lease j jobs = elim (get j jobs) [
  | none ↦ jobs
  | some r ↦
      if is_running r.state
      then edit j (λ r. record r { lease_until = some (now + lease) }) jobs
      else jobs
]

-- A RUNNING job whose lease is over.
abbrev pub is_zombie : ℕ → JobRow → Bool
is_zombie now r = is_running r.state && elim r.lease_until [ none ↦ false | some t ↦ ltb t now ]

unfoldable pub recover_zombies : ℕ → Jobs → List Ident × Jobs
unfolding select update
recover_zombies now jobs = (
  map (λ r. r.job_id) (select (is_zombie now) jobs),
  update (is_zombie now) (λ r. record r { state = queued }) jobs,
)

unfoldable pub succeed : ℕ → Ident → Jobs → Jobs
unfolding update
succeed now j jobs = edit j (λ r. record r { state = succeeded; finished_at = some now }) jobs

abbrev pub after_failure : ℕ → Ident → JobRow → JobRow
after_failure now e r =
    if leb r.max_attempts r.attempts
    then record r { error = some e; state = dead_letter; finished_at = some now }
    else record r { error = some e; state = queued }

unfoldable pub fail : ℕ → Ident → Ident → Jobs → JobState × Jobs
fail now j e jobs = elim (get j jobs) [
  | none ↦ (failed, jobs)
  | some r ↦ ((after_failure now e r).state, edit j (after_failure now e) jobs)
]

-- `cancel` answers with a state, or "NOT_FOUND" for `none`.
unfoldable pub cancel : ℕ → Ident → Jobs → Option JobState × Jobs
cancel now j jobs = elim (get j jobs) [
  | none ↦ (none, jobs)
  | some r ↦
      if waiting r.state
      then (
        some cancelled,
        edit j (λ r. record r { state = cancelled; finished_at = some now }) jobs,
      )
      else (some r.state, jobs)
]

abbrev pub is_old : ℕ → ℕ → JobRow → Bool
is_old now ttl r = waiting r.state && leb (r.created_at + ttl) now

unfoldable pub expire_old : ℕ → ℕ → Jobs → List Ident × Jobs
unfolding select update
expire_old now ttl jobs = (
  map (λ r. r.job_id) (select (is_old now ttl) jobs),
  update (is_old now ttl) (λ r. record r { state = expired }) jobs,
)

-- `requeue` answers with the state, or "NOT_FOUND", and whether it has skipped the job.
unfoldable pub requeue : Ident → Jobs → (Option JobState × Bool) × Jobs
requeue j jobs = elim (get j jobs) [
  | none ↦ ((none, false), jobs)
  | some r ↦
      if is_dead r.state
      then (
        (some created, false),
        edit j (λ r. record r { state = created; attempts = 0; error = none; lease_until = none })
            jobs,
      )
      else ((some r.state, true), jobs)
]
