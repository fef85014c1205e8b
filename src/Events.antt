-- ===== src/Events.antt =====
-- The outbox of events (app/events/service.py): publication once per key, statistics and replays.
-- Types, aggregates, payloads and keys are numbers, of which 0 is the empty text; times are seconds.
pub mod Dedupe
pub mod Tallies
mod Tests
use new_rag.Base.{
  ℕ, zero, suc, ◌+◌, ◌-◌, ◌/◌, ◌==◌, ◌&&◌, Bool, true, false, Option, none, some, List, [], ◌∷◌,
  ◌++◌, Ident, if◌then◌else◌, is_some, length, take, leb, ltb, count_if, opt_eq, ok, err, Action,
  internal_error,
}
use new_rag.Base.Table.{select, first, update}
use new_rag.Base.Order.{order_desc}

pub record EventRow : Type 0 where
  pub id : Ident
  pub event_type : Ident
  pub tenant_id : Ident
  pub aggregate_id : Ident
  pub payload : Ident
  pub dedupe_key : Option Ident
  pub dedupe_hits : ℕ
  pub created_at : ℕ

pub record EventReplayRow : Type 0 where
  pub tenant_id : Ident
  pub aggregate_id : Ident
  pub succeeded : Bool
  pub events_count : ℕ

pub record Outbox : Type 0 where
  pub events : List EventRow
  pub replays : List EventReplayRow
  pub next_id : ℕ

-- The arguments of `publish`.
pub record Event : Type 0 where
  pub event_type : Ident
  pub tenant_id : Ident
  pub aggregate_id : Ident
  pub payload : Ident
  pub dedupe_key : Option Ident

-- `if dedupe_key`
unfoldable pub given : Option Ident → Option Ident
given none = none
given (some k) = if k == 0 then none else some k

abbrev pub keyed : Ident → EventRow → Bool
keyed k r = opt_eq r.dedupe_key k

-- The published event of a key.
unfoldable pub existing : Option Ident → Outbox → Option EventRow
existing key s = elim (given key) [ none ↦ none | some k ↦ first (select (keyed k) s.events) ]

abbrev pub new_event : ℕ → Ident → Event → EventRow
new_event now id e = record {
  id = id;
  event_type = e.event_type;
  tenant_id = e.tenant_id;
  aggregate_id = e.aggregate_id;
  payload = e.payload;
  dedupe_key = e.dedupe_key;
  dedupe_hits = 0;
  created_at = now;
}

-- The unique constraint of the key column.
abbrev pub is_taken : Option Ident → Outbox → Bool
is_taken none s = false
is_taken (some k) s = is_some (first (select (keyed k) s.events))

-- `publish` answers with the id of the event and whether it is a duplicate; the insertion of a key that
-- is taken raises.
unfoldable pub publish : ℕ → Event → Action Outbox (Ident × Bool)
publish now e s = elim (existing e.dedupe_key s) [
  | some r ↦ (
    ok (r.id, true),
    record s {
      events =
          update (λ x. x.id == r.id) (λ x. record x { dedupe_hits = x.dedupe_hits + 1 }) s.events;
    },
  )
  | none ↦ if is_taken e.dedupe_key s then (err internal_error, s) else (
    ok (s.next_id, false),
    record s { events = s.events ++ new_event now s.next_id e ∷ []; next_id = suc s.next_id },
  )
]

abbrev of_tenant : Option Ident → Ident → Bool
of_tenant none t = true
of_tenant (some t') t = t == t'

unfoldable pub list_events : Option Ident → Option Ident → ℕ → Outbox → List EventRow
list_events tenant_id event_type limit s = take limit (
    order_desc (λ r. r.created_at)
      (select (λ r. of_tenant tenant_id r.tenant_id && of_tenant event_type r.event_type) s.events))

abbrev pub Tally : Type 0
Tally = List (ℕ × ℕ)

-- `counts.get(k, 0)`
unfoldable pub get_count : ℕ → Tally → ℕ
get_count k [] = 0
get_count k ((k', n) ∷ t) = let rest = get_count k t in if k' == k then n else rest

-- `counts[k] = counts.get(k, 0) + 1`
unfoldable pub count_one : ℕ → Tally → Tally
count_one k [] = (k, 1) ∷ []
count_one k ((k', n) ∷ t) =
    let rest = count_one k t in if k' == k then (k', n + 1) ∷ t else (k', n) ∷ rest

abbrev count_given : Option ℕ → Tally → Tally
count_given none t = t
count_given (some k) t = count_one k t

-- `int((now - created).total_seconds() // 3600)` if it is in the window of hours.
unfoldable pub bucket_of : ℕ → ℕ → EventRow → Option ℕ
bucket_of now hours r =
    let ago = (now - r.created_at) / 3600 in
    if leb r.created_at now && ltb ago hours then some ago else none

pub record Counted : Type 0 where
  pub by_type : Tally
  pub buckets : Tally
  pub dedupe_hits : ℕ
  pub dedupe_events : ℕ

-- The loop over the events.
unfoldable pub count_events : ℕ → ℕ → List EventRow → Counted → Counted
count_events now hours [] c = c
count_events now hours (r ∷ rows) c =
    let next : Counted = record {
      by_type = count_one r.event_type c.by_type;
      buckets = count_given (bucket_of now hours r) c.buckets;
      dedupe_hits = c.dedupe_hits + r.dedupe_hits;
      dedupe_events = if is_some (given r.dedupe_key) then c.dedupe_events + 1 else c.dedupe_events;
    } in
    count_events now hours rows next

unfoldable pub sum_events : List EventReplayRow → ℕ
sum_events [] = 0
sum_events (x ∷ xs) = x.events_count + sum_events xs

-- The hours before the last, the oldest first, with their counts.
unfoldable pub trend_of : ℕ → Tally → Tally
trend_of zero t = []
trend_of (suc h) t = (h, get_count h t) ∷ trend_of h t

pub record Stats : Type 0 where
  pub by_type : Tally
  pub trend : Tally
  pub total : ℕ
  pub dedupe_hits : ℕ
  pub dedupe_events : ℕ
  pub replay_total : ℕ
  pub replay_ok : ℕ
  pub replay_events : ℕ

abbrev pub no_counts : Counted
no_counts = record { by_type = []; buckets = []; dedupe_hits = 0; dedupe_events = 0 }

unfoldable pub stats : ℕ → Option Ident → ℕ → Outbox → Stats
stats now tenant_id hours s =
    let rows = select (λ r. of_tenant tenant_id r.tenant_id) s.events in
    let replays = select (λ r. of_tenant tenant_id r.tenant_id) s.replays in
    let c = count_events now hours rows no_counts in
    record {
      by_type = c.by_type;
      trend = trend_of hours c.buckets;
      total = length rows;
      dedupe_hits = c.dedupe_hits;
      dedupe_events = c.dedupe_events;
      replay_total = length replays;
      replay_ok = count_if (λ x. x.succeeded) replays;
      replay_events = sum_events replays;
    }

abbrev pub of_aggregate : Ident → Ident → EventRow → Bool
of_aggregate tenant_id aggregate_id r = r.tenant_id == tenant_id && r.aggregate_id == aggregate_id

pub record AggregateState : Type 0 where
  pub count : ℕ
  pub by_type : Tally
  pub last_event : Option EventRow

-- The loop of `aggregate_state`: the types are counted, and the last event is kept.
unfoldable pub walk_events : List EventRow → Tally × Option EventRow → Tally × Option EventRow
walk_events [] r = r
walk_events (e ∷ events) (t, _) = walk_events events (count_one e.event_type t, some e)

unfoldable pub aggregate_state : Ident → Ident → Outbox → AggregateState
aggregate_state tenant_id aggregate_id s =
    let items = select (of_aggregate tenant_id aggregate_id) s.events in
    let (by_type, last) = walk_events items ([], none) in
    record { count = length items; by_type = by_type; last_event = last }

-- `replay` returns the events of an aggregate and logs how many they were.
unfoldable pub replay : Ident → Ident → Outbox → List EventRow × Outbox
replay tenant_id aggregate_id s =
    let events = select (of_aggregate tenant_id aggregate_id) s.events in
    let log : EventReplayRow = record {
      tenant_id = tenant_id;
      aggregate_id = aggregate_id;
      succeeded = true;
      events_count = length events;
    } in
    (events, record s { replays = s.replays ++ log ∷ [] })
