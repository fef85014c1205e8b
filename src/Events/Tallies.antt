-- ===== src/Events/Tallies.antt =====
-- The statistics of events count what the table holds (app/events/service.py).
use new_rag.Base.{
  ℕ, ◌+◌, ◌≡◌, ◌==◌, Option, none, some, List, [], ◌∷◌, ◌++◌, Ident, if◌then◌else◌, refl, arith,
  length, count_if,
}
use new_rag.Base.Table.{select}
use new_rag.Events.{
  EventRow, EventReplayRow, Outbox, Tally, get_count, count_one, of_tenant, of_aggregate,
  walk_events, aggregate_state, replay, sum_events,
}

get_count-count_one :
    (k k' : ℕ) (t : Tally)
    → get_count k (count_one k' t) ≡ (if k' == k then get_count k t + 1 else get_count k t)
unfolding get_count count_one
get_count-count_one k k' [] = ground arith
get_count-count_one k k' ((j, n) ∷ t) = ground (arith, get_count-count_one k k' t)

-- The rows of a tenant, or all rows without one.
abbrev pub rows_of : Option Ident → Outbox → List EventRow
rows_of tenant_id s = select (λ r. of_tenant tenant_id r.tenant_id) s.events

walk_events-counts :
    (k : Ident) (rows : List EventRow) (t : Tally) (last : Option EventRow)
    → get_count k (walk_events rows (t, last)).0
      ≡ get_count k t + count_if (λ r. r.event_type == k) rows
unfolding walk_events
walk_events-counts k [] t last = omega arith
walk_events-counts k (r ∷ rows) t last = ground (
  arith,
  walk_events-counts k rows (count_one r.event_type t) (some r),
  get_count-count_one k r.event_type t,
)

sum_events-snoc :
    (xs : List EventReplayRow) (x : EventReplayRow)
    → sum_events (xs ++ x ∷ []) ≡ sum_events xs + x.events_count
unfolding sum_events
sum_events-snoc [] x = omega arith
sum_events-snoc (y ∷ xs) x = omega (arith, sum_events-snoc xs x)

-- The state of an aggregate counts the events that a replay returns, in all and by type, and the replay
-- leaves the events as they were and a log of how many they are.
pub replay-aggregate_state :
    (tenant_id aggregate_id k : Ident) (s : Outbox)
    → let (events, s') = replay tenant_id aggregate_id s in
      let before = aggregate_state tenant_id aggregate_id s in
      (before.count ≡ length events)
      × (get_count k before.by_type ≡ count_if (λ e. e.event_type == k) events)
      × (aggregate_state tenant_id aggregate_id s' ≡ before)
      × (sum_events s'.replays ≡ sum_events s.replays + length events)
unfolding replay aggregate_state get_count
replay-aggregate_state tenant_id aggregate_id k s =
    let events = select (of_aggregate tenant_id aggregate_id) s.events in
    (refl, omega (arith, walk_events-counts k events [] none), refl, sum_events-snoc s.replays _)
