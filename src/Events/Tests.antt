-- ===== src/Events/Tests.antt =====
-- The theorems on the outbox at concrete inputs: two events of one key.
use new_rag.Base.{◌≡◌, refl, Bool, true, none, some, [], ◌∷◌, Ident, length, ok}
use new_rag.Events.{Outbox, Event, given, publish}
use new_rag.Events.Dedupe.{publish_all, publish-once}

abbrev paid : Event
paid = record { event_type = 4; tenant_id = 1; aggregate_id = 5; payload = 6; dedupe_key = some 7 }

abbrev other : Event
other = record paid { dedupe_key = none }

abbrev outbox : Outbox
outbox = record { events = []; replays = []; next_id = 0 }

has_key : given (some 7) ≡ some 7
unfolding given
has_key = refl

publish-once_example :
    let s = publish_all ((2, other) ∷ []) (publish 1 paid outbox).1 in
    (id : Ident) × (d : Bool) × ((publish 1 paid outbox).0 ≡ ok (id, d))
    × ((publish 3 paid s).0 ≡ ok (id, true))
    × (length (publish 3 paid s).1.events ≡ length s.events)
publish-once_example = publish-once 1 3 paid paid ((2, other) ∷ []) outbox 7 has_key has_key

abbrev held : Outbox
held = record {
  events =
      record {
        id = 0;
        event_type = 4;
        tenant_id = 1;
        aggregate_id = 5;
        payload = 6;
        dedupe_key = some 7;
        dedupe_hits = 0;
        created_at = 100;
      }
      ∷ [];
  replays = [];
  next_id = 1;
}
