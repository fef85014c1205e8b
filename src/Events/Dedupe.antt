-- ===== src/Events/Dedupe.antt =====
-- An event with a key is published once (app/events/service.py).
use mathlib.Core.Option
use new_rag.Base.{
  ℕ, suc, ◌+◌, ◌≡◌, ◌==◌, Bool, true, false, Option, none, some, List, [], ◌∷◌, ◌++◌, Ident,
  is_some, refl, ap, arith, inl, inr, Option-cases, ok, length,
}
use new_rag.Base.Table.{select, first, update, first-select-update_kept, first-select-append}
use new_rag.Events.{EventRow, Outbox, Event, given, keyed, existing, new_event, publish}

-- The id of the event of a key.
unfoldable pub id_of : Ident → List EventRow → Option Ident
id_of k rows = Option.map (λ r. r.id) (first (select (keyed k) rows))

id_of-append :
    (k : Ident) (xs ys : List EventRow) (id : Ident)
    → id_of k xs ≡ some id
    → id_of k (xs ++ ys) ≡ some id
unfolding id_of first select
id_of-append k [] ys id h = cc
id_of-append k (x ∷ xs) ys id h = ground (arith, h, id_of-append k xs ys id)

id_of-hit :
    (k n : Ident) (xs : List EventRow)
    → id_of k (update (λ x. x.id == n) (λ x. record x { dedupe_hits = x.dedupe_hits + 1 }) xs)
      ≡ id_of k xs
unfolding id_of
id_of-hit k n xs =
    let kept =
      first-select-update_kept (λ (x : EventRow). x.id == n) (keyed k)
        (λ (x : EventRow). record x { dedupe_hits = x.dedupe_hits + 1 }) (λ x. refl) xs in
    elim (Option-cases (first (select (keyed k) xs))) [
      | inl e ↦ ground (arith, kept, e)
      | inr (r, e) ↦ ground (arith, kept, e)
    ]

-- An event keeps its key.
id_of-publish :
    (now : ℕ) (e : Event) (s : Outbox) (k id : Ident)
    → id_of k s.events ≡ some id
    → id_of k (publish now e s).1.events ≡ some id
unfolding publish
id_of-publish now e s k id h = elim (Option-cases (existing e.dedupe_key s)) [
  | inl n ↦
      let kept = id_of-append k s.events (new_event now s.next_id e ∷ []) id h in
      ground (arith, n, h, kept)
  | inr (r, f) ↦ let kept = id_of-hit k r.id s.events in ground (arith, f, h, kept)
]

-- Publications, one after the other.
unfoldable pub publish_all : List (ℕ × Event) → Outbox → Outbox
publish_all [] s = s
publish_all ((now, e) ∷ es) s = publish_all es (publish now e s).1

id_of-publish_all :
    (es : List (ℕ × Event)) (s : Outbox) (k id : Ident)
    → id_of k s.events ≡ some id
    → id_of k (publish_all es s).events ≡ some id
unfolding publish_all
id_of-publish_all [] s k id h = h
id_of-publish_all ((now, e) ∷ es) s k id h =
    id_of-publish_all es (publish now e s).1 k id (id_of-publish now e s k id h)

given-some : (key : Option Ident) (k : Ident) → given key ≡ some k → key ≡ some k
unfolding given
given-some none k h = cc
given-some (some a) k h = ground (arith, h)

-- A publication with a key succeeds, and its event is the one of the key.
publish-id_of :
    (now : ℕ) (e : Event) (s : Outbox) (k : Ident)
    → given e.dedupe_key ≡ some k
    → (id : Ident) × (d : Bool) × ((publish now e s).0 ≡ ok (id, d))
      × (id_of k (publish now e s).1.events ≡ some id)
      × (d ≡ is_some (id_of k s.events))
unfolding publish existing id_of
publish-id_of now e s k h =
    let key = given-some e.dedupe_key k h in
    elim (Option-cases (first (select (keyed k) s.events))) [
      | inl n ↦
          let x = new_event now s.next_id e in
          let own : keyed k x ≡ true = ground (arith, key) in
          let hit = first-select-append (keyed k) s.events x n own in
          (
            s.next_id,
            false,
            ground (arith, h, n, key),
            ground (arith, h, n, key, hit),
            ground (arith, n),
          )
      | inr (r, f) ↦
          let kept = id_of-hit k r.id s.events in
          (r.id, true, ground (arith, h, f), ground (arith, h, f, kept), ground (arith, f))
    ]

length-update :
    (p : EventRow → Bool) (f : EventRow → EventRow) (xs : List EventRow)
    → length (update p f xs) ≡ length xs
unfolding update
length-update p f [] = refl
length-update p f (x ∷ xs) = ap suc (length-update p f xs)

-- A publication with a key that is taken is a duplicate.
duplicate :
    (now : ℕ) (e : Event) (s : Outbox) (k id : Ident)
    → given e.dedupe_key ≡ some k
    → id_of k s.events ≡ some id
    → ((publish now e s).0 ≡ ok (id, true)) × (length (publish now e s).1.events ≡ length s.events)
unfolding publish existing id_of
duplicate now e s k id h f = elim (Option-cases (first (select (keyed k) s.events))) [
  | inl n ↦ absurd (ground (arith, f, n))
  | inr (r, g) ↦
      let same =
        length-update (λ (x : EventRow). x.id == r.id)
          (λ (x : EventRow). record x { dedupe_hits = x.dedupe_hits + 1 }) s.events in
      (ground (arith, h, f, g), ground (arith, h, f, g, same))
]

-- A publication with a key succeeds. Whatever is published after it, a further publication with the
-- key answers with the same event as a duplicate, and adds no event.
pub publish-once :
    (now now' : ℕ) (e e' : Event) (es : List (ℕ × Event)) (s : Outbox) (k : Ident)
    → given e.dedupe_key ≡ some k
    → given e'.dedupe_key ≡ some k
    → let s' = publish_all es (publish now e s).1 in
      (id : Ident) × (d : Bool) × ((publish now e s).0 ≡ ok (id, d))
      × ((publish now' e' s').0 ≡ ok (id, true))
      × (length (publish now' e' s').1.events ≡ length s'.events)
publish-once now now' e e' es s k h h' =
    let (id, d, done, here, _) = publish-id_of now e s k h in
    let s' = publish_all es (publish now e s).1 in
    let kept = id_of-publish_all es (publish now e s).1 k id here in
    let (again, length_eq) = duplicate now' e' s' k id h' kept in (id, d, done, again, length_eq)
