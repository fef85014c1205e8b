-- ===== src/Runtime/Lock/Hold.antt =====
-- A held lock through any calls of the service (app/storage/lock.py). With Redis, whose branch is not
-- modelled, a lock expires.
use mathlib.Core.Path.{◌∙◌, ap}
use new_rag.Base.{ℕ, ◌≡◌, ◌≢◌, arith, refl, true, false, none, List, [], ◌∷◌, Ident, is_some}
use new_rag.Runtime.Lock.{LockTable, expires, acquire, release, touch}

-- The calls of the service, each at its time.
pub data Call : Type 0 where
  acquires releases touches : ℕ → Ident → Call

unfoldable pub apply : ℕ → LockTable → Call → LockTable
apply ttl locks (acquires now r) = (acquire ttl now r locks).1
apply ttl locks (releases now r) = release r locks
apply ttl locks (touches now r) = touch ttl now r locks

unfoldable pub apply_all : ℕ → LockTable → List Call → LockTable
unfolding apply
apply_all ttl locks [] = locks
apply_all ttl locks (c ∷ cs) = apply_all ttl (apply ttl locks c) cs

-- No call of `cs` releases the run.
unfoldable pub IsHolding : Ident → List Call → Type 0
IsHolding run_id [] = Unit {0}
IsHolding run_id (releases _ r ∷ cs) = (r ≢ run_id) × IsHolding run_id cs
IsHolding run_id (acquires _ _ ∷ cs) = IsHolding run_id cs
IsHolding run_id (touches _ _ ∷ cs) = IsHolding run_id cs

expires-release :
    (r s : Ident) (locks : LockTable) → r ≢ s → expires s (release r locks) ≡ expires s locks
unfolding release expires
expires-release r s [] ne = refl
expires-release r s ((q, at) ∷ rest) ne = ground (arith, ne, expires-release r s rest ne)

expires-touch :
    (ttl now : ℕ) (r s : Ident) (locks : LockTable)
    → is_some (expires s (touch ttl now r locks)) ≡ is_some (expires s locks)
unfolding touch expires
expires-touch ttl now r s [] = refl
expires-touch ttl now r s ((q, at) ∷ rest) = ground (arith, expires-touch ttl now r s rest)

expires-acquire :
    (ttl now : ℕ) (r s : Ident) (locks : LockTable)
    → is_some (expires s locks) ≡ true
    → is_some (expires s (acquire ttl now r locks).1) ≡ true
unfolding acquire expires
expires-acquire ttl now r s locks h = ground (arith, h)

expires-acquired :
    (ttl now : ℕ) (s : Ident) (locks : LockTable)
    → is_some (expires s (acquire ttl now s locks).1) ≡ true
unfolding acquire expires
expires-acquired ttl now s locks = ground arith

held :
    (ttl : ℕ) (s : Ident) (cs : List Call) (locks : LockTable)
    → is_some (expires s locks) ≡ true
    → IsHolding s cs
    → is_some (expires s (apply_all ttl locks cs)) ≡ true
unfolding apply_all apply IsHolding
held ttl s [] locks h k = h
held ttl s (acquires now r ∷ cs) locks h k =
    held ttl s cs (acquire ttl now r locks).1 (expires-acquire ttl now r s locks h) k
held ttl s (touches now r ∷ cs) locks h k =
    held ttl s cs (touch ttl now r locks) (expires-touch ttl now r s locks ∙ h) k
held ttl s (releases now r ∷ cs) locks h k =
    held ttl s cs (release r locks) (ap is_some (expires-release r s locks k.0) ∙ h) k.1

-- Without Redis, in one process: a run whose lock is acquired is not acquired again, at whatever time
-- and even after the end of its lease, through any calls of which none releases it.
pub acquire-sole :
    (ttl now later : ℕ) (run_id : Ident) (locks : LockTable) (cs : List Call)
    → (acquire ttl now run_id locks).0 ≡ true
    → IsHolding run_id cs
    → (acquire ttl later run_id (apply_all ttl (acquire ttl now run_id locks).1 cs)).0 ≡ false
unfolding acquire expires
acquire-sole ttl now later run_id locks cs h k = ground (
  arith,
  held ttl run_id cs (acquire ttl now run_id locks).1 (expires-acquired ttl now run_id locks) k,
)

-- After its release a run is acquired, whoever held it.
pub acquire-release :
    (ttl now : ℕ) (run_id : Ident) (locks : LockTable)
    → (acquire ttl now run_id (release run_id locks)).0 ≡ true
unfolding acquire expires release
acquire-release ttl now run_id locks = ground (arith, gone run_id locks)
  where
    gone : (r : Ident) (locks : LockTable) → expires r (release r locks) ≡ none
    gone r [] = refl
    gone r ((q, at) ∷ rest) = ground (arith, gone r rest)
