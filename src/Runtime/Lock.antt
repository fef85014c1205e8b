-- ===== src/Runtime/Lock.antt =====
-- The lock of a run within one process (app/storage/lock.py, `RunLockService` without Redis). A lock is
-- held while its run is in the table; a lock that is held keeps the time at which its lease ends.
pub mod Hold
use new_rag.Base.{
  ℕ, ◌+◌, Bool, true, false, Option, none, some, List, [], ◌∷◌, ltb, ◌==◌, if◌then◌else◌, Ident,
}

abbrev pub LockTable : Type 0
LockTable = List (Ident × ℕ)

-- `self._local.get(run_id)`
unfoldable pub expires : Ident → LockTable → Option ℕ
expires run_id [] = none
expires run_id ((r, at) ∷ rest) = if r == run_id then some at else expires run_id rest

unfoldable pub acquire : ℕ → ℕ → Ident → LockTable → Bool × LockTable
acquire ttl now run_id locks = elim (expires run_id locks) [
  | some _ ↦ (false, locks)
  | none ↦ (true, (run_id, now + ttl) ∷ locks)
]

unfoldable pub release : Ident → LockTable → LockTable
release run_id [] = []
release run_id ((r, at) ∷ rest) =
    let kept = release run_id rest in if r == run_id then kept else (r, at) ∷ kept

unfoldable pub touch : ℕ → ℕ → Ident → LockTable → LockTable
touch ttl now run_id [] = []
touch ttl now run_id ((r, at) ∷ rest) =
    let kept = touch ttl now run_id rest in (if r == run_id then (r, now + ttl) else (r, at)) ∷ kept

unfoldable pub is_expired : ℕ → Ident → LockTable → Bool
is_expired now run_id locks = elim (expires run_id locks) [ none ↦ true | some at ↦ ltb at now ]
