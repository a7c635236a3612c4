-- ===== src/Lock/Exclusion.antt =====
-- Which processes are inside `merge_run_lock` at the same time.
use instant_ai_data_workflow.Prelude.{
  ℕ, ◌<◌, ◌≡◌, ◌≢◌, ◌⊎◌, Bool, true, some, List, [], ◌∷◌, String,
}
use instant_ai_data_workflow.Lock.{
  LockFile, absent, unreadable, holds, lock_age_sec, written, Event, check, write, leave, Inside,
  merge_run_lock,
}

module _ (stale_sec : ℕ) (owner_of : ℕ → String) where
  -- The process that the file names is alive, and the lock is younger than the limit.
  unfoldable pub Held : (ℕ → Bool) → ℕ → LockFile → Type 0
  Held pid_alive now absent = Unit
  Held pid_alive now unreadable = Unit
  Held pid_alive now (holds l) =
      ((p : ℕ) → l.pid ≡ some p → pid_alive p ≡ true) × (lock_age_sec now l < stale_sec)

  -- Nobody is between the reading and the writing when a process reads, and the lock that it finds is
  -- held.
  unfoldable pub Fits : Event → Inside → Type 0
  unfolding Held
  Fits (check me now pid_alive) s = (me ≢ 0) × (s.checked ≡ []) × Held pid_alive now s.file
  Fits (write me now) s = Unit
  Fits (leave me) s = Unit

  -- Every event fits the state that it meets.
  unfoldable pub Orderly : List Event → Inside → Type 0
  unfolding Fits merge_run_lock
  Orderly [] s = Unit
  Orderly (e ∷ es) s = Fits e s × Orderly es (merge_run_lock stale_sec owner_of e s)

  -- No process is inside or about to write, and there is no file.
  Free : Inside → Type 0
  Free s = (s.checked ≡ []) × (s.running ≡ []) × (s.file ≡ absent)

  -- One process is about to write, and there is no file.
  Entering : Inside → Type 0
  Entering s = (p : ℕ) × (p ≢ 0) × (s.checked ≡ p ∷ []) × (s.running ≡ []) × (s.file ≡ absent)

  -- One process is inside, and the file is its own.
  Taken : Inside → Type 0
  Taken s =
      (p : ℕ) × (t : ℕ) × (p ≢ 0)
      × (s.checked ≡ [])
      × (s.running ≡ p ∷ [])
      × (s.file ≡ written p (owner_of p) t)

  Sole : Inside → Type 0
  Sole s = Free s ⊎ Entering s ⊎ Taken s
