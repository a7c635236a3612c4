-- ===== src/Lock.antt =====
-- src/indw/schedule/state/lock.py: the lock file of a work directory.
--
-- The file is absent, unreadable (also where it holds no dict, or an empty one), or holds a payload.
-- Times are seconds of one clock, whose reading is an argument, as is the answer of `_pid_alive` (a
-- question to the operating system). The reading and the writing of `acquire_merge_run_lock` are two
-- steps, `may_acquire` and `written`, between which other processes act, as they can in the code. The
-- error of `int` on a pid that is no number is `bad_pid`; where `release_merge_run_lock` meets it, the
-- file stays.
pub mod Exclusion
pub mod Race
mod Examples
use instant_ai_data_workflow.Prelude.{
  ℕ, ◌-◌, Bool, true, false, not, ◌&&◌, ◌||◌, Option, none, some, leb, ◌==◌, if◌then◌else◌, String,
  string_eq, nat_eq, List, [], ◌∷◌,
}

-- `started_at` is None where the text is no time, and `pid` where `int` raises; a missing pid is 0.
pub record LockPayload : Type 0 where
  pub pid : Option ℕ
  pub owner : String
  pub started_at : Option ℕ

pub data LockFile : Type 0 where
  absent : LockFile
  unreadable : LockFile
  holds : LockPayload → LockFile

unfoldable pub read_merge_run_lock : LockFile → Option LockPayload
read_merge_run_lock absent = none
read_merge_run_lock unreadable = none
read_merge_run_lock (holds l) = some l

unfoldable pub lock_age_sec : ℕ → LockPayload → ℕ
lock_age_sec now l = elim l.started_at [ none ↦ 0 | some t ↦ now - t ]

-- `not stale`
unfoldable pub is_live : (ℕ → Bool) → ℕ → ℕ → ℕ → LockPayload → Bool
unfolding lock_age_sec
is_live pid_alive stale_sec now pid l =
    (if pid == 0 then false else pid_alive pid) && not (leb stale_sec (lock_age_sec now l))

-- What the reading of `acquire_merge_run_lock` comes to: it goes on, or raises MergeRunConflictError,
-- or ValueError.
pub data Verdict : Type 0 where
  go : Verdict
  conflict : Verdict
  bad_pid : Verdict

-- `acquire_merge_run_lock` up to the building of the payload. `me` is `os.getpid()`.
unfoldable pub may_acquire : (ℕ → Bool) → ℕ → ℕ → ℕ → Bool → LockFile → Verdict
unfolding read_merge_run_lock is_live
may_acquire pid_alive stale_sec now me force file = elim (read_merge_run_lock file) [
  | none ↦ go
  | some l ↦ elim l.pid [
    | none ↦ bad_pid
    | some pid ↦
        if is_live pid_alive stale_sec now pid l
        then (if pid == me then (if force then go else conflict) else conflict)
        else go
  ]
]

-- The rest of `acquire_merge_run_lock`: the file that it writes.
unfoldable pub written : ℕ → String → ℕ → LockFile
written me owner now = holds (record { pid = some me; owner = owner; started_at = some now })

unfoldable pub release_merge_run_lock : ℕ → Option String → LockFile → LockFile
release_merge_run_lock me owner absent = absent
release_merge_run_lock me owner unreadable = absent
release_merge_run_lock me none (holds l) = absent
release_merge_run_lock me (some o) (holds l) =
    if l.owner == o
    then elim l.pid [
      | none ↦ holds l
      | some pid ↦ if pid == 0 || pid == me then absent else holds l
    ]
    else holds l

-- A process passes through the reading of `acquire_merge_run_lock`, through its writing, or out of
-- `merge_run_lock`.
pub data Event : Type 0 where
  check : (me now : ℕ) → (pid_alive : ℕ → Bool) → Event
  write : (me now : ℕ) → Event
  leave : (me : ℕ) → Event

-- The lock file, and what is no state of the code: the processes that have passed the reading and not
-- yet the writing, and the processes inside.
pub record Inside : Type 0 where
  pub file : LockFile
  pub checked : List ℕ
  pub running : List ℕ

unfoldable pub without : ℕ → List ℕ → List ℕ
without p [] = []
without p (q ∷ qs) = let rest = without p qs in if q == p then rest else q ∷ rest

unfoldable pub is_inside : ℕ → List ℕ → Bool
is_inside p [] = false
is_inside p (q ∷ qs) = q == p || is_inside p qs

unfoldable pub after_check : Verdict → ℕ → Inside → Inside
after_check go me s = record s { checked = me ∷ s.checked }
after_check conflict me s = s
after_check bad_pid me s = s

module _ (stale_sec : ℕ) (owner_of : ℕ → String) where
  -- `merge_run_lock` without force. A process writes only behind its reading, and leaves only if it is
  -- inside.
  unfoldable pub merge_run_lock : Event → Inside → Inside
  unfolding may_acquire written release_merge_run_lock without is_inside after_check
  merge_run_lock (check me now pid_alive) s =
      after_check (may_acquire pid_alive stale_sec now me false s.file) me s
  merge_run_lock (write me now) s =
      if is_inside me s.checked
      then record {
        file = written me (owner_of me) now;
        checked = without me s.checked;
        running = me ∷ s.running;
      }
      else s
  merge_run_lock (leave me) s =
      if is_inside me s.running
      then record s {
        file = release_merge_run_lock me (some (owner_of me)) s.file;
        running = without me s.running;
      }
      else s

  unfoldable pub merge_run_locks : List Event → Inside → Inside
  unfolding merge_run_lock
  merge_run_locks [] s = s
  merge_run_locks (e ∷ es) s = merge_run_locks es (merge_run_lock e s)
