-- ===== src/Lock/Examples.antt =====
-- Two processes that want the same work directory.
use instant_ai_data_workflow.Prelude.{
  ℕ, ◌≡◌, ◌≢◌, refl, Bool, true, none, List, [], ◌∷◌, arith, String, nat_eq, string_eq,
}
use instant_ai_data_workflow.Lock.{
  absent, holds, may_acquire, bad_pid, written, Event, check, write, leave, Inside, merge_run_locks,
}
use instant_ai_data_workflow.Lock.Race.{merge_run_locks-race}

abbrev always : ℕ → Bool
always p = true

abbrev merge_owner : ℕ → String
merge_owner p = "merge"

abbrev start : Inside
start = record { file = absent; checked = []; running = [] }

-- The second process is refused while the first is inside, and enters behind it.
abbrev events : List Event
events =
    check 11 5 always
    ∷ write 11 6
    ∷ check 12 6 always
    ∷ write 12 7
    ∷ leave 12
    ∷ leave 11
    ∷ check 12 900 always
    ∷ write 12 901
    ∷ []

ended : (merge_run_locks 100 merge_owner events start).running ≡ 12 ∷ []
unfolding merge_run_locks
ended = refl

-- A pid that is no number.
no_number :
    may_acquire always 100 6 12 true
      (holds (record { pid = none; owner = "merge"; started_at = none }))
    ≡ bad_pid
unfolding may_acquire
no_number = refl

apart : ◌≢◌ {A = ℕ} 11 12
apart e = absurd (omega arith)

merge_run_locks-race_example :
    let after =
      merge_run_locks 100 merge_owner
        (check 11 5 always ∷ check 12 5 always ∷ write 11 6 ∷ write 12 7 ∷ [])
        start in
    (after.running ≡ 12 ∷ 11 ∷ []) × (after.file ≡ written 12 "merge" 7)
unfolding may_acquire
merge_run_locks-race_example =
    merge_run_locks-race 100 merge_owner start 11 12 5 5 6 7 always always apart refl refl
