-- ===== src/Lock/Race.antt =====
-- Two processes that read the lock before either of them writes it.
use instant_ai_data_workflow.Prelude.{
  ℕ, ◌≡◌, ◌≢◌, refl, Bool, true, false, [], ◌∷◌, ◌==◌, arith, String, nat_eq,
}
use instant_ai_data_workflow.Lock.{
  go, may_acquire, written, check, write, Inside, merge_run_locks, is_inside, without,
}

module _ (stale_sec : ℕ) (owner_of : ℕ → String) where
  -- Where two processes may both acquire the lock that they find, and the second reads it before the
  -- first writes, both enter: they are inside at the same time, and the file names the second alone.
  pub merge_run_locks-race :
      (s : Inside) (me other t₁ t₂ t₃ t₄ : ℕ) (alive₁ alive₂ : ℕ → Bool)
      → me ≢ other
      → may_acquire alive₁ stale_sec t₁ me false s.file ≡ go
      → may_acquire alive₂ stale_sec t₂ other false s.file ≡ go
      → let after =
          merge_run_locks stale_sec owner_of
            (check me t₁ alive₁ ∷ check other t₂ alive₂ ∷ write me t₃ ∷ write other t₄ ∷ [])
            s in
        (after.running ≡ other ∷ me ∷ s.running) × (after.file ≡ written other (owner_of other) t₄)
  unfolding merge_run_locks is_inside without
  merge_run_locks-race s me other t₁ t₂ t₃ t₄ alive₁ alive₂ apart first second =
      let ne : (other == me) ≡ false = ground (arith, apart) in
      let own : (me == me) ≡ true = ground arith in
      let own₂ : (other == other) ≡ true = ground arith in
      rw (first, second, ne, own, own₂) (refl, refl)
