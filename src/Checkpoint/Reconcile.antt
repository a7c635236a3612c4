-- ===== src/Checkpoint/Reconcile.antt =====
-- The totals of a checkpoint after its reconciliation with the output file.
use instant_ai_data_workflow.Prelude.{
  ℕ, zero, suc, ◌+◌, ◌*◌, ◌≤◌, ◌<◌, ◌≡◌, ◌≢◌, refl, some, [], ◌∷◌, arith, String, string_eq, nat_eq,
}
use instant_ai_data_workflow.Prelude.Dict.{Dict}
use native.Mathlib.Nat.{
  div-mul-le_self, mul-le-mul_right, le_of_mul-le-mul_right, add-mul, mul_comm,
}
use instant_ai_data_workflow.Checkpoint.{
  SourceCheckpoint, MergeCheckpoint, sum_by, totals, share, shrink, grow,
  reconcile_checkpoint_output,
}

share-le :
    (kept file_lines cp_kept : ℕ)
    → 0 < cp_kept
    → share kept file_lines cp_kept * cp_kept ≤ kept * file_lines
unfolding share
share-le kept file_lines cp_kept pos = ground (arith, div-mul-le_self (kept * file_lines) cp_kept)

-- A part shared out in proportion is no more than the whole.
shared :
    (running cp_kept before file_lines : ℕ)
    → 0 < cp_kept
    → before ≤ cp_kept
    → running * cp_kept ≤ before * file_lines
    → running ≤ file_lines
shared running cp_kept before file_lines pos le h =
    le_of_mul-le-mul_right
      (omega (arith, h, mul-le-mul_right file_lines le, mul_comm cp_kept file_lines)) pos

grown_share :
    (running s c before k f : ℕ)
    → running * c ≤ before * f
    → s * c ≤ k * f
    → (running + s) * c ≤ (before + k) * f
grown_share running s c before k f h g = omega (arith, add-mul running s c, add-mul before k f)

shrink-sum :
    (file_lines cp_kept running before : ℕ) (p : String × SourceCheckpoint)
    (d : Dict String SourceCheckpoint)
    → 0 < cp_kept
    → before + sum_by (λ r. r.kept) (p ∷ d) ≡ cp_kept
    → running * cp_kept ≤ before * file_lines
    → running + sum_by (λ r. r.kept) (shrink file_lines cp_kept running (p ∷ d)) ≡ file_lines
unfolding shrink sum_by
shrink-sum f c running before (name, row) [] pos all le =
    omega (arith, shared running c before f pos (omega arith) le)
shrink-sum f c running before (name, row) (next ∷ d) pos all le =
    let s = share row.kept f c in
    omega (
      arith,
      shrink-sum f c (running + s) (before + row.kept) next d pos (omega arith)
          (grown_share running s c before row.kept f le (share-le row.kept f c pos)),
    )

grow-sum :
    (file_lines cp_kept running before : ℕ) (p : String × SourceCheckpoint)
    (d : Dict String SourceCheckpoint)
    → 0 < cp_kept
    → before + sum_by (λ r. r.kept) (p ∷ d) ≡ cp_kept
    → running * cp_kept ≤ before * file_lines
    → running + sum_by (λ r. r.kept) (grow file_lines cp_kept running (p ∷ d)) ≡ file_lines
unfolding grow sum_by
grow-sum f c running before (name, row) [] pos all le =
    omega (arith, shared running c before f pos (omega arith) le)
grow-sum f c running before (name, row) (next ∷ d) pos all le =
    let s = share row.kept f c in
    omega (
      arith,
      grow-sum f c (running + s) (before + row.kept) next d pos (omega arith)
          (grown_share running s c before row.kept f le (share-le row.kept f c pos)),
    )

-- Where nothing was kept, the last source gets all lines of the file.
grow-sum_zero :
    (file_lines : ℕ) (p : String × SourceCheckpoint) (d : Dict String SourceCheckpoint)
    → sum_by (λ r. r.kept) (grow file_lines 0 0 (p ∷ d)) ≡ file_lines
unfolding grow sum_by share
grow-sum_zero f (name, row) [] = omega arith
grow-sum_zero f (name, row) (next ∷ d) = omega (arith, grow-sum_zero f next d)

shrink-all :
    (f c : ℕ) (d : Dict String SourceCheckpoint)
    → d ≢ []
    → sum_by (λ r. r.kept) d ≡ c
    → f < c
    → sum_by (λ r. r.kept) (shrink f c 0 d) ≡ f
shrink-all f c [] ne e lt = absurd (ne refl)
shrink-all f c (p ∷ d) ne e lt =
    omega (arith, shrink-sum f c 0 0 p d (omega arith) (omega arith) (omega arith))

grow-all :
    (f c : ℕ) (d : Dict String SourceCheckpoint)
    → d ≢ []
    → sum_by (λ r. r.kept) d ≡ c
    → sum_by (λ r. r.kept) (grow f c 0 d) ≡ f
grow-all f c [] ne e = absurd (ne refl)
grow-all f zero (p ∷ d) ne e = grow-sum_zero f p d
grow-all f (suc c) (p ∷ d) ne e =
    omega (arith, grow-sum f (suc c) 0 0 p d (omega arith) (omega arith) (omega arith))

-- Whenever `reconcile_checkpoint_output` returns, on a checkpoint with a source, the lines kept, over
-- all sources, are the lines of the file.
pub reconcile_checkpoint_output-kept :
    (file_lines : ℕ) (cp cp' : MergeCheckpoint)
    → cp.sources ≢ []
    → reconcile_checkpoint_output file_lines cp ≡ some cp'
    → (totals cp').total_kept ≡ file_lines
unfolding reconcile_checkpoint_output totals
reconcile_checkpoint_output-kept f cp cp' some_source e =
    let c = sum_by (λ r. r.kept) cp.sources in
    let less = shrink-all f c cp.sources some_source refl in
    let more = grow-all f c cp.sources some_source refl in ground arith
