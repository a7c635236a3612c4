-- ===== src/Checkpoint/Unbalanced.antt =====
-- What the reconciliation with a shorter file does to the accounting of the sources.
use instant_ai_data_workflow.Prelude.{
  ℕ, ◌+◌, ◌<◌, ◌≡◌, ◌≢◌, refl, ap, inl, inr, Option, some, List, [], ◌∷◌, ◌++◌, ◌==◌, arith, nat_eq,
  Bool-cases, String,
}
use instant_ai_data_workflow.Prelude.Dict.{Dict}
use instant_ai_data_workflow.Checkpoint.{
  SourceCheckpoint, MergeCheckpoint, sum_by, totals, share, shrink, reconcile_checkpoint_output,
  source_violations, validate_merge_accounting,
}
use instant_ai_data_workflow.Checkpoint.Reconcile.{reconcile_checkpoint_output-kept}

source_violations-sums :
    (d : Dict String SourceCheckpoint)
    → source_violations d ≡ []
    → sum_by (λ r. r.scanned) d ≡ sum_by (λ r. r.kept) d + sum_by (λ r. r.rejected) d
unfolding source_violations sum_by
source_violations-sums [] none_found = refl
source_violations-sums ((name, row) ∷ d) none_found =
    elim (Bool-cases (row.scanned == row.kept + row.rejected)) [
      | inl even ↦
          let rest = source_violations-sums d (ground (arith, none_found, even)) in
          let here : row.scanned ≡ row.kept + row.rejected = ground (arith, even) in
          omega (arith, rest, here)
      | inr uneven ↦ absurd (ground (arith, none_found, uneven))
    ]

shrink-scanned :
    (f c running : ℕ) (d : Dict String SourceCheckpoint)
    → (sum_by (λ r. r.scanned) (shrink f c running d) ≡ sum_by (λ r. r.scanned) d)
      × (sum_by (λ r. r.rejected) (shrink f c running d) ≡ sum_by (λ r. r.rejected) d)
unfolding shrink sum_by share
shrink-scanned f c running [] = (refl, refl)
shrink-scanned f c running ((name, row) ∷ []) = (refl, refl)
shrink-scanned f c running ((name, row) ∷ next ∷ d) =
    let (scanned, rejected) = shrink-scanned f c (running + share row.kept f c) (next ∷ d) in
    (ap (λ (n : ℕ). row.scanned + n) scanned, ap (λ (n : ℕ). row.rejected + n) rejected)

append-nil_left : {A : Type 0} (xs ys : List A) → xs ++ ys ≡ [] → xs ≡ []
append-nil_left [] ys e = refl
append-nil_left (x ∷ xs) ys e = absurd (ground (arith, e))

-- The reconciliation with a shorter file leaves a source that is not balanced.
shrunk-violations :
    (file_lines : ℕ) (cp cp' : MergeCheckpoint)
    → source_violations cp.sources ≡ []
    → file_lines < (totals cp).total_kept
    → reconcile_checkpoint_output file_lines cp ≡ some cp'
    → source_violations cp'.sources ≢ []
unfolding reconcile_checkpoint_output totals sum_by
shrunk-violations f cp cp' even fewer e none_found =
    let c = sum_by (λ r. r.kept) cp.sources in
    let some_source : cp.sources ≢ [] =
      λ empty. absurd (omega (arith, fewer, ap (sum_by (λ r. r.kept)) empty)) in
    let kept = reconcile_checkpoint_output-kept f cp cp' some_source e in
    let shrunk : cp'.sources ≡ shrink f c 0 cp.sources = ground (arith, e, fewer) in
    let (scanned, rejected) = shrink-scanned f c 0 cp.sources in
    omega (
      arith,
      fewer,
      kept,
      source_violations-sums cp.sources even,
      source_violations-sums cp'.sources none_found,
      scanned,
      rejected,
      ap (sum_by (λ r. r.scanned)) shrunk,
      ap (sum_by (λ r. r.rejected)) shrunk,
    )

-- Where each source has scanned as many as it kept and rejected, and the file has fewer lines than were
-- kept, the accounting check fails on what the reconciliation gives, whatever the lines and the index
-- that it is asked with: lines are taken off the kept ones, and neither off the scanned ones nor to the
-- rejected ones.
pub validate_merge_accounting-reconciled :
    (file_lines : ℕ) (cp cp' : MergeCheckpoint) (asked_lines : ℕ) (exact : Option (ℕ × ℕ))
    → source_violations cp.sources ≡ []
    → file_lines < (totals cp).total_kept
    → reconcile_checkpoint_output file_lines cp ≡ some cp'
    → validate_merge_accounting cp' asked_lines exact ≢ []
unfolding validate_merge_accounting
validate_merge_accounting-reconciled f cp cp' asked_lines exact even fewer e none_found =
    shrunk-violations f cp cp' even fewer e (
      append-nil_left (source_violations cp'.sources) _
        (append-nil_left _ _ (append-nil_left _ _ none_found)))
