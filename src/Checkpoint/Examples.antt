-- ===== src/Checkpoint/Examples.antt =====
-- Two sources that kept three and five documents, against a file of four lines.
use mathlib.Core.List.{cons≢nil}
use instant_ai_data_workflow.Prelude.{ℕ, ◌≡◌, refl, true, false, some, [], ◌∷◌, nat_eq}
use instant_ai_data_workflow.Checkpoint.{
  MergeCheckpoint, totals, reconcile_checkpoint_output, source_violations,
  validate_merge_accounting,
}
use instant_ai_data_workflow.Checkpoint.Unbalanced.{validate_merge_accounting-reconciled}
use instant_ai_data_workflow.Prelude.{◌≢◌, ◌<◌, none, arith, string_eq}
use instant_ai_data_workflow.Checkpoint.Reconcile.{reconcile_checkpoint_output-kept}

abbrev checkpoint : (web books : ℕ) → MergeCheckpoint
checkpoint web books = record {
  complete = false;
  interrupted = true;
  sources =
      ("web", record { line_offset = 9; scanned = 9; kept = web; rejected = 6 })
      ∷ ("books", record { line_offset = 8; scanned = 8; kept = books; rejected = 3 })
      ∷ [];
  filtered_line_count = 8;
}

reconciled : reconcile_checkpoint_output 4 (checkpoint 3 5) ≡ some (checkpoint 1 3)
unfolding reconcile_checkpoint_output
reconciled = refl

reconcile_checkpoint_output-kept_example : (totals (checkpoint 1 3)).total_kept ≡ 4
reconcile_checkpoint_output-kept_example =
    reconcile_checkpoint_output-kept 4 (checkpoint 3 5) (checkpoint 1 3) cons≢nil reconciled

balanced : source_violations (checkpoint 3 5).sources ≡ []
unfolding source_violations
balanced = refl

fewer_lines : 4 < (totals (checkpoint 3 5)).total_kept
unfolding totals
fewer_lines = omega arith

validate_merge_accounting-reconciled_example :
    validate_merge_accounting (checkpoint 1 3) 4 none ≢ []
validate_merge_accounting-reconciled_example =
    validate_merge_accounting-reconciled 4 (checkpoint 3 5) (checkpoint 1 3) 4 none balanced
      fewer_lines reconciled
