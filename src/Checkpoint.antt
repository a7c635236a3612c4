-- ===== src/Checkpoint.antt =====
-- src/indw/schedule/state/checkpoint.py: the counters of each source, their totals, and their
-- reconciliation with the output file; and src/indw/schedule/monitor/invariants.py, the accounting check.
--
-- The file is its number of lines. `int(row.kept * file_lines / cp_kept)` divides floats; below
-- 2 ^ 53 that is the quotient of the integers, which stands here.
pub mod Reconcile
pub mod Unbalanced
mod Examples
use instant_ai_data_workflow.Prelude.{
  ℕ, zero, suc, ◌+◌, ◌-◌, ◌*◌, ◌/◌, ◌≡◌, Bool, true, false, not, ◌&&◌, Option, none, some, List, [],
  ◌∷◌, ◌++◌, ltb, ◌==◌, if◌then◌else◌, length, String, string_eq, nat_eq,
}
use instant_ai_data_workflow.Prelude.Dict.{Dict, get, put}

pub record SourceCheckpoint : Type 0 where
  pub line_offset : ℕ
  pub scanned : ℕ
  pub kept : ℕ
  pub rejected : ℕ

abbrev pub no_lines : SourceCheckpoint
no_lines = record { line_offset = 0; scanned = 0; kept = 0; rejected = 0 }

-- The fields of `MergeCheckpoint` that the functions here read.
pub record MergeCheckpoint : Type 0 where
  pub complete : Bool
  pub interrupted : Bool
  pub sources : Dict String SourceCheckpoint
  pub filtered_line_count : ℕ

-- `self.sources[name]`, which is made if it is missing.
unfoldable pub source : String → MergeCheckpoint → SourceCheckpoint × MergeCheckpoint
source name cp = elim (get cp.sources name) [
  | some row ↦ (row, cp)
  | none ↦ (no_lines, record cp { sources = put cp.sources name no_lines })
]

-- The mutation of the row of a source.
unfoldable pub set_source : String → SourceCheckpoint → MergeCheckpoint → MergeCheckpoint
set_source name row cp = record cp { sources = put cp.sources name row }

pub record Totals : Type 0 where
  pub total_scanned : ℕ
  pub total_kept : ℕ
  pub total_rejected : ℕ

unfoldable pub sum_by : (SourceCheckpoint → ℕ) → Dict String SourceCheckpoint → ℕ
sum_by f [] = 0
sum_by f ((name, row) ∷ d) = f row + sum_by f d

unfoldable pub totals : MergeCheckpoint → Totals
unfolding sum_by
totals cp = record {
  total_scanned = sum_by (λ r. r.scanned) cp.sources;
  total_kept = sum_by (λ r. r.kept) cp.sources;
  total_rejected = sum_by (λ r. r.rejected) cp.sources;
}

unfoldable pub any_name : String → List String → Bool
any_name name [] = false
any_name name (v ∷ vs) = if v == name then true else any_name name vs

-- The names removed, and the sources that stay.
unfoldable pub prune :
    List String → Dict String SourceCheckpoint → List String × Dict String SourceCheckpoint
unfolding any_name
prune valid [] = ([], [])
prune valid ((name, row) ∷ d) =
    let (removed, left) = prune valid d in
    if any_name name valid then (removed, (name, row) ∷ left) else (name ∷ removed, left)

unfoldable pub prune_sources : List String → MergeCheckpoint → List String × MergeCheckpoint
unfolding prune
prune_sources valid cp =
    let (removed, left) = prune valid cp.sources in (removed, record cp { sources = left })

-- `int(row.kept * file_lines / cp_kept) if cp_kept else 0`
unfoldable pub share : ℕ → ℕ → ℕ → ℕ
share kept file_lines cp_kept = if cp_kept == 0 then 0 else kept * file_lines / cp_kept

-- The loop for a file with fewer lines than were kept: `running` is what has been shared out.
unfoldable pub shrink : ℕ → ℕ → ℕ → Dict String SourceCheckpoint → Dict String SourceCheckpoint
unfolding share
shrink file_lines cp_kept running [] = []
shrink file_lines cp_kept running ((name, row) ∷ []) =
    (name, record row { kept = file_lines - running }) ∷ []
shrink file_lines cp_kept running ((name, row) ∷ next ∷ d) =
    let s = share row.kept file_lines cp_kept in
    (name, record row { kept = s }) ∷ shrink file_lines cp_kept (running + s) (next ∷ d)

-- The loop for a file with more lines. `scanned` moves with `kept`; where it would go below 0 it
-- stops at 0 here.
unfoldable pub grow : ℕ → ℕ → ℕ → Dict String SourceCheckpoint → Dict String SourceCheckpoint
unfolding share
grow file_lines cp_kept running [] = []
grow file_lines cp_kept running ((name, row) ∷ []) =
    let new_kept = file_lines - running in
    (name, record row { scanned = row.scanned + new_kept - row.kept; kept = new_kept }) ∷ []
grow file_lines cp_kept running ((name, row) ∷ next ∷ d) =
    let new_kept = share row.kept file_lines cp_kept in
    (name, record row { scanned = row.scanned + new_kept - row.kept; kept = new_kept })
    ∷ grow file_lines cp_kept (running + new_kept) (next ∷ d)

-- None where the code raises MergeAccountingError: the file is empty and lines were kept.
unfoldable pub reconcile_checkpoint_output : ℕ → MergeCheckpoint → Option MergeCheckpoint
unfolding totals shrink grow
reconcile_checkpoint_output file_lines cp =
    let cp_kept = (totals cp).total_kept in
    if file_lines == cp_kept
    then some cp
    else if file_lines == 0 && ltb 0 cp_kept
    then none
    else if ltb file_lines cp_kept
    then some (record cp { sources = shrink file_lines cp_kept 0 cp.sources })
    else some (record cp { sources = grow file_lines cp_kept 0 cp.sources })

-- The violations that `validate_merge_accounting` reports: of a source, of the totals, of the file
-- and of the exact index.
pub data Violation : Type 0 where
  source_unbalanced : String → Violation
  totals_unbalanced : Violation
  file_mismatch : Violation
  index_too_small : Violation

unfoldable pub source_violations : Dict String SourceCheckpoint → List Violation
source_violations [] = []
source_violations ((name, row) ∷ d) =
    let rest = source_violations d in
    if row.scanned == row.kept + row.rejected then rest else source_unbalanced name ∷ rest

-- `exact` is the size of the exact index and its count of kept documents, if there is one.
unfoldable pub validate_merge_accounting : MergeCheckpoint → ℕ → Option (ℕ × ℕ) → List Violation
unfolding source_violations totals
validate_merge_accounting cp file_lines exact =
    let t = totals cp in
    let small : Bool = elim exact [
      | none ↦ false
      | some (exact_size, exact_kept) ↦
          ltb 0 t.total_kept && ltb 0 exact_kept && ltb exact_size t.total_kept
    ] in
    source_violations cp.sources
    ++ (if t.total_scanned == t.total_kept + t.total_rejected then [] else totals_unbalanced ∷ [])
    ++ (if file_lines == t.total_kept then [] else file_mismatch ∷ [])
    ++ (if small then index_too_small ∷ [] else [])
