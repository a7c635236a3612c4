-- ===== src/Merge/Output.antt =====
-- The rows that the sink has been given, and the totals of the checkpoint.
use instant_ai_data_workflow.Prelude.{
  ℕ, ◌+◌, ◌≡◌, inl, inr, refl, ap, false, Option, none, some, List, [], ◌∷◌, arith, length, String,
  string_eq, nat_eq, Option-cases,
}
use instant_ai_data_workflow.Prelude.Dict.{Dict, get, put}
use instant_ai_data_workflow.Checkpoint.{
  SourceCheckpoint, MergeCheckpoint, no_lines, source, set_source, sum_by, totals,
}
use instant_ai_data_workflow.Merge.{Services, MergeState, write_merge_chunks}
use instant_ai_data_workflow.Merge.Lines.{
  Kind, blank, parse_error, empty_text, processed, other_kind, Line, Merge, reject_cleaning,
  reject_empty, apply_scanned, apply_merge_preprocessed_line, apply_lines,
}
use instant_ai_data_workflow.Merge.Accounting.{write_merge_chunks-Tallied}

kept_at : Option SourceCheckpoint → ℕ
kept_at none = 0
kept_at (some r) = r.kept

sum_by-put :
    (d : Dict String SourceCheckpoint) (name : String) (row : SourceCheckpoint)
    → sum_by (λ r. r.kept) (put d name row) + kept_at (get d name)
      ≡ sum_by (λ r. r.kept) d + row.kept
unfolding sum_by put get kept_at
sum_by-put [] name row = omega arith
sum_by-put ((j, r) ∷ d) name row = ground (arith, sum_by-put d name row)

put-put :
    (d : Dict String SourceCheckpoint) (name : String) (row row' : SourceCheckpoint)
    → put (put d name row) name row' ≡ put d name row'
unfolding put
put-put [] name row row' = ground (arith, string_eq.same_key_iff name name)
put-put ((j, r) ∷ d) name row row' =
    ground (arith, put-put d name row row', string_eq.same_key_iff j name)

pub kept_total : MergeCheckpoint → ℕ
unfolding totals
kept_total cp = (totals cp).total_kept

kept_total-set_source :
    (name : String) (row : SourceCheckpoint) (cp : MergeCheckpoint)
    → kept_total (set_source name row (source name cp).1) + (source name cp).0.kept
      ≡ kept_total cp + row.kept
unfolding source set_source kept_at kept_total
kept_total-set_source name row cp = elim (Option-cases (get cp.sources name)) [
  | inl absent ↦
      ground (arith, put-put cp.sources name no_lines row, sum_by-put cp.sources name row)
  | inr (r, there) ↦ ground (arith, sum_by-put cp.sources name row)
]

module _ {Doc World : Type 0} (v : Services Doc World) where
  reject_cleaning-kept :
      (src : String) (rs : List (String × ℕ)) (row : SourceCheckpoint) (w : World)
      → (reject_cleaning v src rs row w).0.kept ≡ row.kept
  unfolding reject_cleaning
  reject_cleaning-kept src [] row w = refl
  reject_cleaning-kept src ((reason, n) ∷ rs) row w = reject_cleaning-kept src rs _ _

  reject_empty-kept :
      (line : Line Doc) (row : SourceCheckpoint) (w : World)
      → (reject_empty v line row w).0.kept ≡ row.kept
  unfolding reject_empty
  reject_empty-kept line row w = ground arith

  apply_scanned-output :
      (line : Line Doc) (row : SourceCheckpoint) (m : Merge Doc World) (cp : MergeCheckpoint)
      → m.checkpoint ≡ (source line.src_name cp).1
      → row.kept ≡ (source line.src_name cp).0.kept
      → length (apply_scanned v false line row m).1.output + kept_total cp
        ≡ length m.output + kept_total (apply_scanned v false line row m).1.checkpoint
  unfolding apply_scanned
  apply_scanned-output line row m cp e k =
      let (row₁, w₁) = reject_cleaning v line.src_name line.cleaning_rejects row m.services_world in
      let s₁ : MergeState Doc World = record { src_state = row₁; rows = m.output; world = w₁ } in
      let s₂ = (write_merge_chunks v line.src_name false line.chunks s₁).1 in
      let row₂ = (reject_empty v line s₂.src_state s₂.world).0 in
      let t = write_merge_chunks-Tallied v line.src_name line.chunks s₁ in
      let c = reject_cleaning-kept line.src_name line.cleaning_rejects row m.services_world in
      let z = reject_empty-kept line s₂.src_state s₂.world in
      let total : kept_total (set_source line.src_name row₂ m.checkpoint) + row.kept
          ≡ kept_total cp + row₂.kept =
        omega (
          arith,
          kept_total-set_source line.src_name row₂ cp,
          ap (λ c. kept_total (set_source line.src_name row₂ c)) e,
          k,
        ) in
      omega (arith, t.rows_kept, c, z, total)

  -- The line leaves the sink alone.
  unwritten :
      (line : Line Doc) (m : Merge Doc World) (row : SourceCheckpoint)
      → (apply_merge_preprocessed_line v false line m).1.checkpoint
        ≡ set_source line.src_name row (source line.src_name m.checkpoint).1
      → (apply_merge_preprocessed_line v false line m).1.output ≡ m.output
      → row.kept ≡ (source line.src_name m.checkpoint).0.kept
      → length (apply_merge_preprocessed_line v false line m).1.output + kept_total m.checkpoint
        ≡ length m.output + kept_total (apply_merge_preprocessed_line v false line m).1.checkpoint
  unwritten line m row e o k =
      omega (
        arith,
        kept_total-set_source line.src_name row m.checkpoint,
        ap kept_total e,
        ap length o,
        k,
      )

  given :
      (line : Line Doc) (m : Merge Doc World) (row : SourceCheckpoint)
      → (apply_merge_preprocessed_line v false line m).1
        ≡ (apply_scanned v false line row
            (record m { checkpoint = (source line.src_name m.checkpoint).1 })).1
      → row.kept ≡ (source line.src_name m.checkpoint).0.kept
      → length (apply_merge_preprocessed_line v false line m).1.output + kept_total m.checkpoint
        ≡ length m.output + kept_total (apply_merge_preprocessed_line v false line m).1.checkpoint
  given line m row e k =
      let m₁ : Merge Doc World = record m { checkpoint = (source line.src_name m.checkpoint).1 } in
      omega (
        arith,
        apply_scanned-output line row m₁ m.checkpoint refl k,
        ap (λ (x : Merge Doc World). length x.output) e,
        ap (λ (x : Merge Doc World). kept_total x.checkpoint) e,
      )

  at_line : Line Doc → Merge Doc World → SourceCheckpoint
  at_line line m = record (source line.src_name m.checkpoint).0 { line_offset = line.line_no + 1 }

  once : SourceCheckpoint → SourceCheckpoint
  once row = record row { scanned = row.scanned + 1 }

  apply-output :
      (line : Line Doc) (m : Merge Doc World) (k : Kind)
      → line.kind ≡ k
      → length (apply_merge_preprocessed_line v false line m).1.output + kept_total m.checkpoint
        ≡ length m.output + kept_total (apply_merge_preprocessed_line v false line m).1.checkpoint
  unfolding apply_merge_preprocessed_line at_line once
  apply-output line m blank p = unwritten line m (at_line line m) (ground arith) (ground arith) refl
  apply-output line m parse_error p =
      unwritten line m (at_line line m) (ground arith) (ground arith) refl
  apply-output line m empty_text p =
      let row = once (at_line line m) in
      unwritten line m (record row { rejected = row.rejected + 1 }) (ground arith) (ground arith)
        refl
  apply-output line m processed p = given line m (once (at_line line m)) (ground arith) refl
  apply-output line m other_kind p = given line m (once (at_line line m)) (ground arith) refl

  -- Over any lines, with no stop requested, the rows that the sink has been given grow by exactly as
  -- many as the total of kept documents in the checkpoint.
  pub apply_lines-output :
      (lines : List (Line Doc)) (m : Merge Doc World)
      → length (apply_lines v false lines m).output + kept_total m.checkpoint
        ≡ length m.output + kept_total (apply_lines v false lines m).checkpoint
  unfolding apply_lines
  apply_lines-output [] m = refl
  apply_lines-output (l ∷ ls) m = omega (
    arith,
    apply-output l m l.kind refl,
    apply_lines-output ls (apply_merge_preprocessed_line v false l m).1,
  )
