-- ===== src/Merge/Lines.antt =====
-- `apply_merge_preprocessed_line` of src/indw/schedule/apply/merge.py.
--
-- The row of the line's source, which the code changes in place, is taken from the checkpoint at the
-- start and put back at the end.
use instant_ai_data_workflow.Prelude.{
  ℕ, ◌+◌, Bool, true, false, none, List, [], ◌∷◌, String, string_eq, if◌then◌else◌,
}
use instant_ai_data_workflow.Checkpoint.{SourceCheckpoint, MergeCheckpoint, source, set_source}
use instant_ai_data_workflow.Merge.{Chunk, Services, write_merge_chunks}

pub data Kind : Type 0 where
  blank : Kind
  parse_error : Kind
  empty_text : Kind
  processed : Kind
  other_kind : Kind

-- A cleaning reject is its reason and the length of the text.
pub record Line (Doc : Type 0) : Type 0 where
  pub src_name : String
  pub line_no : ℕ
  pub kind : Kind
  pub chunks : List (Chunk Doc)
  pub cleaning_rejects : List (String × ℕ)

pub record Merge (Doc World : Type 0) : Type 0 where
  pub checkpoint : MergeCheckpoint
  pub total_scanned : ℕ
  pub skipped_parse : ℕ
  pub output : List (Chunk Doc)
  pub services_world : World

unfoldable pub nothing_came : {A B : Type 0} → List A → List B → Bool
nothing_came [] [] = true
nothing_came [] (b ∷ bs) = false
nothing_came (a ∷ as') bs = false

module _ {Doc World : Type 0} (v : Services Doc World) where
  unfoldable pub reject_cleaning :
      String → List (String × ℕ) → SourceCheckpoint → World → SourceCheckpoint × World
  reject_cleaning src [] row w = (row, w)
  reject_cleaning src ((reason, text_len) ∷ rs) row w =
      reject_cleaning src rs (record row { rejected = row.rejected + 1 })
        (v.record_merge_reject reason src none (v.record_reject reason text_len w))

  -- `if kind == 'processed' and not chunks and not cleaning_rejects`
  unfoldable pub reject_empty : Line Doc → SourceCheckpoint → World → SourceCheckpoint × World
  unfolding nothing_came
  reject_empty line row w =
      let rejected_row = record row { rejected = row.rejected + 1 } in
      let w' =
        v.record_merge_reject "empty_after_cleaning" line.src_name none
          (v.record_reject "empty_after_cleaning" 0 w) in
      elim line.kind [
        | processed ↦
            if nothing_came line.chunks line.cleaning_rejects then (rejected_row, w') else (row, w)
        | _ ↦ (row, w)
      ]

  -- A line that was scanned: the row of its source has been counted.
  unfoldable pub apply_scanned :
      Bool → Line Doc → SourceCheckpoint → Merge Doc World → Bool × Merge Doc World
  unfolding reject_cleaning reject_empty set_source write_merge_chunks
  apply_scanned stop line row m =
      let (row₁, w₁) = reject_cleaning line.src_name line.cleaning_rejects row m.services_world in
      let written =
        write_merge_chunks v line.src_name stop line.chunks
          (record { src_state = row₁; rows = m.output; world = w₁ }) in
      let (row₂, w₂) = reject_empty line written.1.src_state written.1.world in
      (
        written.0,
        record m {
          checkpoint = set_source line.src_name row₂ m.checkpoint;
          total_scanned = m.total_scanned + 1;
          output = written.1.rows;
          services_world = w₂;
        },
      )

  unfoldable pub apply_merge_preprocessed_line :
      Bool → Line Doc → Merge Doc World → Bool × Merge Doc World
  unfolding source set_source apply_scanned
  apply_merge_preprocessed_line stop line m =
      let (row, cp) = source line.src_name m.checkpoint in
      let row₁ = record row { line_offset = line.line_no + 1 } in
      let m₁ = record m { checkpoint = set_source line.src_name row₁ cp } in
      let row₂ = record row₁ { scanned = row₁.scanned + 1 } in
      elim line.kind [
        | blank ↦ (false, m₁)
        | parse_error ↦ (false, record m₁ { skipped_parse = m.skipped_parse + 1 })
        | empty_text ↦ (
          false,
          record m₁ {
            checkpoint = set_source line.src_name (record row₂ { rejected = row₂.rejected + 1 }) cp;
            total_scanned = m.total_scanned + 1;
            services_world = v.record_reject "empty" 0 m.services_world;
          },
        )
        | _ ↦ apply_scanned stop line row₂ (record m { checkpoint = cp })
      ]

  unfoldable pub apply_lines : Bool → List (Line Doc) → Merge Doc World → Merge Doc World
  unfolding apply_merge_preprocessed_line
  apply_lines stop [] m = m
  apply_lines stop (l ∷ ls) m = apply_lines stop ls (apply_merge_preprocessed_line stop l m).1
