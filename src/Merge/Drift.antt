-- ===== src/Merge/Drift.antt =====
-- The counters of a source after a line, and when the accounting check accepts them.
use instant_ai_data_workflow.Prelude.{
  ℕ, ◌+◌, ◌≡◌, ◌≢◌, ◌⊎◌, inl, inr, refl, ap, ◌∙◌, false, none, some, List, [], ◌∷◌, max, arith,
  length, String, string_eq, nat_eq, Option-cases, if◌then◌else◌,
}
use instant_ai_data_workflow.Prelude.Dict.{get, get-put}
use instant_ai_data_workflow.Checkpoint.{
  SourceCheckpoint, MergeCheckpoint, no_lines, source, set_source,
}
use instant_ai_data_workflow.Merge.{Services, MergeState, write_merge_chunks}
use instant_ai_data_workflow.Merge.Lines.{
  Kind, blank, parse_error, empty_text, processed, other_kind, Line, Merge, nothing_came,
  reject_cleaning, reject_empty, apply_scanned, apply_merge_preprocessed_line,
}
use instant_ai_data_workflow.Merge.Accounting.{write_merge_chunks-Tallied}

-- How many kept or rejected documents a line counts for, and whether it counts as scanned.
unfoldable pub outcomes : {Doc : Type 0} → Line Doc → ℕ
outcomes line = elim line.kind [
  | blank ↦ 0
  | parse_error ↦ 0
  | empty_text ↦ 1
  | processed ↦ max 1 (length line.chunks + length line.cleaning_rejects)
  | other_kind ↦ length line.chunks + length line.cleaning_rejects
]

unfoldable pub scans : Kind → ℕ
scans blank = 0
scans parse_error = 0
scans empty_text = 1
scans processed = 1
scans other_kind = 1

-- The row of a source, of zeros where the checkpoint has none.
unfoldable pub row_of : String → MergeCheckpoint → SourceCheckpoint
row_of name cp = elim (get cp.sources name) [ none ↦ no_lines | some row ↦ row ]

-- `row` has become `row'` by `n` outcomes.
record Grew (n : ℕ) (row row' : SourceCheckpoint) : Type 0 where
  pub offset_same : row'.line_offset ≡ row.line_offset
  pub scanned_same : row'.scanned ≡ row.scanned
  pub grown : row'.kept + row'.rejected ≡ row.kept + row.rejected + n

-- `row` has become `row'` by a line: the new offset, how often it was scanned, and its outcomes.
pub record Counts (offset scanned_by outcomes_of : ℕ) (row row' : SourceCheckpoint) : Type 0 where
  pub offset_set : row'.line_offset ≡ offset
  pub scanned_once : row'.scanned ≡ row.scanned + scanned_by
  pub outcomes_added : row'.kept + row'.rejected ≡ row.kept + row.rejected + outcomes_of

source-row_of : (name : String) (cp : MergeCheckpoint) → (source name cp).0 ≡ row_of name cp
unfolding source row_of
source-row_of name cp = elim (Option-cases (get cp.sources name)) [
  | inl absent ↦ rw (absent, source, row_of) refl
  | inr (row, there) ↦ rw (there, source, row_of) refl
]

row_of-set_source :
    (name : String) (row : SourceCheckpoint) (cp : MergeCheckpoint)
    → row_of name (set_source name row cp) ≡ row
unfolding row_of set_source
row_of-set_source name row cp =
    ground (arith, get-put cp.sources name row name, string_eq.same_key_iff name name)

module _ {Doc World : Type 0} (v : Services Doc World) where
  reject_cleaning-Grew :
      (src : String) (rs : List (String × ℕ)) (row : SourceCheckpoint) (w : World)
      → Grew (length rs) row (reject_cleaning v src rs row w).0
  unfolding reject_cleaning
  reject_cleaning-Grew src [] row w = record {
    offset_same = refl;
    scanned_same = refl;
    grown = omega arith;
  }
  reject_cleaning-Grew src ((reason, n) ∷ rs) row w =
      let row₁ : SourceCheckpoint = record row { rejected = row.rejected + 1 } in
      let g =
        reject_cleaning-Grew src rs row₁
          (v.record_merge_reject reason src none (v.record_reject reason n w)) in
      record {
        offset_same = g.offset_same;
        scanned_same = g.scanned_same;
        grown = omega (arith, g.grown);
      }

  reject_empty-Grew :
      (line : Line Doc) (row : SourceCheckpoint) (w : World)
      → line.kind ≡ processed
      → Grew
          (if nothing_came line.chunks line.cleaning_rejects then 1 else 0)
          row
          (reject_empty v line row w).0
  unfolding reject_empty
  reject_empty-Grew line row w p = record {
    offset_same = ground arith;
    scanned_same = ground arith;
    grown = ground arith;
  }

  reject_empty-Grew_other :
      (line : Line Doc) (row : SourceCheckpoint) (w : World)
      → line.kind ≡ other_kind
      → Grew 0 row (reject_empty v line row w).0
  unfolding reject_empty
  reject_empty-Grew_other line row w p = record {
    offset_same = ground arith;
    scanned_same = ground arith;
    grown = ground arith;
  }

  nothing_came-count :
      {A B : Type 0} (xs : List A) (ys : List B)
      → length xs + length ys + (if nothing_came xs ys then 1 else 0)
        ≡ max 1 (length xs + length ys)
  unfolding nothing_came
  nothing_came-count [] [] = omega arith
  nothing_came-count [] (y ∷ ys) = omega arith
  nothing_came-count (x ∷ xs) ys = omega arith

  -- The row of the source after a line whose chunks were written.
  final_row : Line Doc → SourceCheckpoint → Merge Doc World → SourceCheckpoint
  final_row line row m =
      let (row₁, w₁) = reject_cleaning v line.src_name line.cleaning_rejects row m.services_world in
      let s =
        (write_merge_chunks v line.src_name false line.chunks
          (record { src_state = row₁; rows = m.output; world = w₁ })).1 in
      (reject_empty v line s.src_state s.world).0

  apply_scanned-row_of :
      (line : Line Doc) (row : SourceCheckpoint) (m : Merge Doc World)
      → row_of line.src_name (apply_scanned v false line row m).1.checkpoint ≡ final_row line row m
  unfolding apply_scanned final_row
  apply_scanned-row_of line row m =
      row_of-set_source line.src_name (final_row line row m) m.checkpoint

  final_row-Grew :
      (n : ℕ) (line : Line Doc) (row : SourceCheckpoint) (m : Merge Doc World)
      → ((r : SourceCheckpoint) (w : World) → Grew n r (reject_empty v line r w).0)
      → Grew (length line.cleaning_rejects + length line.chunks + n) row (final_row line row m)
  unfolding final_row
  final_row-Grew n line row m last =
      let (row₁, w₁) = reject_cleaning v line.src_name line.cleaning_rejects row m.services_world in
      let s₁ : MergeState Doc World = record { src_state = row₁; rows = m.output; world = w₁ } in
      let s₂ = (write_merge_chunks v line.src_name false line.chunks s₁).1 in
      let g = reject_cleaning-Grew line.src_name line.cleaning_rejects row m.services_world in
      let t = write_merge_chunks-Tallied v line.src_name line.chunks s₁ in
      let z = last s₂.src_state s₂.world in
      record {
        offset_same = z.offset_same ∙ t.offset_kept ∙ g.offset_same;
        scanned_same = z.scanned_same ∙ t.scanned_kept ∙ g.scanned_same;
        grown = omega (arith, g.grown, t.each_once, z.grown);
      }

  scanned-Counts :
      (line : Line Doc) (row : SourceCheckpoint) (m : Merge Doc World) (k : Kind)
      → line.kind ≡ k
      → scans k ≡ 1
      → k ≢ empty_text
      → Grew (outcomes line) row (final_row line row m)
  unfolding outcomes scans
  scanned-Counts line row m blank p one text = absurd (omega arith)
  scanned-Counts line row m parse_error p one text = absurd (omega arith)
  scanned-Counts line row m empty_text p one text = absurd (text refl)
  scanned-Counts line row m processed p one text =
      let g = final_row-Grew _ line row m (λ r w. reject_empty-Grew line r w p) in
      let e = nothing_came-count line.chunks line.cleaning_rejects in
      let o : outcomes line ≡ max 1 (length line.chunks + length line.cleaning_rejects) =
        ground arith in
      record {
        offset_same = g.offset_same;
        scanned_same = g.scanned_same;
        grown = omega (arith, g.grown, e, o);
      }
  scanned-Counts line row m other_kind p one text =
      let g = final_row-Grew _ line row m (λ r w. reject_empty-Grew_other line r w p) in
      let o : outcomes line ≡ length line.chunks + length line.cleaning_rejects = ground arith in
      record {
        offset_same = g.offset_same;
        scanned_same = g.scanned_same;
        grown = omega (arith, g.grown, o);
      }

  -- The row of the source with the line's offset.
  reached : Line Doc → Merge Doc World → SourceCheckpoint
  reached line m = record (source line.src_name m.checkpoint).0 { line_offset = line.line_no + 1 }

  passed :
      (line : Line Doc) (m : Merge Doc World)
      → line.kind ≡ blank ⊎ line.kind ≡ parse_error
      → row_of line.src_name (apply_merge_preprocessed_line v false line m).1.checkpoint
        ≡ reached line m
  unfolding apply_merge_preprocessed_line reached
  passed line m (inl k) =
      ap (row_of line.src_name) (ground arith)
      ∙ row_of-set_source line.src_name (reached line m) (source line.src_name m.checkpoint).1
  passed line m (inr k) =
      ap (row_of line.src_name) (ground arith)
      ∙ row_of-set_source line.src_name (reached line m) (source line.src_name m.checkpoint).1

  refused :
      (line : Line Doc) (m : Merge Doc World)
      → line.kind ≡ empty_text
      → row_of line.src_name (apply_merge_preprocessed_line v false line m).1.checkpoint
        ≡ record (reached line m) {
          scanned = (reached line m).scanned + 1;
          rejected = (reached line m).rejected + 1;
        }
  unfolding apply_merge_preprocessed_line reached
  refused line m k =
      ap (row_of line.src_name) (ground arith)
      ∙ row_of-set_source line.src_name _ (source line.src_name m.checkpoint).1

  written :
      (line : Line Doc) (m : Merge Doc World)
      → line.kind ≡ processed ⊎ line.kind ≡ other_kind
      → row_of line.src_name (apply_merge_preprocessed_line v false line m).1.checkpoint
        ≡ final_row line
            (record (reached line m) { scanned = (reached line m).scanned + 1 })
            (record m { checkpoint = (source line.src_name m.checkpoint).1 })
  unfolding apply_merge_preprocessed_line reached
  written line m (inl k) = ap (row_of line.src_name) (ground arith) ∙ apply_scanned-row_of line _ _
  written line m (inr k) = ap (row_of line.src_name) (ground arith) ∙ apply_scanned-row_of line _ _

  reached-row_of :
      (line : Line Doc) (m : Merge Doc World)
      → reached line m
        ≡ record (row_of line.src_name m.checkpoint) { line_offset = line.line_no + 1 }
  unfolding reached
  reached-row_of line m =
      ap (λ (r : SourceCheckpoint). record r { line_offset = line.line_no + 1 })
        (source-row_of line.src_name m.checkpoint)

  counted :
      (line : Line Doc) (m : Merge Doc World) {row : SourceCheckpoint} {n : ℕ}
      → row
        ≡ final_row line
            (record (reached line m) { scanned = (reached line m).scanned + 1 })
            (record m { checkpoint = (source line.src_name m.checkpoint).1 })
      → Grew n
          (record (reached line m) { scanned = (reached line m).scanned + 1 })
          (final_row line
            (record (reached line m) { scanned = (reached line m).scanned + 1 })
            (record m { checkpoint = (source line.src_name m.checkpoint).1 }))
      → Counts (line.line_no + 1) 1 n (row_of line.src_name m.checkpoint) row
  counted line m e g =
      let start = reached-row_of line m in
      let o = ap (λ (r : SourceCheckpoint). r.line_offset) start in
      let c = ap (λ (r : SourceCheckpoint). r.scanned) start in
      let k = ap (λ (r : SourceCheckpoint). r.kept + r.rejected) start in
      rw e (record {
        offset_set = g.offset_same ∙ o;
        scanned_once = g.scanned_same ∙ ap (λ n. n + 1) c;
        outcomes_added = omega (arith, g.grown, k);
      })

  applied-Counts :
      (line : Line Doc) (m : Merge Doc World) (k : Kind)
      → line.kind ≡ k
      → Counts
          (line.line_no + 1)
          (scans k)
          (outcomes line)
          (row_of line.src_name m.checkpoint)
          (row_of line.src_name (apply_merge_preprocessed_line v false line m).1.checkpoint)
  unfolding scans outcomes
  applied-Counts line m blank p =
      rw (passed line m (inl p), reached-row_of line m)
        (record { offset_set = refl; scanned_once = omega arith; outcomes_added = ground arith })
  applied-Counts line m parse_error p =
      rw (passed line m (inr p), reached-row_of line m)
        (record { offset_set = refl; scanned_once = omega arith; outcomes_added = ground arith })
  applied-Counts line m empty_text p =
      rw (refused line m p, reached-row_of line m)
        (record { offset_set = refl; scanned_once = refl; outcomes_added = ground arith })
  applied-Counts line m processed p =
      counted line m (written line m (inl p))
        (scanned-Counts line _ _ processed p refl (λ e. absurd (ground arith)))
  applied-Counts line m other_kind p =
      counted line m (written line m (inr p))
        (scanned-Counts line _ _ other_kind p refl (λ e. absurd (ground arith)))

  -- A line that is applied with no stop requested sets its source's offset behind it, counts as
  -- scanned at most once, and adds its outcomes to the kept and rejected documents: one for an empty
  -- text, else one for each chunk and each cleaning reject, and at least one if it was processed.
  pub apply_merge_preprocessed_line-Counts :
      (line : Line Doc) (m : Merge Doc World)
      → Counts
          (line.line_no + 1)
          (scans line.kind)
          (outcomes line)
          (row_of line.src_name m.checkpoint)
          (row_of line.src_name (apply_merge_preprocessed_line v false line m).1.checkpoint)
  apply_merge_preprocessed_line-Counts line m = applied-Counts line m line.kind refl
