-- ===== src/Merge/Accounting.antt =====
-- What the counters of a source say about the chunks that were written.
use instant_ai_data_workflow.Prelude.{
  ℕ, ◌+◌, ◌≤◌, ◌≡◌, inl, inr, refl, ◌∙◌, Bool, true, false, ◌||◌, ◌&&◌, Option, none, some, List,
  [], ◌∷◌, ltb, arith, length, length-append, String, Option-cases, if◌then◌else◌,
}
use instant_ai_data_workflow.Merge.{
  Chunk, Services, MergeState, write_chunk, gate_chunk, after_gate, accept, reject_counted,
  reject_near_dup, add_rejected, write_merge_chunks, near_dedup,
}

-- One more chunk was written, or one more was rejected.
record Counted {Doc World : Type 0} (kept : Bool) (s s' : MergeState Doc World) : Type 0 where
  pub same_offset : s'.src_state.line_offset ≡ s.src_state.line_offset
  pub same_scanned : s'.src_state.scanned ≡ s.src_state.scanned
  pub kept_count : s'.src_state.kept ≡ s.src_state.kept + (if kept then 1 else 0)
  pub rejected_count : s'.src_state.rejected ≡ s.src_state.rejected + (if kept then 0 else 1)
  pub row_count : length s'.rows ≡ length s.rows + (if kept then 1 else 0)

if-Counted :
    {Doc World : Type 0} {s : MergeState Doc World} (test : Bool)
    (x y : Bool × MergeState Doc World)
    → Counted x.0 s x.1
    → Counted y.0 s y.1
    → Counted (if test then x else y).0 s (if test then x else y).1
if-Counted true x y c d = c
if-Counted false x y c d = d

-- What the loop over the chunks adds up to.
pub record Tallied {Doc World : Type 0} (chunks : ℕ) (any : Bool) (s s' : MergeState Doc World)
    : Type 0 where
  pub offset_kept : s'.src_state.line_offset ≡ s.src_state.line_offset
  pub scanned_kept : s'.src_state.scanned ≡ s.src_state.scanned
  pub each_once :
      s'.src_state.kept + s'.src_state.rejected ≡ s.src_state.kept + s.src_state.rejected + chunks
  pub rows_kept : length s'.rows + s.src_state.kept ≡ length s.rows + s'.src_state.kept
  pub no_fewer : s.src_state.kept ≤ s'.src_state.kept
  pub any_kept : any ≡ ltb s.src_state.kept s'.src_state.kept

tally :
    {Doc World : Type 0} {kept any : Bool} {chunks : ℕ} {s s₁ s₂ : MergeState Doc World}
    → Counted kept s s₁
    → Tallied chunks any s₁ s₂
    → Tallied (chunks + 1) (kept || any) s s₂
tally first rest = record {
  offset_kept = rest.offset_kept ∙ first.same_offset;
  scanned_kept = rest.scanned_kept ∙ first.same_scanned;
  each_once = ground (arith, rest.each_once, first.kept_count, first.rejected_count);
  rows_kept = ground (arith, rest.rows_kept, first.kept_count, first.row_count);
  no_fewer = ground (arith, rest.no_fewer, first.kept_count);
  any_kept = ground (arith, rest.any_kept, rest.no_fewer, first.kept_count);
}

module _ {Doc World : Type 0} (v : Services Doc World) (src : String) where
  rejected-Counted :
      (reason : String) (c : Chunk Doc) (d : Option Doc) (w : World) (s : MergeState Doc World)
      → Counted false s (reject_counted v src reason c d w s)
  unfolding reject_counted
  rejected-Counted reason c d w s = record {
    same_offset = refl;
    same_scanned = refl;
    kept_count = omega arith;
    rejected_count = refl;
    row_count = omega arith;
  }

  add_rejected-Counted :
      (w : World) (s : MergeState Doc World) → Counted false s (add_rejected v src w s)
  unfolding add_rejected
  add_rejected-Counted w s = record {
    same_offset = refl;
    same_scanned = refl;
    kept_count = omega arith;
    rejected_count = refl;
    row_count = omega arith;
  }

  near-Counted :
      (reason : String) (c : Chunk Doc) (d : Doc) (w : World) (s : MergeState Doc World)
      → Counted false s (reject_near_dup v src reason c d w s)
  unfolding reject_near_dup
  near-Counted reason c d w s = rejected-Counted reason c (some d) _ s

  accept-Counted :
      (skip : Bool) (c : Chunk Doc) (d : Doc) (w : World) (s : MergeState Doc World)
      → Counted true s (accept v src skip c d w s)
  unfolding accept
  accept-Counted skip c d w s = record {
    same_offset = refl;
    same_scanned = refl;
    kept_count = refl;
    rejected_count = omega arith;
    row_count = omega (arith, length-append s.rows (c ∷ []));
  }

  after_gate-Counted :
      (c : Chunk Doc) (d : Doc) (w : World) (s : MergeState Doc World)
      → Counted (after_gate v src c d w s).0 s (after_gate v src c d w s).1
  unfolding after_gate
  after_gate-Counted c d w s = elim (Option-cases (v.validate_chunk c d)) [
    | inl valid ↦
        let skip = v.skip_within_document_chunks && ltb 0 c.chunk_index in
        let near = near_dedup v src c d w in
        elim (Option-cases near.0) [
          | inl none_found ↦
              rw (valid, none_found, after_gate)
                (if-Counted skip _ _ (accept-Counted skip c d w s)
                  (accept-Counted skip c d near.1 s))
          | inr (reason, found) ↦
              rw (valid, found, after_gate)
                (if-Counted skip _ _ (accept-Counted skip c d w s)
                  (near-Counted reason c d near.1 s))
        ]
    | inr (why, bad) ↦
        rw (bad, after_gate) (rejected-Counted (v.validation_reason why) c (some d) w s)
  ]

  gate_chunk-Counted :
      (c : Chunk Doc) (w : World) (s : MergeState Doc World)
      → Counted (gate_chunk v src c w s).0 s (gate_chunk v src c w s).1
  unfolding gate_chunk
  gate_chunk-Counted c w s =
      if-Counted _ _ _ (after_gate-Counted c _ _ s) (add_rejected-Counted _ s)

  write_chunk-Counted :
      (c : Chunk Doc) (s : MergeState Doc World)
      → Counted (write_chunk v src c s).0 s (write_chunk v src c s).1
  unfolding write_chunk
  write_chunk-Counted c s =
      let dup = v.exact_is_duplicate c src s.world in
      if-Counted v.dedup_exact _ _
        (if-Counted dup.0 _ _ (rejected-Counted "exact_dup" c none dup.1 s)
          (gate_chunk-Counted c dup.1 s))
        (gate_chunk-Counted c s.world s)

  -- Unless a stop was requested, each chunk of a line adds exactly one to the kept or to the rejected
  -- documents of its source, each kept one is one row for the sink, and the result says whether one was
  -- kept; neither the scanned count nor the offset moves.
  pub write_merge_chunks-Tallied :
      (chunks : List (Chunk Doc)) (s : MergeState Doc World)
      → Tallied
          (length chunks)
          (write_merge_chunks v src false chunks s).0
          s
          (write_merge_chunks v src false chunks s).1
  unfolding write_merge_chunks
  write_merge_chunks-Tallied [] s = record {
    offset_kept = refl;
    scanned_kept = refl;
    each_once = omega arith;
    rows_kept = refl;
    no_fewer = omega arith;
    any_kept = ground arith;
  }
  write_merge_chunks-Tallied (c ∷ cs) s =
      let e : length (c ∷ cs) ≡ length cs + 1 = omega arith in
      rw e
        (tally (write_chunk-Counted c s) (write_merge_chunks-Tallied cs (write_chunk v src c s).1))
