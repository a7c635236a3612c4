-- ===== src/Merge.antt =====
-- src/indw/schedule/apply/merge.py: what is done with one preprocessed line, and with each of its chunks.
--
-- The objects that the code is handed, the quality gate, the deduplicators, the sink, the logs, are
-- `Services` on a `World`. The row of the source and the checkpoint are the state, and `rows` lists
-- what `sink.write_row` was called with. Logging, `set_doc_stage` and the observer `pci` are left out;
-- a line comes with its objects ready.
pub mod Lines
pub mod Accounting
pub mod Drift
pub mod Balance
pub mod Output
mod Examples
use instant_ai_data_workflow.Prelude.{
  ℕ, zero, suc, ◌+◌, Bool, true, false, not, ◌&&◌, ◌||◌, Option, none, some, List, [], ◌∷◌, ◌++◌,
  ltb, ◌==◌, if◌then◌else◌, length, String, string_eq, nat_eq,
}
use instant_ai_data_workflow.Checkpoint.{SourceCheckpoint, MergeCheckpoint, source, set_source}

pub record Chunk (Doc : Type 0) : Type 0 where
  pub chunk_text : String
  -- `len(chunk_text)`
  pub text_len : ℕ
  pub chunk_index : ℕ
  pub content_hash : Option String
  pub scored : Option Doc

-- `should_keep` and `register` of a near-duplicate filter.
pub record NearDedup (Doc World : Type 0) : Type 0 where
  pub should_keep : Chunk Doc → Doc → World → Bool × World
  pub register : Chunk Doc → Doc → World → World

pub record Collector (Doc World : Type 0) : Type 0 where
  pub record_rejected : String → Chunk Doc → String → Doc → World → World
  pub record_accepted : String → Chunk Doc → Doc → World → World

pub record Services (Doc World : Type 0) : Type 0 where
  pub dedup_exact : Bool
  pub skip_within_document_chunks : Bool
  pub exact_is_duplicate : Chunk Doc → String → World → Bool × World
  pub score_document : Chunk Doc → String → World → Doc × World
  pub finalize_scored_document : Doc → Chunk Doc → String → World → (Bool × Doc) × World
  pub inc_document : Option (World → World)
  pub reject_reason : Doc → String
  -- None, or the reason why the chunk is not valid
  pub validate_chunk : Chunk Doc → Doc → Option String
  -- f'validation_{reason}'
  pub validation_reason : String → String
  pub fuzzy : Option (NearDedup Doc World)
  pub semantic : Option (NearDedup Doc World)
  pub embed_semantic : Option (Chunk Doc → Doc → World → Bool × World)
  pub record_reject : String → ℕ → World → World
  pub compensate_pre_gate_keep : Doc → String → World → World
  pub record_merge_reject : String → String → Option Doc → World → World
  pub with_provenance : Doc → Bool
  pub write_row : Chunk Doc → Bool → World → World
  pub collector : Option (Collector Doc World)
  pub index_write : Option (String → Chunk Doc → Doc → World → World)

-- The row of the source, what the sink has been given, and the rest of the world.
pub record MergeState (Doc World : Type 0) : Type 0 where
  pub src_state : SourceCheckpoint
  pub rows : List (Chunk Doc)
  pub world : World

module _ {Doc World : Type 0} (v : Services Doc World) (src : String) where
  unfoldable pub add_rejected : World → MergeState Doc World → MergeState Doc World
  add_rejected w s = record s {
    src_state = record s.src_state { rejected = s.src_state.rejected + 1 };
    world = w;
  }

  -- The branches that reject a chunk for a reason that the gate's statistics count.
  unfoldable pub reject_counted :
      String → Chunk Doc → Option Doc → World → MergeState Doc World → MergeState Doc World
  unfolding add_rejected
  reject_counted reason chunk doc w s =
      add_rejected (v.record_merge_reject reason src doc (v.record_reject reason chunk.text_len w))
        s

  unfoldable pub reject_near_dup :
      String → Chunk Doc → Doc → World → MergeState Doc World → MergeState Doc World
  unfolding reject_counted
  reject_near_dup reason chunk doc w s =
      reject_counted reason chunk (some doc) (v.compensate_pre_gate_keep doc src w) s

  unfoldable pub register_near : Option (NearDedup Doc World) → Chunk Doc → Doc → World → World
  register_near none chunk doc w = w
  register_near (some d) chunk doc w = d.register chunk doc w

  -- From `if not skip_near_dedup or clean_result.chunk_index == 0` on: the chunk is written.
  unfoldable pub accept :
      Bool → Chunk Doc → Doc → World → MergeState Doc World → MergeState Doc World
  unfolding register_near
  accept skip_near chunk doc w s =
      let w₁ : World =
        if not skip_near || chunk.chunk_index == 0
        then register_near v.semantic chunk doc (register_near v.fuzzy chunk doc w)
        else w in
      let w₂ = v.write_row chunk (v.with_provenance doc) w₁ in
      let w₃ : World = elim v.collector [
        | none ↦ w₂
        | some c ↦ c.record_accepted src chunk doc w₂
      ] in
      let w₄ : World = elim v.index_write [ none ↦ w₃ | some f ↦ f src chunk doc w₃ ] in
      record s {
        src_state = record s.src_state { kept = s.src_state.kept + 1 };
        rows = s.rows ++ chunk ∷ [];
        world = w₄;
      }

  -- The name of the near-duplicate filter that refuses the chunk, if one does, and the world. A filter
  -- is asked only if those before it did not refuse.
  unfoldable pub near_filter : Option (NearDedup Doc World) → Chunk Doc → Doc → World → Bool × World
  near_filter none chunk doc w = (true, w)
  near_filter (some d) chunk doc w = d.should_keep chunk doc w

  unfoldable pub embed_filter : Chunk Doc → Doc → World → Bool × World
  embed_filter chunk doc w = elim v.embed_semantic [ none ↦ (true, w) | some f ↦ f chunk doc w ]

  unfoldable pub near_dedup : Chunk Doc → Doc → World → Option String × World
  unfolding near_filter embed_filter
  near_dedup chunk doc w =
      let (fuzzy_ok, w₁) = near_filter v.fuzzy chunk doc w in
      let (semantic_ok, w₂) = near_filter v.semantic chunk doc w₁ in
      let (embed_ok, w₃) = embed_filter chunk doc w₂ in
      if fuzzy_ok
      then (if semantic_ok
          then (if embed_ok then (none, w₃) else (some "near_dup_embed", w₃))
          else (some "near_dup_semantic", w₂))
      else (some "near_dup_fuzzy", w₁)

  -- The document of a chunk, which is scored if it has none.
  unfoldable pub document_of : Chunk Doc → World → Doc × World
  document_of chunk w = elim chunk.scored [ none ↦ v.score_document chunk src w | some d ↦ (d, w) ]

  -- What follows the gate's approval.
  unfoldable pub after_gate :
      Chunk Doc → Doc → World → MergeState Doc World → Bool × MergeState Doc World
  unfolding reject_counted reject_near_dup accept near_dedup
  after_gate chunk doc w s =
      let skip_near = v.skip_within_document_chunks && ltb 0 chunk.chunk_index in
      let (near, w₁) = near_dedup chunk doc w in
      elim (v.validate_chunk chunk doc) [
        | some why ↦ (false, reject_counted (v.validation_reason why) chunk (some doc) w s)
        | none ↦ if skip_near then (true, accept skip_near chunk doc w s) else elim near [
          | some reason ↦ (false, reject_near_dup reason chunk doc w₁ s)
          | none ↦ (true, accept skip_near chunk doc w₁ s)
        ]
      ]

  -- The gate, behind the test for an exact duplicate.
  unfoldable pub gate_chunk : Chunk Doc → World → MergeState Doc World → Bool × MergeState Doc World
  unfolding document_of after_gate add_rejected
  gate_chunk chunk w s =
      let (doc, w₁) = document_of chunk w in
      let ((ok, final), w₂) = v.finalize_scored_document doc chunk src w₁ in
      let w₃ : World = elim v.inc_document [ none ↦ w₂ | some inc ↦ inc w₂ ] in
      let reason = v.reject_reason final in
      let w₄ = v.record_merge_reject reason src (some final) w₃ in
      let w₅ : World = elim v.collector [
        | none ↦ w₄
        | some c ↦ c.record_rejected src chunk reason final w₄
      ] in
      if ok then after_gate chunk final w₃ s else (false, add_rejected w₅ s)

  -- One round of the loop: whether the chunk is kept.
  unfoldable pub write_chunk : Chunk Doc → MergeState Doc World → Bool × MergeState Doc World
  unfolding reject_counted gate_chunk
  write_chunk chunk s =
      let (dup, w₁) = v.exact_is_duplicate chunk src s.world in
      if v.dedup_exact
      then (if dup
          then (false, reject_counted "exact_dup" chunk none w₁ s)
          else gate_chunk chunk w₁ s)
      else gate_chunk chunk s.world s

  -- `stop_requested` is a value, so the loop runs over all chunks or over none.
  unfoldable pub write_merge_chunks :
      Bool → List (Chunk Doc) → MergeState Doc World → Bool × MergeState Doc World
  unfolding write_chunk
  write_merge_chunks stop [] s = (false, s)
  write_merge_chunks stop (chunk ∷ chunks) s =
      let (kept, s₁) = write_chunk chunk s in
      let (any, s₂) = write_merge_chunks stop chunks s₁ in
      if stop then (false, s) else (kept || any, s₂)
