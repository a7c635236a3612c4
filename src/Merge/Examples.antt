-- ===== src/Merge/Examples.antt =====
-- A line of two chunks, the second of which is an exact duplicate.
use instant_ai_data_workflow.Prelude.{
  ℕ, ◌+◌, ◌≡◌, refl, true, false, none, List, [], ◌∷◌, length, String, string_eq, nat_eq, ◌==◌,
}
use instant_ai_data_workflow.Prelude.Dict.{get, put}
use instant_ai_data_workflow.Checkpoint.{no_lines}
use instant_ai_data_workflow.Merge.{Chunk, Services, MergeState, write_merge_chunks}
use instant_ai_data_workflow.Merge.Lines.{
  processed, Line, Merge, apply_merge_preprocessed_line, apply_lines,
}
use instant_ai_data_workflow.Merge.Accounting.{Tallied, write_merge_chunks-Tallied}
use instant_ai_data_workflow.Merge.Drift.{
  outcomes, scans, row_of, Counts, apply_merge_preprocessed_line-Counts,
}
use instant_ai_data_workflow.Merge.Output.{kept_total, apply_lines-output}

-- A document is its score; the world is the list of the reasons recorded.
abbrev services : Services ℕ (List String)
services = record {
  dedup_exact = true;
  skip_within_document_chunks = true;
  exact_is_duplicate = λ c s w. (c.chunk_text == "again", w);
  score_document = λ c s w. (7, w);
  finalize_scored_document = λ d c s w. ((true, d), w);
  inc_document = none;
  reject_reason = λ d. "rejected";
  validate_chunk = λ c d. none;
  validation_reason = λ r. r;
  fuzzy = none;
  semantic = none;
  embed_semantic = none;
  record_reject = λ r n w. r ∷ w;
  compensate_pre_gate_keep = λ d s w. w;
  record_merge_reject = λ r s d w. w;
  with_provenance = λ d. false;
  write_row = λ c b w. w;
  collector = none;
  index_write = none;
}

abbrev chunk : String → ℕ → Chunk ℕ
chunk text index = record {
  chunk_text = text;
  text_len = 5;
  chunk_index = index;
  content_hash = none;
  scored = none;
}

abbrev line : Line ℕ
line = record {
  src_name = "web";
  line_no = 3;
  kind = processed;
  chunks = chunk "first" 0 ∷ chunk "again" 1 ∷ [];
  cleaning_rejects = [];
}

abbrev start : Merge ℕ (List String)
start = record {
  checkpoint = record {
    complete = false;
    interrupted = false;
    sources = [];
    filtered_line_count = 0;
  };
  total_scanned = 0;
  skipped_parse = 0;
  output = [];
  services_world = [];
}

applied : (apply_merge_preprocessed_line services false line start).1 ≡ record {
  checkpoint = record {
    complete = false;
    interrupted = false;
    sources = ("web", record { line_offset = 4; scanned = 1; kept = 1; rejected = 1 }) ∷ [];
    filtered_line_count = 0;
  };
  total_scanned = 1;
  skipped_parse = 0;
  output = chunk "first" 0 ∷ [];
  services_world = "exact_dup" ∷ [];
}
unfolding apply_merge_preprocessed_line get put
applied = refl

abbrev before : MergeState ℕ (List String)
before = record { src_state = no_lines; rows = []; world = [] }

write_merge_chunks-Tallied_example :
    Tallied 2
      (write_merge_chunks services "web" false line.chunks before).0
      before
      (write_merge_chunks services "web" false line.chunks before).1
write_merge_chunks-Tallied_example = write_merge_chunks-Tallied services "web" line.chunks before

apply_merge_preprocessed_line-Counts_example :
    Counts
      (3 + 1)
      (scans processed)
      (outcomes line)
      (row_of "web" start.checkpoint)
      (row_of "web" (apply_merge_preprocessed_line services false line start).1.checkpoint)
apply_merge_preprocessed_line-Counts_example =
    apply_merge_preprocessed_line-Counts services line start

apply_lines-output_example :
    length (apply_lines services false (line ∷ line ∷ []) start).output
      + kept_total start.checkpoint
    ≡ 0 + kept_total (apply_lines services false (line ∷ line ∷ []) start).checkpoint
apply_lines-output_example = apply_lines-output services (line ∷ line ∷ []) start
