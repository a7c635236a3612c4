-- ===== src/Stages/Engine.antt =====
-- `run_fast_stages` and `fast_terminal_line` of src/indw/schedule/stages/engine.py, with
-- `run_tier01_gates` of src/indw/schedule/admission/tier01.py and the size gates of
-- src/indw/schedule/read/gates.py.
--
-- The text measures are parameters: `Gates` holds them. The language gate counts what it detects in
-- statistics that nothing here reads, and has no state in the model; the document deduplication acts
-- on a world `W`. Profiles and audit records are left out.
use Prim.Native.String.{count}
use instant_ai_data_workflow.Prelude.{
  ℕ, Bool, Option, none, some, [], ltb, leb, ◌==◌, if◌then◌else◌, String, string_eq,
}
use instant_ai_data_workflow.Prelude.Dict.{Dict}
use instant_ai_data_workflow.Jsonl.{Json, Parsed, parsed, parse_jsonl_line}
use instant_ai_data_workflow.Stages.{
  processed, blank, parse_error, empty_text, Context, truthy, mark, reject,
}

pub record Gates (V W : Type 0) : Type 0 where
  pub loads : String → Option (Json (Dict String V))
  pub extract_row_text : Dict String V → String
  pub minimal_normalize_detail : String → String × ℕ
  pub is_code : String → Bool  -- domain_from_source(src_name) == 'code'
  pub min_chars_gate : ℕ
  pub doc_max_chars : ℕ
  pub early_language_gate : String → ℕ → Option String × Option V
  pub content_hash : String → String
  pub fast_doc_dedup_check : String → String → W → Bool × W
  pub document_gate_raw : String → V
  pub run_stage0_content_filters : String → ℕ → V → Option String
  pub enrich_ingest_meta : V → Option (Dict String V) → String → V
  pub huge_chars : ℕ
  pub large_chars : ℕ
  pub admission_dict : String → ℕ → V

-- A line as it is given to a worker.
pub record Item (V : Type 0) : Type 0 where
  pub seq : ℕ
  pub src_name : String
  pub line_no : ℕ
  pub line : String
  pub row : Option (Dict String V)
  pub provenance : Option V
  pub ingest_meta : Option V
  pub work_dir : Option String

-- What becomes of a document in a fast stage: it leaves, or it goes on.
pub data Verdict (V : Type 0) : Type 0 where
  stop : Context V → Verdict V
  pass : Context V → Verdict V

unfoldable pub classify_doc_tier : ℕ → ℕ → ℕ → String
classify_doc_tier huge large chars =
    if leb huge chars
    then "huge"
    else if leb large chars
    then "large"
    else if leb 8000 chars
    then "medium"
    else "small"

abbrev pub gate_then : {V : Type 0} → Verdict V → (Context V → Verdict V) → Verdict V
gate_then (stop ctx) f = stop ctx
gate_then (pass ctx) f = f ctx

-- The same, with the world that the gates act on.
abbrev pub and_then :
    {V W : Type 0} → Verdict V × W → (Context V → W → Verdict V × W) → Verdict V × W
and_then (stop ctx, w) f = (stop ctx, w)
and_then (pass ctx, w) f = f ctx w

unfoldable pub new_context : {V : Type 0} → Item V → Context V
new_context item = record {
  seq = item.seq;
  src_name = item.src_name;
  line_no = item.line_no;
  row = item.row;
  provenance = item.provenance;
  text = "";
  meaningful_chars = 0;
  kind = processed;
  fp = none;
  fp_scan = none;
  pci_fp = none;
  language_assessment = none;
  acim_intel = none;
  acim_route = none;
  lci = none;
  doc_tier = "";
  admission = none;
  ingest_meta = item.ingest_meta;
  raw_features = none;
  doc_content_hash = "";
  cleaning_rejects = [];
  chunks = [];
  stage_trace = [];
}

module _ {V W : Type 0} (gates : Gates V W) where
  unfoldable pub normalize_row : Dict String V → Context V → Verdict V
  normalize_row row ctx =
      let (text, meaningful) = gates.minimal_normalize_detail (gates.extract_row_text row) in
      if text == ""
      then stop (record ctx { meaningful_chars = meaningful; kind = empty_text })
      else pass (record ctx { meaningful_chars = meaningful; text = text })

  unfoldable pub parsed_line : Parsed (Dict String V) → Context V → Verdict V
  unfolding normalize_row
  parsed_line Parsed.blank ctx = stop (record ctx { kind = blank })
  parsed_line Parsed.parse_error ctx = stop (record ctx { kind = parse_error })
  parsed_line (parsed row) ctx = normalize_row row (record ctx { row = some row })

  unfoldable pub row_or_line : Option (Dict String V) → String → Context V → Verdict V
  unfolding normalize_row parsed_line
  row_or_line none line ctx = parsed_line (parse_jsonl_line gates.loads line) ctx
  row_or_line (some row) line ctx = normalize_row row ctx

  -- `_stage1_fast_preprocess`, and the body of the loop of the preprocess pool
  unfoldable pub stage1_fast_preprocess : String → Context V → Verdict V
  unfolding mark row_or_line
  stage1_fast_preprocess line ctx = row_or_line ctx.row line (mark "s1_fast_preprocess" ctx)

  unfoldable pub early_document_size_gate : String → ℕ → Option String
  early_document_size_gate src_name meaningful =
      if gates.is_code src_name
      then none
      else if ltb meaningful gates.min_chars_gate
      then some "too_short"
      else none

  unfoldable pub early_document_max_gate : String → String → Option String
  early_document_max_gate text src_name =
      if gates.is_code src_name
      then none
      else if ltb gates.doc_max_chars (count text)
      then some "document_too_large"
      else none

  -- A reason that is given rejects the document; without one it goes on.
  unfoldable pub reject_given : Option String → Context V → Verdict V
  unfolding reject
  reject_given none ctx = pass ctx
  reject_given (some reason) ctx = stop (reject reason ctx)

  unfoldable pub reject_if : Option String → Context V → Verdict V
  unfolding reject_given
  reject_if reason ctx = reject_given (truthy reason) ctx

  unfoldable pub size_gates : String → Context V → Verdict V
  unfolding early_document_size_gate early_document_max_gate reject_if
  size_gates src_name ctx =
      gate_then (reject_if (early_document_size_gate src_name ctx.meaningful_chars) ctx)
        (λ c. reject_if (early_document_max_gate c.text src_name) c)

  unfoldable pub language_gate : Context V → Verdict V
  unfolding reject_if
  language_gate ctx =
      let (reason, assessment) = gates.early_language_gate ctx.text ctx.meaningful_chars in
      reject_if reason (record ctx { language_assessment = assessment })

  unfoldable pub doc_dedup : String → Context V → W → Verdict V × W
  unfolding mark reject
  doc_dedup src_name ctx w =
      let digest = gates.content_hash ctx.text in
      let ctx₁ = record (mark "s2_doc_dedup" ctx) { doc_content_hash = digest } in
      let (dup, w') = gates.fast_doc_dedup_check digest src_name w in
      (if dup then stop (reject "exact_doc_dup" ctx₁) else pass ctx₁, w')

  unfoldable pub structural_filter : Context V → Verdict V
  unfolding mark reject_if
  structural_filter ctx =
      let raw = gates.document_gate_raw ctx.text in
      reject_if (gates.run_stage0_content_filters ctx.text ctx.meaningful_chars raw)
        (record (mark "s2_structural_filter" ctx) { raw_features = some raw })

  unfoldable pub admit : Context V → Context V
  unfolding mark classify_doc_tier
  admit ctx =
      let ctx₁ = mark "s2_metadata" ctx in
      let meta : Option V = elim ctx.ingest_meta [
        | none ↦ none
        | some m ↦ some (gates.enrich_ingest_meta m ctx.row ctx.text)
      ] in
      let tier = classify_doc_tier gates.huge_chars gates.large_chars ctx.meaningful_chars in
      record (mark "s3_admission" ctx₁) {
        ingest_meta = meta;
        doc_tier = tier;
        admission = some (gates.admission_dict tier ctx.meaningful_chars);
      }

  unfoldable pub tier01_admit : Context V → W → Verdict V × W
  unfolding admit
  tier01_admit ctx w = (pass (admit ctx), w)

  unfoldable pub tier01_structural : Context V → W → Verdict V × W
  unfolding structural_filter tier01_admit
  tier01_structural ctx w = and_then (structural_filter ctx, w) tier01_admit

  unfoldable pub tier01_dedup : String → Context V → W → Verdict V × W
  unfolding doc_dedup tier01_structural
  tier01_dedup src_name ctx w = and_then (doc_dedup src_name ctx w) tier01_structural

  unfoldable pub tier01_language : String → Context V → W → Verdict V × W
  unfolding language_gate tier01_dedup
  tier01_language src_name ctx w = and_then (language_gate ctx, w) (tier01_dedup src_name)

  unfoldable pub run_tier01_gates : String → Context V → W → Verdict V × W
  unfolding mark size_gates tier01_language
  run_tier01_gates src_name ctx w =
      and_then (size_gates src_name (mark "s2_fast_filter" ctx), w) (tier01_language src_name)

  -- A document that goes on needs the heavy stages.
  unfoldable pub run_fast_stages : Item V → W → Verdict V × W
  unfolding stage1_fast_preprocess run_tier01_gates
  run_fast_stages item w =
      and_then (stage1_fast_preprocess item.line (new_context item), w)
        (λ c w₁. run_tier01_gates c.src_name c w₁)
