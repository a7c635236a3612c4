-- ===== src/Stages/Cleaning.antt =====
-- `run_heavy_stages` and `run_progressive_preprocess` of src/indw/schedule/stages/engine.py, and the
-- results that the stages give.
--
-- `Heavy` holds what the heavy stages ask of other code. The cleaning pipeline acts on a world `W`. The
-- fingerprint, the preview and the pipeline may raise, which `none` stands for. `Live` is what the stages keep open while they work on a
-- document: the documents begun and ended by the monitor, the bound context, the deadline. The names
-- that the monitor gives to the stages are left out.
use instant_ai_data_workflow.Prelude.{
  ℕ, Bool, true, false, ◌||◌, Option, none, some, List, [], ◌∷◌, ◌++◌, ◌==◌, if◌then◌else◌, String,
  string_eq,
}
use instant_ai_data_workflow.Prelude.Dict.{Dict}
use instant_ai_data_workflow.Stages.{
  Kind, processed, blank, parse_error, empty_text, Chunk, Context, truthy, mark, reject,
}
use instant_ai_data_workflow.Stages.Engine.{Gates, Item, Verdict, stop, pass, run_fast_stages}

-- The keys of a processed line; a key that is only there with a value is an option.
pub record Processed (V : Type 0) : Type 0 where
  pub raw_text : String
  pub row : Option (Dict String V)
  pub provenance : Option V
  pub language_assessment : Option V
  pub pci_fp : Option V
  pub acim_intel : Option V
  pub acim_route : Option V
  pub lci : Option V
  pub doc_tier : String
  pub admission : Option V
  pub ingest_meta : Option V

pub record Result (V : Type 0) : Type 0 where
  pub seq : ℕ
  pub src_name : String
  pub line_no : ℕ
  pub kind : Kind
  pub cleaning_rejects : List (String × ℕ)
  pub chunks : List (Chunk V)
  pub stage_trace : List String
  pub body : Option (Processed V)
  pub reject_tier : Option ℕ

pub record CleanResult (V : Type 0) : Type 0 where
  pub dropped : Bool
  pub drop_reason : Option String
  pub text : String
  pub value : V

pub record Live (W : Type 0) : Type 0 where
  pub begun : List String
  pub ended : List String
  pub context_bound : Bool
  pub deadline_set : Bool
  pub world : W

pub record Heavy (V W : Type 0) : Type 0 where
  -- fp, scan, fp.to_dict()
  pub build_fingerprint_bundle_detail : String → Option V → Option ((V × V) × V)
  pub doc_id : String → ℕ → String
  -- the session's preview, where there is an enabled session
  pub preview_for_cleaning :
      Option (String → String → V → Option V → Option (Option V × Option V × Option V))
  pub fp_of : V → Option V  -- acim_intel.get('fp')
  pub process : String → String → Option (Dict String V) → W → Option (List (CleanResult V)) × W
  pub doc_budget_exceeded : W → Bool
  pub content_hash : String → String

-- `drop_reason or 'cleaning'`
unfoldable pub reason_of : Option String → String
reason_of reason = elim (truthy reason) [ none ↦ "cleaning" | some s ↦ s ]

module _ {V : Type 0} where
  unfoldable pub blank_result : Context V → Result V
  blank_result ctx = record {
    seq = ctx.seq;
    src_name = ctx.src_name;
    line_no = ctx.line_no;
    kind = ctx.kind;
    cleaning_rejects = [];
    chunks = [];
    stage_trace = ctx.stage_trace;
    body = none;
    reject_tier = none;
  }

  unfoldable pub processed_result : Context V → Result V
  processed_result ctx = record {
    seq = ctx.seq;
    src_name = ctx.src_name;
    line_no = ctx.line_no;
    kind = ctx.kind;
    cleaning_rejects = ctx.cleaning_rejects;
    chunks = ctx.chunks;
    stage_trace = ctx.stage_trace;
    body = some (record {
      raw_text = ctx.text;
      row = ctx.row;
      provenance = ctx.provenance;
      language_assessment = ctx.language_assessment;
      pci_fp = ctx.pci_fp;
      acim_intel = ctx.acim_intel;
      acim_route = ctx.acim_route;
      lci = ctx.lci;
      doc_tier = ctx.doc_tier;
      admission = ctx.admission;
      ingest_meta = ctx.ingest_meta;
    });
    reject_tier = none;
  }

  -- `fast_terminal_line`
  unfoldable pub terminal_of : Kind → Context V → Result V
  unfolding blank_result processed_result
  terminal_of processed ctx = processed_result ctx
  terminal_of blank ctx = blank_result ctx
  terminal_of parse_error ctx = blank_result ctx
  terminal_of empty_text ctx = blank_result ctx

  unfoldable pub fast_terminal_line : Verdict V → Option (Result V)
  unfolding terminal_of
  fast_terminal_line (stop ctx) = some (terminal_of ctx.kind ctx)
  fast_terminal_line (pass ctx) = none

  -- The loop over the dropped parts.
  unfoldable pub reject_dropped : List (CleanResult V) → Context V → Context V
  unfolding reject reason_of
  reject_dropped [] ctx = ctx
  reject_dropped (r ∷ rs) ctx =
      reject_dropped rs (if r.dropped then reject (reason_of r.drop_reason) ctx else ctx)

-- A part that makes no chunk.
unfoldable pub skips : {V : Type 0} → CleanResult V → Bool
skips r = r.dropped || r.text == ""

module _ {V W : Type 0} (heavy : Heavy V W) where
  unfoldable pub chunk_of : CleanResult V → Chunk V
  chunk_of r = record {
    chunk_text = r.text;
    content_hash = heavy.content_hash r.text;
    clean_result = r.value;
  }

  unfoldable pub attach_one : CleanResult V → Context V → Context V
  unfolding skips chunk_of
  attach_one r ctx = if skips r then ctx else record ctx { chunks = ctx.chunks ++ chunk_of r ∷ [] }

  -- The loop over the parts that are left.
  unfoldable pub attach_chunks : List (CleanResult V) → Context V → Context V
  unfolding attach_one
  attach_chunks [] ctx = ctx
  attach_chunks (r ∷ rs) ctx = attach_chunks rs (attach_one r ctx)

  -- The monitor begins the document only where the fingerprint does not raise.
  unfoldable pub stage3_intermediate : String → Context V → Live W → Option (Context V) × Live W
  unfolding mark
  stage3_intermediate src_name ctx live =
      elim (heavy.build_fingerprint_bundle_detail ctx.text ctx.raw_features) [
        | none ↦ (none, live)
        | some ((fp, scan), pci_fp) ↦ (
          some (record (mark "s3_intermediate" ctx) {
            fp = some fp;
            fp_scan = some scan;
            pci_fp = some pci_fp;
          }),
          record live {
            begun = live.begun ++ heavy.doc_id src_name ctx.line_no ∷ [];
            context_bound = true;
          },
        )
      ]

  -- What a preview leaves in the context.
  unfoldable pub previewed : Option V × Option V × Option V → Context V → Context V
  previewed (none, route, lci) ctx = record ctx { acim_intel = none; acim_route = route; lci = lci }
  previewed (some v, route, lci) ctx = record ctx {
    acim_intel = some v;
    acim_route = route;
    lci = lci;
    pci_fp = heavy.fp_of v;
  }

  unfoldable pub preview_of :
      Option (String → String → V → Option V → Option (Option V × Option V × Option V))
      → Option V
      → String
      → Context V
      → Option (Context V)
  unfolding previewed
  preview_of none fp src_name ctx = some ctx
  preview_of (some preview) none src_name ctx = some ctx
  preview_of (some preview) (some fp) src_name ctx =
      elim (preview ctx.text src_name fp ctx.fp_scan) [
        | none ↦ none
        | some found ↦ some (previewed found ctx)
      ]

  unfoldable pub stage4_intel_preview : String → Context V → Option (Context V)
  unfolding mark preview_of
  stage4_intel_preview src_name ctx =
      preview_of heavy.preview_for_cleaning ctx.fp src_name (mark "s4_intel_preview" ctx)

  -- What follows the call of the pipeline: `none` where it has raised.
  unfoldable pub cleaned :
      Context V → Option (List (CleanResult V)) → W → Option (String × Context V)
  unfolding reject reject_dropped attach_chunks
  cleaned ctx none w = none
  cleaned ctx (some results) w =
      if heavy.doc_budget_exceeded w
      then some ("document_budget_exceeded", reject "document_budget_exceeded" ctx)
      else some ("ok", attach_chunks results (reject_dropped results ctx))

  -- The outcome and the context, or `none` where the pipeline raises; the deadline is cleared on
  -- every way out.
  unfoldable pub stage4_high_quality :
      String → Context V → Live W → Option (String × Context V) × Live W
  unfolding mark cleaned
  stage4_high_quality src_name ctx live =
      let ctx₁ = mark "s4_high_quality" ctx in
      let timed = record live { deadline_set = true } in
      let (results, w) = heavy.process ctx.text src_name ctx.row timed.world in
      (cleaned ctx₁ results w, record timed { world = w; deadline_set = false })

  -- The `finally` of `run_heavy_stages`: the outcome is "ok" where an exception is passed on.
  unfoldable pub end_document : Option (String × Context V) × Live W → Option (Result V) × Live W
  unfolding processed_result
  end_document (none, live) =
      (none, record live { ended = live.ended ++ "ok" ∷ []; context_bound = false })
  end_document (some (outcome, ctx), live) = (
    some (processed_result ctx),
    record live { ended = live.ended ++ outcome ∷ []; context_bound = false },
  )

  -- The context behind the stages before the pipeline, or `none` where one of them raises.
  unfoldable pub prepared : String → Context V → Live W → Option (Context V)
  unfolding stage3_intermediate stage4_intel_preview
  prepared src_name ctx live = elim (stage3_intermediate src_name ctx live).0 [
    | none ↦ none
    | some ctx₁ ↦ stage4_intel_preview src_name ctx₁
  ]

  unfoldable pub after_preview :
      String → Option (Context V) → Live W → Option (String × Context V) × Live W
  unfolding stage4_high_quality
  after_preview src_name none live = (none, live)
  after_preview src_name (some ctx) live = stage4_high_quality src_name ctx live

  unfoldable pub run_heavy_stages : String → Context V → Live W → Option (Result V) × Live W
  unfolding stage3_intermediate prepared after_preview end_document
  run_heavy_stages src_name ctx live = end_document (
      after_preview src_name (prepared src_name ctx live) (stage3_intermediate src_name ctx live).1)

module _ {V W : Type 0} (gates : Gates V W) (heavy : Heavy V W) where
  unfoldable pub after_fast : Verdict V → Live W → Option (Result V) × Live W
  unfolding fast_terminal_line run_heavy_stages
  after_fast (stop ctx) live = (fast_terminal_line (stop ctx), live)
  after_fast (pass ctx) live = run_heavy_stages heavy ctx.src_name ctx live

  unfoldable pub run_progressive_preprocess : Item V → Live W → Option (Result V) × Live W
  unfolding run_fast_stages after_fast
  run_progressive_preprocess item live =
      let (verdict, w) = run_fast_stages gates item live.world in
      after_fast verdict (record live { world = w })
