-- ===== src/Stages/Conserved.antt =====
-- The fast stages and pools leave a document where it stands.
use instant_ai_data_workflow.Prelude.{
  ℕ, ◌≡◌, refl, ◌∙◌, Bool, true, false, Option, none, some, String, arith,
}
use instant_ai_data_workflow.Prelude.Dict.{Dict}
use instant_ai_data_workflow.Jsonl.{Parsed, parsed, parse_jsonl_line}
use instant_ai_data_workflow.Stages.{Context, Payload, Store, Values, mark, reject, truthy}
use instant_ai_data_workflow.Stages.Survivor.{survivor_payload, from_survivor_payload}
use instant_ai_data_workflow.Stages.Engine.{
  Gates, Item, Verdict, stop, pass, new_context, normalize_row, stage1_fast_preprocess, size_gates,
  language_gate, doc_dedup, structural_filter, admit, and_then, gate_then, reject_if, reject_given,
  parsed_line, row_or_line, early_document_size_gate, early_document_max_gate,
}
use instant_ai_data_workflow.Stages.Cleaning.{Result, blank_result, processed_result}
use instant_ai_data_workflow.Stages.Pools.{
  Worker, Left, terminal, survivor, preprocess_item, filter_item, stage0_item, language_item,
  content_item, stage0_verdict, stage0_left, filtered_result, stage0_admit, stage0_content,
  stage0_dedup, preprocess_left, filter_left, filter_context,
}

-- Where a document stands: its number in the run, its source, its line there.
abbrev pub Place : Type 0
Place = ℕ × String × ℕ

module _ {V : Type 0} where
  abbrev pub place : Context V → Place
  place ctx = (ctx.seq, ctx.src_name, ctx.line_no)

  abbrev verdict_place : Verdict V → Place
  verdict_place (stop ctx) = place ctx
  verdict_place (pass ctx) = place ctx

  abbrev pub result_place : Result V → Place
  result_place r = (r.seq, r.src_name, r.line_no)

  abbrev pub payload_place : Payload V → Place
  payload_place p = (p.seq, p.src_name, p.line_no)

  abbrev pub item_place : Item V → Place
  item_place i = (i.seq, i.src_name, i.line_no)

  abbrev pub left_place : Left V → Place
  left_place (terminal r) = result_place r
  left_place (survivor p) = payload_place p

  pub mark-place : (stage : String) (ctx : Context V) → place (mark stage ctx) ≡ place ctx
  unfolding mark
  mark-place stage ctx = ground arith

  pub from-place :
      (values : Values V) (p : Payload V) (store : Store)
      → place (from_survivor_payload values p store).0 ≡ payload_place p
  unfolding from_survivor_payload
  from-place values p store = refl

  reject_given-place :
      {W : Type 0} (gates : Gates V W) (reason : Option String) (ctx : Context V)
      → verdict_place (reject_given gates reason ctx) ≡ place ctx
  unfolding reject_given reject
  reject_given-place gates none ctx = refl
  reject_given-place gates (some r) ctx = refl

  reject_if-place :
      {W : Type 0} (gates : Gates V W) (reason : Option String) (ctx : Context V)
      → verdict_place (reject_if gates reason ctx) ≡ place ctx
  unfolding reject_if
  reject_if-place gates reason ctx = reject_given-place gates (truthy reason) ctx

  gate_then-place :
      (q : Place) (v : Verdict V) (f : Context V → Verdict V)
      → verdict_place v ≡ q
      → ((c : Context V) → verdict_place (f c) ≡ place c)
      → verdict_place (gate_then v f) ≡ q
  gate_then-place q (stop ctx) f e g = e
  gate_then-place q (pass ctx) f e g = g ctx ∙ e

  module _ {W : Type 0} (values : Values V) (gates : Gates V W) where
    and_then-place :
        (q : Place) (v : Verdict V) (w : W) (f : Context V → W → Verdict V × W)
        → verdict_place v ≡ q
        → ((c : Context V) (u : W) → verdict_place (f c u).0 ≡ place c)
        → verdict_place (and_then (v, w) f).0 ≡ q
    and_then-place q (stop ctx) w f e g = e
    and_then-place q (pass ctx) w f e g = g ctx w ∙ e

    normalize_row-place :
        (row : Dict String V) (ctx : Context V)
        → verdict_place (normalize_row gates row ctx) ≡ place ctx
    unfolding normalize_row
    normalize_row-place row ctx = ground arith

    parsed_line-place :
        (l : Parsed (Dict String V)) (ctx : Context V)
        → verdict_place (parsed_line gates l ctx) ≡ place ctx
    unfolding parsed_line
    parsed_line-place Parsed.blank ctx = refl
    parsed_line-place Parsed.parse_error ctx = refl
    parsed_line-place (parsed row) ctx = normalize_row-place row (record ctx { row = some row })

    row_or_line-place :
        (row : Option (Dict String V)) (line : String) (ctx : Context V)
        → verdict_place (row_or_line gates row line ctx) ≡ place ctx
    unfolding row_or_line
    row_or_line-place none line ctx = parsed_line-place (parse_jsonl_line gates.loads line) ctx
    row_or_line-place (some row) line ctx = normalize_row-place row ctx

    stage1-place :
        (line : String) (ctx : Context V)
        → verdict_place (stage1_fast_preprocess gates line ctx) ≡ place ctx
    unfolding stage1_fast_preprocess
    stage1-place line ctx =
        row_or_line-place ctx.row line (mark "s1_fast_preprocess" ctx)
        ∙ mark-place "s1_fast_preprocess" ctx

    size_gates-place :
        (src_name : String) (ctx : Context V)
        → verdict_place (size_gates gates src_name ctx) ≡ place ctx
    unfolding size_gates
    size_gates-place src_name ctx =
        let size = early_document_size_gate gates src_name ctx.meaningful_chars in
        gate_then-place (place ctx) (reject_if gates size ctx)
          (λ c. reject_if gates (early_document_max_gate gates c.text src_name) c)
          (reject_if-place gates size ctx)
          (λ c. reject_if-place gates (early_document_max_gate gates c.text src_name) c)

    language_gate-place : (ctx : Context V) → verdict_place (language_gate gates ctx) ≡ place ctx
    unfolding language_gate
    language_gate-place ctx =
        let (reason, assessment) = gates.early_language_gate ctx.text ctx.meaningful_chars in
        reject_if-place gates reason (record ctx { language_assessment = assessment })

    doc_dedup-place :
        (src_name : String) (ctx : Context V) (w : W)
        → verdict_place (doc_dedup gates src_name ctx w).0 ≡ place ctx
    unfolding doc_dedup reject mark
    doc_dedup-place src_name ctx w = ground arith

    structural_filter-place :
        (ctx : Context V) → verdict_place (structural_filter gates ctx) ≡ place ctx
    unfolding structural_filter
    structural_filter-place ctx =
        let raw = gates.document_gate_raw ctx.text in
        reject_if-place gates (gates.run_stage0_content_filters ctx.text ctx.meaningful_chars raw)
          (record (mark "s2_structural_filter" ctx) { raw_features = some raw })
        ∙ mark-place "s2_structural_filter" ctx

    admit-place : (ctx : Context V) → place (admit gates ctx) ≡ place ctx
    unfolding admit
    admit-place ctx =
        mark-place "s3_admission" (mark "s2_metadata" ctx) ∙ mark-place "s2_metadata" ctx

    language_item-place :
        (a : Option V) (ctx : Context V)
        → verdict_place (language_item values gates a ctx) ≡ place ctx
    unfolding language_item
    language_item-place (some a) ctx = refl
    language_item-place none ctx =
        language_gate-place (mark "s2_fast_filter" ctx) ∙ mark-place "s2_fast_filter" ctx

    content_item-place :
        (cleared : Bool) (raw : Option V) (ctx : Context V)
        → verdict_place (content_item values gates cleared raw ctx) ≡ place ctx
    unfolding content_item
    content_item-place true none ctx = refl
    content_item-place true (some raw) ctx = refl
    content_item-place false raw ctx = structural_filter-place ctx

    stage0_content-place :
        (p : Payload V) (ctx : Context V) (w : W)
        → verdict_place (stage0_content values gates p ctx w).0 ≡ place ctx
    unfolding stage0_content stage0_admit
    stage0_content-place p ctx w =
        and_then-place (place ctx) (content_item values gates p.stage0_cleared p.raw_features ctx) w
          (stage0_admit values gates) (content_item-place p.stage0_cleared p.raw_features ctx)
          (λ c u. admit-place c)

    stage0_dedup-place :
        (p : Payload V) (ctx : Context V) (w : W)
        → verdict_place (stage0_dedup values gates p ctx w).0 ≡ place ctx
    unfolding stage0_dedup
    stage0_dedup-place p ctx w =
        let (verdict, u) = doc_dedup gates p.src_name ctx w in
        and_then-place (place ctx) verdict u (stage0_content values gates p)
          (doc_dedup-place p.src_name ctx w) (stage0_content-place p)

    stage0_verdict-place :
        (p : Payload V) (ctx : Context V) (w : W)
        → verdict_place (stage0_verdict values gates p ctx w).0 ≡ place ctx
    unfolding stage0_verdict
    stage0_verdict-place p ctx w =
        and_then-place (place ctx) (language_item values gates ctx.language_assessment ctx) w
          (stage0_dedup values gates p) (language_item-place ctx.language_assessment ctx)
          (stage0_dedup-place p)

    preprocess_left-place :
        (item : Item V) (v : Verdict V) (store : Store)
        → left_place (preprocess_left values gates item v store).0 ≡ verdict_place v
    unfolding preprocess_left blank_result survivor_payload
    preprocess_left-place item (stop ctx) store = refl
    preprocess_left-place item (pass ctx) store = refl

    filter_left-place :
        (p : Payload V) (v : Verdict V) (store : Store)
        → left_place (filter_left values gates p v store).0 ≡ verdict_place v
    unfolding filter_left filtered_result survivor_payload
    filter_left-place p (stop ctx) store = refl
    filter_left-place p (pass ctx) store = refl

    stage0_left-place :
        (p : Payload V) (v : Verdict V) (store : Store)
        → left_place (stage0_left values gates p v store).0 ≡ verdict_place v
    unfolding stage0_left processed_result survivor_payload
    stage0_left-place p (stop ctx) store = refl
    stage0_left-place p (pass ctx) store = refl

    pub preprocess_item-place :
        (item : Item V) (w : Worker W)
        → left_place (preprocess_item values gates item w).0 ≡ item_place item
    unfolding preprocess_item new_context
    preprocess_item-place item w =
        let verdict = stage1_fast_preprocess gates item.line (new_context item) in
        preprocess_left-place item verdict w.store ∙ stage1-place item.line (new_context item)

    pub filter_item-place :
        (p : Payload V) (w : Worker W)
        → left_place (filter_item values gates p w).0 ≡ payload_place p
    unfolding filter_item filter_context
    filter_item-place p w =
        let (ctx, store) = from_survivor_payload values p w.store in
        let ctx₁ = filter_context values gates p ctx in
        let ctx₂ = mark "s2_fast_filter" ctx₁ in
        filter_left-place p (size_gates gates p.src_name ctx₂) store
        ∙ size_gates-place p.src_name ctx₂
        ∙ mark-place "s2_fast_filter" ctx₁
        ∙ from-place values p w.store

    pub stage0_item-place :
        (p : Payload V) (w : Worker W)
        → left_place (stage0_item values gates p w).0 ≡ payload_place p
    unfolding stage0_item
    stage0_item-place p w =
        let (ctx, store) = from_survivor_payload values p w.store in
        let (verdict, world) = stage0_verdict values gates p ctx w.live.world in
        stage0_left-place p verdict store
        ∙ stage0_verdict-place p ctx w.live.world
        ∙ from-place values p w.store
