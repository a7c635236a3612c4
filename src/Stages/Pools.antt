-- ===== src/Stages/Pools.antt =====
-- The pools of a fast worker: preprocess.py, filter.py, stage0.py and `process_fast_chain_batch` of
-- chain.py, all of src/indw/schedule/stages/pools.
--
-- A worker that was initialised has a gate and a deduplication. The cost rows of the stages are left
-- out. `Worker` is the state of a worker: its store, what it keeps open, and its work directory.
use instant_ai_data_workflow.Prelude.{
  Bool, true, false, Option, none, some, List, [], ◌∷◌, ◌++◌, ◌==◌, if◌then◌else◌, String, nat_eq,
  string_eq, map,
}
use instant_ai_data_workflow.Stages.{processed, Context, Payload, Store, Values, mark, truthy}
use instant_ai_data_workflow.Stages.Survivor.{survivor_payload, from_survivor_payload}
use instant_ai_data_workflow.Stages.Engine.{
  Gates, Item, Verdict, stop, pass, new_context, stage1_fast_preprocess, size_gates, language_gate,
  doc_dedup, structural_filter, admit, and_then,
}
use instant_ai_data_workflow.Stages.Cleaning.{Result, Live, blank_result, processed_result}

pub record Worker (W : Type 0) : Type 0 where
  pub store : Store
  pub live : Live W
  pub work_dir : String

-- What a pool makes of an item: a line that is done, or a payload for the next pool.
pub data Left (V : Type 0) : Type 0 where
  terminal : Result V → Left V
  survivor : Payload V → Left V

-- The two lists of a batch, in the order of its items.
unfoldable pub terminals : {V : Type 0} → List (Left V) → List (Result V)
terminals [] = []
terminals (terminal r ∷ ls) = r ∷ terminals ls
terminals (survivor p ∷ ls) = terminals ls

unfoldable pub survivors : {V : Type 0} → List (Left V) → List (Payload V)
survivors [] = []
survivors (terminal r ∷ ls) = survivors ls
survivors (survivor p ∷ ls) = p ∷ survivors ls

-- `row['_work_dir'] = work_dir` where a row has none.
unfoldable pub with_work_dir : {V : Type 0} → Option String → Item V → Item V
with_work_dir work_dir item = elim (truthy work_dir) [
  | none ↦ item
  | some wd ↦ elim (truthy item.work_dir) [
    | none ↦ record item { work_dir = some wd }
    | some _ ↦ item
  ]
]

-- The work directory of the first item.
unfoldable pub first_work_dir : {V : Type 0} → List (Item V) → Option String
first_work_dir [] = none
first_work_dir (item ∷ items) = item.work_dir

-- The loop of a pool over its batch.
unfoldable pub each : {A B S : Type 0} → (A → S → B × S) → List A → S → List B × S
each step [] s = ([], s)
each step (a ∷ as') s = let (b, s₁) = step a s in let (bs, s₂) = each step as' s₁ in (b ∷ bs, s₂)

module _ {V W : Type 0} (values : Values V) (gates : Gates V W) where
  -- `_survivor`: what the item gives stands before what the context has.
  unfoldable pub first_of : Option V → Option V → Option V
  first_of (some v) other = some v
  first_of none other = other

  unfoldable pub preprocess_left : Item V → Verdict V → Store → Left V × Store
  unfolding blank_result survivor_payload first_of
  preprocess_left item (stop ctx) store = (terminal (blank_result ctx), store)
  preprocess_left item (pass ctx) store =
      let (p, store') = survivor_payload values item.work_dir ctx store in
      (
        survivor (record p {
          provenance = first_of item.provenance p.provenance;
          ingest_meta = first_of item.ingest_meta p.ingest_meta;
        }),
        store',
      )

  unfoldable pub preprocess_item : Item V → Worker W → Left V × Worker W
  unfolding new_context stage1_fast_preprocess preprocess_left
  preprocess_item item w =
      let (left, store) =
        preprocess_left item (stage1_fast_preprocess gates item.line (new_context item)) w.store in
      (left, record w { store = store })

  -- `_processed` of the filter pool
  unfoldable pub filtered_result : Context V → Result V
  filtered_result ctx = record {
    seq = ctx.seq;
    src_name = ctx.src_name;
    line_no = ctx.line_no;
    kind = processed;
    cleaning_rejects = ctx.cleaning_rejects;
    chunks = ctx.chunks;
    stage_trace = ctx.stage_trace;
    body = some (record {
      raw_text = ctx.text;
      row = ctx.row;
      provenance = ctx.provenance;
      language_assessment = ctx.language_assessment;
      pci_fp = none;
      acim_intel = none;
      acim_route = none;
      lci = none;
      doc_tier = "";
      admission = none;
      ingest_meta = none;
    });
    reject_tier = some 0;
  }

  -- The text and the count of the payload, where it has them.
  unfoldable pub filter_context : Payload V → Context V → Context V
  filter_context p ctx = record ctx {
    text = if p.text == "" then ctx.text else p.text;
    meaningful_chars = if p.meaningful_chars == 0 then ctx.meaningful_chars else p.meaningful_chars;
  }

  unfoldable pub filter_left : Payload V → Verdict V → Store → Left V × Store
  unfolding filtered_result survivor_payload
  filter_left p (stop ctx) store = (terminal (filtered_result ctx), store)
  filter_left p (pass ctx) store =
      let (q, store') = survivor_payload values p.work_dir ctx store in (survivor q, store')

  unfoldable pub filter_item : Payload V → Worker W → Left V × Worker W
  unfolding from_survivor_payload mark size_gates filter_context filter_left
  filter_item p w =
      let (ctx, store) = from_survivor_payload values p w.store in
      let verdict = size_gates gates p.src_name (mark "s2_fast_filter" (filter_context p ctx)) in
      let (left, store') = filter_left p verdict store in (left, record w { store = store' })

  -- A document that has an assessment has passed the language gate.
  unfoldable pub language_item : Option V → Context V → Verdict V
  unfolding mark language_gate
  language_item (some assessment) ctx = pass ctx
  language_item none ctx = language_gate gates (mark "s2_fast_filter" ctx)

  -- Content that was cleared before is not filtered again.
  unfoldable pub content_item : Bool → Option V → Context V → Verdict V
  unfolding structural_filter
  content_item true none ctx = pass ctx
  content_item true (some raw) ctx = pass (record ctx { raw_features = some raw })
  content_item false raw ctx = structural_filter gates ctx

  unfoldable pub stage0_admit : Context V → W → Verdict V × W
  unfolding admit
  stage0_admit ctx w = (pass (admit gates ctx), w)

  unfoldable pub stage0_content : Payload V → Context V → W → Verdict V × W
  unfolding content_item stage0_admit
  stage0_content p ctx w =
      and_then (content_item p.stage0_cleared p.raw_features ctx, w) stage0_admit

  unfoldable pub stage0_dedup : Payload V → Context V → W → Verdict V × W
  unfolding doc_dedup stage0_content
  stage0_dedup p ctx w = and_then (doc_dedup gates p.src_name ctx w) (stage0_content p)

  unfoldable pub stage0_verdict : Payload V → Context V → W → Verdict V × W
  unfolding language_item stage0_dedup
  stage0_verdict p ctx w = and_then (language_item ctx.language_assessment ctx, w) (stage0_dedup p)

  unfoldable pub stage0_left : Payload V → Verdict V → Store → Left V × Store
  unfolding processed_result survivor_payload
  stage0_left p (stop ctx) store =
      (terminal (record (processed_result ctx) { reject_tier = some 1 }), store)
  stage0_left p (pass ctx) store =
      let (q, store') = survivor_payload values p.work_dir ctx store in
      (survivor (record q { stage0_cleared = true }), store')

  unfoldable pub stage0_item : Payload V → Worker W → Left V × Worker W
  unfolding from_survivor_payload stage0_verdict stage0_left
  stage0_item p w =
      let (ctx, store) = from_survivor_payload values p w.store in
      let (verdict, world) = stage0_verdict p ctx w.live.world in
      let (left, store') = stage0_left p verdict store in
      (left, record w { store = store'; live = record w.live { world = world } })

  -- The terminal lines of the three pools, and what is left for the heavy worker. A pool without
  -- a batch has nothing to do.
  unfoldable pub process_fast_chain_batch :
      List (Item V) → Worker W → (List (Result V) × List (Payload V)) × Worker W
  process_fast_chain_batch batch w =
      let rows = map (with_work_dir (first_work_dir batch)) batch in
      let (pre, w₁) = each preprocess_item rows w in
      let (filt, w₂) = each filter_item (survivors pre) w₁ in
      let (s0, w₃) = each stage0_item (survivors filt) w₂ in
      ((terminals pre ++ (terminals filt ++ terminals s0), survivors s0), w₃)
