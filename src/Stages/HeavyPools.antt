-- ===== src/Stages/HeavyPools.antt =====
-- The pools of a heavy worker: pci.py and acim.py of src/indw/schedule/intel/pools, clean.py and
-- `process_heavy_chain_batch` of src/indw/schedule/stages/pools, with the checks of a payload of
-- src/indw/filter/stage0/verify.py; and `process_merge_batch` of src/indw/schedule/dispatch/workers.py.
--
-- The cost rows and the cleaning statistics are left out. An exception ends a batch, and is `none`.
use instant_ai_data_workflow.Prelude.{
  Bool, true, false, not, ◌||◌, Option, none, some, List, [], ◌∷◌, ◌++◌, ◌==◌, if◌then◌else◌,
  String, nat_eq, string_eq, map,
}
use instant_ai_data_workflow.Jsonl.{is_blank}
use instant_ai_data_workflow.Stages.{Context}
use instant_ai_data_workflow.Stages.{Payload, Store, Values, truthy}
use instant_ai_data_workflow.Stages.Survivor.{
  survivor_payload, from_survivor_payload, resolve_survivor_text, strip,
}
use instant_ai_data_workflow.Stages.Engine.{Gates, Item}
use instant_ai_data_workflow.Stages.Cleaning.{
  Result, Heavy, stage3_intermediate, stage4_intel_preview, stage4_high_quality, end_document,
}
use instant_ai_data_workflow.Stages.Pools.{Worker, with_work_dir, process_fast_chain_batch}

unfoldable pub traced : String → List String → Bool
traced stage [] = false
traced stage (s ∷ ss) = s == stage || traced stage ss

-- What a loop over a batch has, where its first item has raised or not.
unfoldable pub then_items :
    {A W : Type 0} → Option A → Worker W → Option (List A) → Worker W → Option (List A) × Worker W
then_items none w₁ rest w₂ = (none, w₁)
then_items (some r) w₁ none w₂ = (none, w₂)
then_items (some r) w₁ (some rs) w₂ = (some (r ∷ rs), w₂)

-- A loop over a batch that ends at the first exception.
unfoldable pub try_each :
    {A B W : Type 0}
    → (A → Worker W → Option B × Worker W)
    → List A
    → Worker W
    → Option (List B) × Worker W
unfolding then_items
try_each f [] w = (some [], w)
try_each f (p ∷ ps) w =
    let (first, w₁) = f p w in let (rest, w₂) = try_each f ps w₁ in then_items first w₁ rest w₂

module _ {V W : Type 0} (values : Values V) (heavy : Heavy V W) where
  -- The payload of the next pool, where no stage has raised.
  unfoldable pub pci_payload :
      Payload V → Option (Context V) → Worker W → Option (Payload V) × Worker W
  unfolding survivor_payload
  pci_payload p none w = (none, w)
  pci_payload p (some ctx) w =
      let (q, store) = survivor_payload values p.work_dir ctx w.store in
      (some (record q { pci_fp = ctx.pci_fp }), record w { store = store })

  unfoldable pub pci_item : Payload V → Worker W → Option (Payload V) × Worker W
  unfolding from_survivor_payload stage3_intermediate pci_payload
  pci_item p w =
      let (ctx, store) = from_survivor_payload values p w.store in
      let (o, live) = stage3_intermediate heavy p.src_name ctx w.live in
      pci_payload p o (record w { store = store; live = live })

  unfoldable pub acim_payload :
      Payload V → Option (Context V) → Worker W → Option (Payload V) × Worker W
  unfolding survivor_payload
  acim_payload p none w = (none, w)
  acim_payload p (some ctx) w =
      let (q, store) = survivor_payload values p.work_dir ctx w.store in
      (
        some (record q {
          pci_fp = ctx.pci_fp;
          acim_intel = ctx.acim_intel;
          acim_route = ctx.acim_route;
          lci = ctx.lci;
        }),
        record w { store = store },
      )

  unfoldable pub acim_item : Payload V → Worker W → Option (Payload V) × Worker W
  unfolding from_survivor_payload stage4_intel_preview acim_payload
  acim_item p w =
      let (ctx, store) = from_survivor_payload values p w.store in
      acim_payload p (stage4_intel_preview heavy p.src_name ctx) (record w { store = store })

  -- `resolve_survivor_payload_text`
  unfoldable pub resolve_survivor_payload_text : Payload V → Store → String × Store
  unfolding strip resolve_survivor_text
  resolve_survivor_payload_text p store =
      let text = strip p.text in
      if not (text == "") then (text, store) else elim (truthy p.text_store_key) [
        | none ↦ ("", store)
        | some key ↦
            if strip key == ""
            then ("", store)
            else (let (found, store') = resolve_survivor_text values p store in
                (strip found, store'))
      ]

  -- `validate_survivor_payload`: whether it returns.
  unfoldable pub validate_survivor_payload : Payload V → Store → Bool × Store
  unfolding resolve_survivor_payload_text
  validate_survivor_payload p store =
      if traced "s3_admission" p.stage_trace
      then (let (text, store') = resolve_survivor_payload_text p store in
          (not (text == ""), store'))
      else (false, store)

  -- The payload with the work directory of the worker, and with its text where that is stored.
  unfoldable pub with_text : String → Payload V → Store → Payload V × Store
  unfolding resolve_survivor_payload_text
  with_text work_dir p store =
      let q = record p {
        work_dir =
            if work_dir == ""
            then p.work_dir
            else elim p.work_dir [ none ↦ some work_dir | some wd ↦ some wd ];
      } in
      if is_blank q.text
      then (let (text, store') = resolve_survivor_payload_text q store in
          (if text == "" then q else record q { text = text }, store'))
      else (q, store)

  -- The rest of the loop's body, where the validation has raised or not.
  unfoldable pub clean_validated :
      Bool → Payload V → Store → Worker W → Option (Result V) × Worker W
  unfolding from_survivor_payload stage4_high_quality end_document
  clean_validated false p store w = (none, record w { store = store })
  clean_validated true p store w =
      let (ctx, store') = from_survivor_payload values p store in
      let (result, live) =
        end_document heavy
          (stage4_high_quality heavy p.src_name ctx (record w.live { context_bound = true })) in
      (result, record w { store = store'; live = live })

  -- `none` where the validation or the pipeline raises.
  unfoldable pub clean_item : Payload V → Worker W → Option (Result V) × Worker W
  unfolding with_text validate_survivor_payload clean_validated
  clean_item p w =
      let (q, store) = with_text w.work_dir p w.store in
      let (valid, store') = validate_survivor_payload q store in clean_validated valid q store' w

  -- The batch ends at the first exception.
  unfoldable pub process_clean_batch :
      List (Payload V) → Worker W → Option (List (Result V)) × Worker W
  unfolding clean_item then_items
  process_clean_batch [] w = (some [], w)
  process_clean_batch (p ∷ ps) w =
      let (result, w₁) = clean_item p w in
      let (rest, w₂) = process_clean_batch ps w₁ in then_items result w₁ rest w₂

  -- `process_clean_batch` of what `process_acim_batch` gives.
  unfoldable pub after_acim :
      Option (List (Payload V)) → Worker W → Option (List (Result V)) × Worker W
  after_acim none w = (none, w)
  after_acim (some ps) w = process_clean_batch ps w

  -- `process_acim_batch` of what `process_pci_batch` gives.
  unfoldable pub after_pci :
      Option (List (Payload V)) → Worker W → Option (List (Result V)) × Worker W
  unfolding after_acim
  after_pci none w = (none, w)
  after_pci (some ps) w = let (acim, w₁) = try_each acim_item ps w in after_acim acim w₁

  -- `none` where a pool raises.
  unfoldable pub process_heavy_chain_batch :
      List (Payload V) → Worker W → Option (List (Result V)) × Worker W
  unfolding after_pci
  process_heavy_chain_batch batch w = let (pci, w₁) = try_each pci_item batch w in after_pci pci w₁

unfoldable pub all_items :
    {V : Type 0} → List (Result V) → Option (List (Result V)) → Option (List (Result V))
all_items done none = none
all_items done (some rs) = some (done ++ rs)

module _ {V W : Type 0} (values : Values V) (gates : Gates V W) (heavy : Heavy V W) where
  unfoldable pub process_merge_batch :
      List (Item V) → Worker W → Option (List (Result V)) × Worker W
  process_merge_batch batch w =
      let ((done, left), w₁) =
        process_fast_chain_batch values gates (map (with_work_dir (some w.work_dir)) batch) w in
      let (items, w₂) = process_heavy_chain_batch values heavy left w₁ in (all_items done items, w₂)
