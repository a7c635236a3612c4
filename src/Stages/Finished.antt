-- ===== src/Stages/Finished.antt =====
-- Each line of a batch leaves the heavy pools once, and a worker that does all stages.
use mathlib.Core.List.{Perm, map-append}
use instant_ai_data_workflow.Prelude.{Option-cases, inl, inr}
use instant_ai_data_workflow.Prelude.{
  ◌≡◌, refl, sym, ap, subst, ◌∙◌, Bool, true, false, Option, none, some, List, [], ◌∷◌, ◌++◌,
  String, map, arith, string_eq,
}
use instant_ai_data_workflow.Stages.{Context, Payload, Store, Values, mark}
use instant_ai_data_workflow.Stages.Survivor.{survivor_payload, from_survivor_payload}
use instant_ai_data_workflow.Stages.Engine.{Gates, Item}
use instant_ai_data_workflow.Stages.Cleaning.{
  Result, Live, Heavy, processed_result, stage3_intermediate, stage4_intel_preview, previewed,
  preview_of,
}
use instant_ai_data_workflow.Stages.Keeps.{Kept, stage4-kept}
use instant_ai_data_workflow.Stages.Pools.{Worker, with_work_dir, process_fast_chain_batch}
use instant_ai_data_workflow.Stages.HeavyPools.{
  pci_item, acim_item, with_text, clean_item, clean_validated, validate_survivor_payload,
  then_items, try_each, after_acim, after_pci, pci_payload, acim_payload, all_items,
  process_clean_batch, process_heavy_chain_batch, process_merge_batch,
}
use instant_ai_data_workflow.Stages.Batches.{with_work_dirs-place, process_fast_chain_batch-perm}
use instant_ai_data_workflow.Stages.Conserved.{
  Place, place, result_place, payload_place, item_place, mark-place, from-place,
}

finished-place : {V : Type 0} (ctx : Context V) → result_place (processed_result ctx) ≡ place ctx
unfolding processed_result
finished-place ctx = refl

some_inj : {A : Type 0} {x y : A} → some x ≡ some y → x ≡ y
some_inj e = cc

pub then_items-eq_some :
    {A W : Type 0} (first : Option A) (w₁ : Worker W) (rest : Option (List A)) (w₂ : Worker W)
    (rs : List A)
    → (then_items first w₁ rest w₂).0 ≡ some rs
    → (r : A) × (rs' : List A) × (first ≡ some r) × (rest ≡ some rs') × (r ∷ rs' ≡ rs)
unfolding then_items
then_items-eq_some none w₁ rest w₂ rs e = cc
then_items-eq_some (some r) w₁ none w₂ rs e = cc
then_items-eq_some (some r) w₁ (some rs') w₂ rs e = (r, rs', refl, refl, cc)

-- What a function of the worker keeps of each item, the loop keeps of the batch.
try_each_keeps :
    {P Q K W : Type 0} (f : P → Worker W → Option Q × Worker W) (of_p : P → K) (of_q : Q → K)
    → ((p : P) (w : Worker W) (q : Q) → (f p w).0 ≡ some q → of_q q ≡ of_p p)
    → (ps : List P) (w : Worker W) (qs : List Q) → (try_each f ps w).0 ≡ some qs
    → map of_q qs ≡ map of_p ps
unfolding try_each
try_each_keeps f of_p of_q keeps [] w qs e = let same : [] ≡ qs = cc in ap (map of_q) (sym same)
try_each_keeps f of_p of_q keeps (p ∷ ps) w qs e =
    let (first, w₁) = f p w in
    let (rest, w₂) = try_each f ps w₁ in
    let (q, qs', given, others, same) = then_items-eq_some first w₁ rest w₂ qs e in
    ap (map of_q) (sym same)
    ∙ ap (λ x. x ∷ map of_q qs') (keeps p w q given)
    ∙ ap (λ xs. of_p p ∷ xs) (try_each_keeps f of_p of_q keeps ps w₁ qs' others)

module _ {V W : Type 0} (values : Values V) (heavy : Heavy V W) where
  stage3-place :
      (src_name : String) (ctx c : Context V) (live : Live W)
      → (stage3_intermediate heavy src_name ctx live).0 ≡ some c
      → place c ≡ place ctx
  unfolding stage3_intermediate
  stage3-place src_name ctx c live e =
      elim (Option-cases (heavy.build_fingerprint_bundle_detail ctx.text ctx.raw_features)) [
        | inl raised ↦ absurd (ground (arith, e, raised))
        | inr (((fp, scan), pci_fp), built) ↦
            ap place (sym (some_inj (rw (built, stage3_intermediate) at e)))
            ∙ mark-place "s3_intermediate" ctx
      ]

  pci_payload-place :
      (p : Payload V) (o : Option (Context V)) (w : Worker W) (q : Payload V)
      → ((c : Context V) → o ≡ some c → place c ≡ payload_place p)
      → (pci_payload values heavy p o w).0 ≡ some q
      → payload_place q ≡ payload_place p
  unfolding pci_payload survivor_payload
  pci_payload-place p none w q same e = cc
  pci_payload-place p (some c) w q same e = ap payload_place (sym (some_inj e)) ∙ same c refl

  pci_item-place :
      (p : Payload V) (w : Worker W) (q : Payload V)
      → (pci_item values heavy p w).0 ≡ some q
      → payload_place q ≡ payload_place p
  unfolding pci_item
  pci_item-place p w q e =
      let (ctx, store) = from_survivor_payload values p w.store in
      let (o, live) = stage3_intermediate heavy p.src_name ctx w.live in
      pci_payload-place p o (record w { store = store; live = live }) q
        (λ c found. stage3-place p.src_name ctx c w.live found ∙ from-place values p w.store) e

  previewed-place :
      (found : Option V × Option V × Option V) (ctx : Context V)
      → place (previewed heavy found ctx) ≡ place ctx
  unfolding previewed
  previewed-place (none, route, lci) ctx = refl
  previewed-place (some v, route, lci) ctx = refl

  preview_of-place :
      (preview : Option (String → String → V → Option V → Option (Option V × Option V × Option V)))
      (fp : Option V) (src_name : String) (ctx c : Context V)
      → preview_of heavy preview fp src_name ctx ≡ some c
      → place c ≡ place ctx
  unfolding preview_of
  preview_of-place none fp src_name ctx c e = ap place (sym (some_inj e))
  preview_of-place (some preview) none src_name ctx c e = ap place (sym (some_inj e))
  preview_of-place (some preview) (some fp) src_name ctx c e =
      elim (Option-cases (preview ctx.text src_name fp ctx.fp_scan)) [
        | inl raised ↦ absurd (ground (arith, e, raised))
        | inr (found, given) ↦
            ap place (sym (some_inj (rw (given, preview_of) at e))) ∙ previewed-place found ctx
      ]

  stage4_intel_preview-place :
      (src_name : String) (ctx c : Context V)
      → stage4_intel_preview heavy src_name ctx ≡ some c
      → place c ≡ place ctx
  unfolding stage4_intel_preview
  stage4_intel_preview-place src_name ctx c e =
      preview_of-place heavy.preview_for_cleaning ctx.fp src_name (mark "s4_intel_preview" ctx) c e
      ∙ mark-place "s4_intel_preview" ctx

  acim_payload-place :
      (p : Payload V) (o : Option (Context V)) (w : Worker W) (q : Payload V)
      → ((c : Context V) → o ≡ some c → place c ≡ payload_place p)
      → (acim_payload values heavy p o w).0 ≡ some q
      → payload_place q ≡ payload_place p
  unfolding acim_payload survivor_payload
  acim_payload-place p none w q same e = cc
  acim_payload-place p (some c) w q same e = ap payload_place (sym (some_inj e)) ∙ same c refl

  acim_item-place :
      (p : Payload V) (w : Worker W) (q : Payload V)
      → (acim_item values heavy p w).0 ≡ some q
      → payload_place q ≡ payload_place p
  unfolding acim_item
  acim_item-place p w q e =
      let (ctx, store) = from_survivor_payload values p w.store in
      acim_payload-place p (stage4_intel_preview heavy p.src_name ctx) (record w { store = store })
        q
        (λ c found. stage4_intel_preview-place p.src_name ctx c found ∙ from-place values p w.store)
        e

  abbrev places : Kept V Place
  places = record {
    of_context = place;
    of_result = result_place;
    marked = mark-place;
    with_rejects = λ rejects ctx. refl;
    with_chunks = λ chunks ctx. refl;
    finished = finished-place;
  }

  with_text-place :
      (work_dir : String) (p : Payload V) (store : Store)
      → payload_place (with_text values heavy work_dir p store).0 ≡ payload_place p
  unfolding with_text
  with_text-place work_dir p store = ground arith

  clean_validated-place :
      (valid : Bool) (p : Payload V) (store : Store) (w : Worker W) (r : Result V)
      → (clean_validated values heavy valid p store w).0 ≡ some r
      → result_place r ≡ payload_place p
  unfolding clean_validated
  clean_validated-place false p store w r e = cc
  clean_validated-place true p store w r e =
      stage4-kept heavy places (payload_place p) p.src_name (from_survivor_payload values p store).0
        (record w.live { context_bound = true }) r (from-place values p store) e

  clean_item-place :
      (p : Payload V) (w : Worker W) (r : Result V)
      → (clean_item values heavy p w).0 ≡ some r
      → result_place r ≡ payload_place p
  unfolding clean_item
  clean_item-place p w r e =
      let (q, store) = with_text values heavy w.work_dir p w.store in
      let (valid, store') = validate_survivor_payload values heavy q store in
      clean_validated-place valid q store' w r e ∙ with_text-place w.work_dir p w.store

  process_clean_batch-places :
      (ps : List (Payload V)) (w : Worker W) (rs : List (Result V))
      → (process_clean_batch values heavy ps w).0 ≡ some rs
      → map result_place rs ≡ map payload_place ps
  unfolding process_clean_batch
  process_clean_batch-places [] w rs e = let same : [] ≡ rs = cc in ap (map result_place) (sym same)
  process_clean_batch-places (p ∷ ps) w rs e =
      let (first, w₁) = clean_item values heavy p w in
      let (rest, w₂) = process_clean_batch values heavy ps w₁ in
      let (r, rs', f, g, same) = then_items-eq_some first w₁ rest w₂ rs e in
      ap (map result_place) (sym same)
      ∙ ap (λ x. x ∷ map result_place rs') (clean_item-place p w r f)
      ∙ ap (λ xs. payload_place p ∷ xs) (process_clean_batch-places ps w₁ rs' g)

  after_acim-places :
      (o : Option (List (Payload V))) (ps : List (Payload V)) (w : Worker W) (rs : List (Result V))
      → ((qs : List (Payload V)) → o ≡ some qs → map payload_place qs ≡ map payload_place ps)
      → (after_acim values heavy o w).0 ≡ some rs
      → map result_place rs ≡ map payload_place ps
  unfolding after_acim
  after_acim-places none ps w rs kept e = cc
  after_acim-places (some qs) ps w rs kept e = process_clean_batch-places qs w rs e ∙ kept qs refl

  after_pci-places :
      (o : Option (List (Payload V))) (ps : List (Payload V)) (w : Worker W) (rs : List (Result V))
      → ((qs : List (Payload V)) → o ≡ some qs → map payload_place qs ≡ map payload_place ps)
      → (after_pci values heavy o w).0 ≡ some rs
      → map result_place rs ≡ map payload_place ps
  unfolding after_pci
  after_pci-places none ps w rs kept e = cc
  after_pci-places (some qs) ps w rs kept e =
      let (acim, w₁) = try_each (acim_item values heavy) qs w in
      after_acim-places acim qs w₁ rs
        (try_each_keeps (acim_item values heavy) payload_place payload_place acim_item-place qs w) e
      ∙ kept qs refl

  process_heavy_chain_batch-places :
      (ps : List (Payload V)) (w : Worker W) (rs : List (Result V))
      → (process_heavy_chain_batch values heavy ps w).0 ≡ some rs
      → map result_place rs ≡ map payload_place ps
  unfolding process_heavy_chain_batch
  process_heavy_chain_batch-places ps w rs e =
      let (pci, w₁) = try_each (pci_item values heavy) ps w in
      after_pci-places pci ps w₁ rs
        (try_each_keeps (pci_item values heavy) payload_place payload_place pci_item-place ps w) e

module _ {V W : Type 0} (values : Values V) (gates : Gates V W) (heavy : Heavy V W) where
  all_items-places :
      (finished : List (Result V)) (left_over all : List Place) (items : Option (List (Result V)))
      (rs : List (Result V))
      → Perm (map result_place finished ++ left_over) all
      → ((r : List (Result V)) → items ≡ some r → map result_place r ≡ left_over)
      → all_items finished items ≡ some rs
      → Perm (map result_place rs) all
  unfolding all_items
  all_items-places finished left_over all none rs p f e = cc
  all_items-places finished left_over all (some r) rs p f e =
      let same : finished ++ r ≡ rs = cc in
      subst (λ xs. Perm xs all)
        (ap (λ xs. map result_place finished ++ xs) (sym (f r refl))
          ∙ sym (map-append result_place finished r)
          ∙ ap (map result_place) same)
        p

  -- A worker that does all stages and finishes its batch gives a line for each line of the batch, and
  -- no other: each with its number, its source and its line there, whatever stage it left at.
  pub process_merge_batch-perm :
      (batch : List (Item V)) (w : Worker W) {rs : List (Result V)}
      → (process_merge_batch values gates heavy batch w).0 ≡ some rs
      → Perm (map result_place rs) (map item_place batch)
  unfolding process_merge_batch
  process_merge_batch-perm batch w {rs} e =
      let rows = map (with_work_dir (some w.work_dir)) batch in
      let ((finished, kept), w₁) = process_fast_chain_batch values gates rows w in
      let (items, w₂) = process_heavy_chain_batch values heavy kept w₁ in
      all_items-places finished (map payload_place kept) (map item_place batch) items rs
        (subst (Perm (map result_place finished ++ map payload_place kept))
          (with_work_dirs-place (some w.work_dir) batch)
          (process_fast_chain_batch-perm values gates rows w))
        (λ r. process_heavy_chain_batch-places values heavy kept w₁ r) e
