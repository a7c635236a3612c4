-- ===== src/Stages/Parts.antt =====
-- What the heavy stages keep of the parts that the pipeline has made of a document.
use Prim.Native.String.{count}
use instant_ai_data_workflow.Prelude.{sym, Option-cases, inl, inr}
use instant_ai_data_workflow.Prelude.{
  ℕ, ◌≡◌, refl, ap, subst, ◌∙◌, Bool, true, false, Option, none, some, List, [], ◌∷◌, ◌++◌, String,
  arith, string_eq,
}
use instant_ai_data_workflow.Prelude.Dict.{Dict}
use instant_ai_data_workflow.Stages.{Context, Chunk, mark, reject}
use instant_ai_data_workflow.Stages.Cleaning.{
  Result, CleanResult, Live, Heavy, processed_result, reject_dropped, attach_chunks,
  stage3_intermediate, stage4_intel_preview, previewed, preview_of, cleaned, stage4_high_quality,
  end_document, run_heavy_stages, prepared, after_preview,
}
use instant_ai_data_workflow.Stages.Ended.{
  dropped_reasons, kept_chunks, reject_dropped-rejects, reject_dropped-chunks, attach_chunks-chunks,
  attach_chunks-rejects,
}

some_inj : {A : Type 0} {x y : A} → some x ≡ some y → x ≡ y
some_inj e = cc

module _ {V W : Type 0} (heavy : Heavy V W) where
  -- What the result of a document holds after the call of the pipeline.
  unfoldable pub CleanedTo :
      Context V → Option (List (CleanResult V)) → Bool → Option (Result V) → Type 0
  CleanedTo ctx none over o = o ≡ none
  CleanedTo ctx (some parts) true o =
      (r : Result V) × (o ≡ some r)
      × (r.chunks ≡ ctx.chunks)
      × (r.cleaning_rejects
          ≡ ctx.cleaning_rejects ++ ("document_budget_exceeded", count ctx.text) ∷ [])
  CleanedTo ctx (some parts) false o =
      (r : Result V) × (o ≡ some r)
      × (r.chunks ≡ ctx.chunks ++ kept_chunks heavy parts)
      × (r.cleaning_rejects ≡ ctx.cleaning_rejects ++ dropped_reasons (count ctx.text) parts)

  cleaned-CleanedTo :
      (ctx : Context V) (parts : Option (List (CleanResult V))) (w : W) (live : Live W)
      (over : Bool)
      → heavy.doc_budget_exceeded w ≡ over
      → CleanedTo ctx parts over (end_document heavy (cleaned heavy ctx parts w, live)).0
  unfolding CleanedTo cleaned end_document processed_result reject
  cleaned-CleanedTo ctx none w live over e = refl
  cleaned-CleanedTo ctx (some parts) w live true e =
      rw e (processed_result (reject "document_budget_exceeded" ctx), refl, refl, refl)
  cleaned-CleanedTo ctx (some parts) w live false e = rw e (
    processed_result (attach_chunks heavy parts (reject_dropped parts ctx)),
    refl,
    attach_chunks-chunks heavy parts (reject_dropped parts ctx)
        ∙ ap (λ c. c ++ kept_chunks heavy parts) (reject_dropped-chunks parts ctx),
    attach_chunks-rejects heavy parts (reject_dropped parts ctx) ∙ reject_dropped-rejects parts ctx,
  )

  -- What the stages before the pipeline leave as it was.
  abbrev Document : Type 0
  Document = String × Option (Dict String V) × List (Chunk V) × List (String × ℕ)

  abbrev document : Context V → Document
  document ctx = (ctx.text, ctx.row, ctx.chunks, ctx.cleaning_rejects)

  mark-document : (stage : String) (ctx : Context V) → document (mark stage ctx) ≡ document ctx
  unfolding mark
  mark-document stage ctx = ground arith

  previewed-document :
      (found : Option V × Option V × Option V) (ctx : Context V)
      → document (previewed heavy found ctx) ≡ document ctx
  unfolding previewed
  previewed-document (none, route, lci) ctx = refl
  previewed-document (some v, route, lci) ctx = refl

  preview_of-document :
      (preview : Option (String → String → V → Option V → Option (Option V × Option V × Option V)))
      (fp : Option V) (src_name : String) (ctx c : Context V)
      → preview_of heavy preview fp src_name ctx ≡ some c
      → document c ≡ document ctx
  unfolding preview_of
  preview_of-document none fp src_name ctx c e = ap document (sym (some_inj e))
  preview_of-document (some preview) none src_name ctx c e = ap document (sym (some_inj e))
  preview_of-document (some preview) (some fp) src_name ctx c e =
      elim (Option-cases (preview ctx.text src_name fp ctx.fp_scan)) [
        | inl raised ↦ absurd (ground (arith, e, raised))
        | inr (found, given) ↦
            ap document (sym (some_inj (rw (given, preview_of) at e)))
            ∙ previewed-document found ctx
      ]

  -- The stages before the pipeline leave the document as it was.
  prepared-document :
      (src_name : String) (ctx c : Context V) (live : Live W)
      → prepared heavy src_name ctx live ≡ some c
      → document c ≡ document ctx
  unfolding prepared stage4_intel_preview stage3_intermediate
  prepared-document src_name ctx c live e =
      elim (Option-cases (heavy.build_fingerprint_bundle_detail ctx.text ctx.raw_features)) [
        | inl raised ↦ absurd (ground (arith, e, raised))
        | inr (((fp, scan), pci_fp), built) ↦
            let ctx₁ : Context V = record (mark "s3_intermediate" ctx) {
              fp = some fp;
              fp_scan = some scan;
              pci_fp = some pci_fp;
            } in
            preview_of-document heavy.preview_for_cleaning (some fp) src_name
              (mark "s4_intel_preview" ctx₁) c (rw (built, prepared, stage3_intermediate) at e)
            ∙ mark-document "s4_intel_preview" ctx₁
            ∙ mark-document "s3_intermediate" ctx
      ]

  stage3-world :
      (src_name : String) (ctx : Context V) (live : Live W)
      → (stage3_intermediate heavy src_name ctx live).1.world ≡ live.world
  unfolding stage3_intermediate
  stage3-world src_name ctx live =
      elim (Option-cases (heavy.build_fingerprint_bundle_detail ctx.text ctx.raw_features)) [
        | inl raised ↦ rw (stage3_intermediate, raised) refl
        | inr (bundle, built) ↦ rw (stage3_intermediate, built) refl
      ]

  CleanedTo-document :
      (c d : Context V) (parts : Option (List (CleanResult V))) (over : Bool)
      (o : Option (Result V))
      → document c ≡ document d
      → CleanedTo c parts over o
      → CleanedTo d parts over o
  unfolding CleanedTo
  CleanedTo-document c d none over o e h = h
  CleanedTo-document c d (some parts) true o e (r, given, chunks, rejects) = (
    r,
    given,
    chunks ∙ ap (λ x. x.2) e,
    rejects ∙ ap (λ x. x.3 ++ ("document_budget_exceeded", count x.0) ∷ []) e,
  )
  CleanedTo-document c d (some parts) false o e (r, given, chunks, rejects) = (
    r,
    given,
    chunks ∙ ap (λ x. x.2 ++ kept_chunks heavy parts) e,
    rejects ∙ ap (λ x. x.3 ++ dropped_reasons (count x.0) parts) e,
  )

  stage4-CleanedTo :
      (src_name : String) (ctx : Context V) (live : Live W)
      → CleanedTo ctx
          (heavy.process ctx.text src_name ctx.row live.world).0
          (heavy.doc_budget_exceeded (heavy.process ctx.text src_name ctx.row live.world).1)
          (end_document heavy (stage4_high_quality heavy src_name ctx live)).0
  unfolding stage4_high_quality
  stage4-CleanedTo src_name ctx live =
      let (parts, w) = heavy.process ctx.text src_name ctx.row live.world in
      let over = heavy.doc_budget_exceeded w in
      let marked = mark "s4_high_quality" ctx in
      CleanedTo-document marked ctx parts over
        (end_document heavy (stage4_high_quality heavy src_name ctx live)).0
        (mark-document "s4_high_quality" ctx)
        (cleaned-CleanedTo marked parts w (record live { world = w; deadline_set = false }) over
          refl)

  -- The parts that the pipeline gives, or `none` where it or a stage before it raises.
  unfoldable pub parts_of : String → Context V → Live W → Option (List (CleanResult V))
  parts_of src_name ctx live = elim (prepared heavy src_name ctx live) [
    | none ↦ none
    | some c ↦ (heavy.process ctx.text src_name ctx.row live.world).0
  ]

  -- The heavy stages give no result where the fingerprint, the preview or the pipeline raises. Where the
  -- budget of time is exceeded the document is rejected for that and no part of it is kept. Otherwise
  -- the result has a chunk for each part that is neither dropped nor empty, in order and with the hash
  -- of its text, and a rejection for each dropped part.
  pub run_heavy_stages-CleanedTo :
      (src_name : String) (ctx : Context V) (live : Live W)
      → CleanedTo ctx
          (parts_of src_name ctx live)
          (heavy.doc_budget_exceeded (heavy.process ctx.text src_name ctx.row live.world).1)
          (run_heavy_stages heavy src_name ctx live).0
  unfolding run_heavy_stages parts_of after_preview end_document CleanedTo
  run_heavy_stages-CleanedTo src_name ctx live =
      elim (Option-cases (prepared heavy src_name ctx live)) [
        | inl raised ↦ rw (parts_of, run_heavy_stages, raised) refl
        | inr (c, ready) ↦
            let live₁ = (stage3_intermediate heavy src_name ctx live).1 in
            let same = prepared-document src_name ctx c live ready in
            let o = (end_document heavy (stage4_high_quality heavy src_name c live₁)).0 in
            let (parts, w) = heavy.process c.text src_name c.row live₁.world in
            rw (parts_of, run_heavy_stages, ready)
              (subst
                (λ (x : W).
                  CleanedTo ctx (heavy.process ctx.text src_name ctx.row x).0
                    (heavy.doc_budget_exceeded (heavy.process ctx.text src_name ctx.row x).1) o)
                (stage3-world src_name ctx live)
                (subst
                  (λ d.
                    CleanedTo ctx (heavy.process d.0 src_name d.1 live₁.world).0
                      (heavy.doc_budget_exceeded (heavy.process d.0 src_name d.1 live₁.world).1) o)
                  same
                  (CleanedTo-document c ctx parts (heavy.doc_budget_exceeded w) o same
                    (stage4-CleanedTo src_name c live₁))))
      ]
