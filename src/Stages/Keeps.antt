-- ===== src/Stages/Keeps.antt =====
-- What the cleaning stage of a document leaves as it is.
use instant_ai_data_workflow.Prelude.{
  ℕ, ◌≡◌, refl, ap, ◌∙◌, inl, inr, false, Option, none, some, List, [], ◌∷◌, ◌++◌, String,
  Bool-cases,
}
use Prim.Native.String.{count}
use instant_ai_data_workflow.Stages.{Context, Chunk, mark, reject}
use instant_ai_data_workflow.Stages.Cleaning.{
  Result, CleanResult, Live, Heavy, processed_result, reject_dropped, reason_of, skips, chunk_of,
  attach_one, attach_chunks, cleaned, stage4_high_quality, end_document,
}

-- A part of a context that does not show its trace, its rejections or its chunks, and that a result
-- shows.
pub record Kept (V X : Type 0) : Type 0 where
  pub of_context : Context V → X
  pub of_result : Result V → X
  pub marked : (stage : String) (ctx : Context V) → of_context (mark stage ctx) ≡ of_context ctx
  pub with_rejects :
      (rejects : List (String × ℕ)) (ctx : Context V)
      → of_context (record ctx { cleaning_rejects = rejects }) ≡ of_context ctx
  pub with_chunks :
      (chunks : List (Chunk V)) (ctx : Context V)
      → of_context (record ctx { chunks = chunks }) ≡ of_context ctx
  pub finished : (ctx : Context V) → of_result (processed_result ctx) ≡ of_context ctx

module _ {V W X : Type 0} (heavy : Heavy V W) (kept : Kept V X) where
  reject-kept :
      (reason : String) (ctx : Context V)
      → kept.of_context (reject reason ctx) ≡ kept.of_context ctx
  unfolding reject
  reject-kept reason ctx =
      kept.with_rejects (ctx.cleaning_rejects ++ (reason, count ctx.text) ∷ []) ctx

  reject_dropped-kept :
      (rs : List (CleanResult V)) (ctx : Context V)
      → kept.of_context (reject_dropped rs ctx) ≡ kept.of_context ctx
  unfolding reject_dropped
  reject_dropped-kept [] ctx = refl
  reject_dropped-kept (r ∷ rs) ctx = elim (Bool-cases r.dropped) [
    | inl gone ↦ rw gone (
        reject_dropped-kept rs (reject (reason_of r.drop_reason) ctx)
        ∙ reject-kept (reason_of r.drop_reason) ctx)
    | inr stays ↦ rw stays (reject_dropped-kept rs ctx)
  ]

  attach_one-kept :
      (r : CleanResult V) (ctx : Context V)
      → kept.of_context (attach_one heavy r ctx) ≡ kept.of_context ctx
  unfolding attach_one
  attach_one-kept r ctx = elim (Bool-cases (skips r)) [
    | inl skip ↦ rw skip refl
    | inr keep ↦ rw keep (kept.with_chunks (ctx.chunks ++ chunk_of heavy r ∷ []) ctx)
  ]

  attach_chunks-kept :
      (rs : List (CleanResult V)) (ctx : Context V)
      → kept.of_context (attach_chunks heavy rs ctx) ≡ kept.of_context ctx
  unfolding attach_chunks
  attach_chunks-kept [] ctx = refl
  attach_chunks-kept (r ∷ rs) ctx =
      attach_chunks-kept rs (attach_one heavy r ctx) ∙ attach_one-kept r ctx

  -- A context that is given shows this.
  abbrev Shows : X → Option (String × Context V) → Type 0
  Shows x none = Unit
  Shows x (some (outcome, ctx)) = kept.of_context ctx ≡ x

  cleaned-Shows :
      (ctx : Context V) (results : Option (List (CleanResult V))) (w : W)
      → Shows (kept.of_context ctx) (cleaned heavy ctx results w)
  unfolding cleaned
  cleaned-Shows ctx none w = tt
  cleaned-Shows ctx (some rs) w = elim (Bool-cases (heavy.doc_budget_exceeded w)) [
    | inl over ↦ rw over (reject-kept "document_budget_exceeded" ctx)
    | inr within ↦
        rw within (attach_chunks-kept rs (reject_dropped rs ctx) ∙ reject_dropped-kept rs ctx)
  ]

  end_document-kept :
      (x : X) (o : Option (String × Context V)) (live : Live W) (r : Result V)
      → Shows x o
      → (end_document heavy (o, live)).0 ≡ some r
      → kept.of_result r ≡ x
  unfolding end_document
  end_document-kept x none live r at e = cc
  end_document-kept x (some (outcome, ctx)) live r at e =
      let same : r ≡ processed_result ctx = cc in ap kept.of_result same ∙ kept.finished ctx ∙ at

  pub stage4-kept :
      (x : X) (src_name : String) (ctx : Context V) (live : Live W) (r : Result V)
      → kept.of_context ctx ≡ x
      → (end_document heavy (stage4_high_quality heavy src_name ctx live)).0 ≡ some r
      → kept.of_result r ≡ x
  unfolding stage4_high_quality
  stage4-kept x src_name ctx live r at e =
      let marked = mark "s4_high_quality" ctx in
      let (results, w) = heavy.process ctx.text src_name ctx.row live.world in
      end_document-kept (kept.of_context marked) (cleaned heavy marked results w)
        (record live { world = w; deadline_set = false }) r (cleaned-Shows marked results w) e
      ∙ kept.marked "s4_high_quality" ctx
      ∙ at
