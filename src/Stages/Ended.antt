-- ===== src/Stages/Ended.antt =====
-- What the heavy stages leave: what they opened is closed, and the parts of the document are in the
-- result; and what the pools lose on the way.
use Prim.Native.String.{count}
use instant_ai_data_workflow.Prelude.{
  ℕ, ◌≡◌, refl, sym, ◌∙◌, inl, inr, ◌||◌, Option, none, some, List, [], ◌∷◌, ◌++◌, append_assoc,
  append-nil, ◌==◌, String, arith, Bool-cases, if◌then◌else◌, string_eq,
}
use instant_ai_data_workflow.Stages.{Context, Chunk, reject}
use instant_ai_data_workflow.Stages.Cleaning.{
  CleanResult, Live, Heavy, reject_dropped, reason_of, skips, chunk_of, attach_one, attach_chunks,
  stage3_intermediate, prepared, after_preview,
}

module _ {V : Type 0} where
  -- The reason and the size that a dropped part is rejected with.
  unfoldable pub dropped_reasons : ℕ → List (CleanResult V) → List (String × ℕ)
  dropped_reasons size [] = []
  dropped_reasons size (r ∷ rs) =
      let rest = dropped_reasons size rs in
      if r.dropped then (reason_of r.drop_reason, size) ∷ rest else rest

  pub reject_dropped-rejects :
      (rs : List (CleanResult V)) (ctx : Context V)
      → (reject_dropped rs ctx).cleaning_rejects
        ≡ ctx.cleaning_rejects ++ dropped_reasons (count ctx.text) rs
  unfolding reject_dropped dropped_reasons reject
  reject_dropped-rejects [] ctx = sym (append-nil ctx.cleaning_rejects)
  reject_dropped-rejects (r ∷ rs) ctx = elim (Bool-cases r.dropped) [
    | inl gone ↦ rw gone (
        reject_dropped-rejects rs (reject (reason_of r.drop_reason) ctx)
        ∙ append_assoc ctx.cleaning_rejects ((reason_of r.drop_reason, count ctx.text) ∷ [])
            (dropped_reasons (count ctx.text) rs))
    | inr kept ↦ rw kept (reject_dropped-rejects rs ctx)
  ]

  pub reject_dropped-chunks :
      (rs : List (CleanResult V)) (ctx : Context V) → (reject_dropped rs ctx).chunks ≡ ctx.chunks
  unfolding reject_dropped reject
  reject_dropped-chunks [] ctx = refl
  reject_dropped-chunks (r ∷ rs) ctx = reject_dropped-chunks rs _ ∙ ground arith

module _ {V W : Type 0} (heavy : Heavy V W) where
  -- The chunks of the parts that are not dropped and not empty.
  unfoldable pub kept_chunks : List (CleanResult V) → List (Chunk V)
  kept_chunks [] = []
  kept_chunks (r ∷ rs) =
      let rest = kept_chunks rs in
      if r.dropped || r.text == "" then rest else chunk_of heavy r ∷ rest

  attach_one-chunks :
      (r : CleanResult V) (rs : List (CleanResult V)) (ctx : Context V)
      → (attach_one heavy r ctx).chunks ++ kept_chunks rs ≡ ctx.chunks ++ kept_chunks (r ∷ rs)
  unfolding attach_one skips kept_chunks
  attach_one-chunks r rs ctx = elim (Bool-cases (r.dropped || r.text == "")) [
    | inl skip ↦ rw skip refl
    | inr keep ↦ rw keep (append_assoc ctx.chunks (chunk_of heavy r ∷ []) (kept_chunks rs))
  ]

  attach_one-rejects :
      (r : CleanResult V) (ctx : Context V)
      → (attach_one heavy r ctx).cleaning_rejects ≡ ctx.cleaning_rejects
  unfolding attach_one
  attach_one-rejects r ctx = ground arith

  pub attach_chunks-chunks :
      (rs : List (CleanResult V)) (ctx : Context V)
      → (attach_chunks heavy rs ctx).chunks ≡ ctx.chunks ++ kept_chunks rs
  unfolding attach_chunks kept_chunks
  attach_chunks-chunks [] ctx = sym (append-nil ctx.chunks)
  attach_chunks-chunks (r ∷ rs) ctx =
      attach_chunks-chunks rs (attach_one heavy r ctx) ∙ attach_one-chunks r rs ctx

  pub attach_chunks-rejects :
      (rs : List (CleanResult V)) (ctx : Context V)
      → (attach_chunks heavy rs ctx).cleaning_rejects ≡ ctx.cleaning_rejects
  unfolding attach_chunks
  attach_chunks-rejects [] ctx = refl
  attach_chunks-rejects (r ∷ rs) ctx =
      attach_chunks-rejects rs (attach_one heavy r ctx) ∙ attach_one-rejects r ctx

  -- The outcome that the monitor is told.
  unfoldable pub outcome_of : Option (String × Context V) → String
  outcome_of none = "ok"
  outcome_of (some (outcome, ctx)) = outcome

  -- What the stages make of a document: `none` where one of them raises.
  unfoldable pub high_quality : String → Context V → Live W → Option (String × Context V)
  high_quality src_name ctx live =
      (after_preview heavy src_name (prepared heavy src_name ctx live)
        (stage3_intermediate heavy src_name ctx live).1).0

  -- The documents that the monitor begins: none where the fingerprint raises.
  unfoldable pub begun_of : String → Context V → List String
  begun_of src_name ctx = elim (heavy.build_fingerprint_bundle_detail ctx.text ctx.raw_features) [
    | none ↦ []
    | some bundle ↦ heavy.doc_id src_name ctx.line_no ∷ []
  ]
