-- ===== src/Stages/Outcomes.antt =====
-- What the fast stages make of a line.
use Prim.Native.String.{count}
use instant_ai_data_workflow.Prelude.{
  ◌≡◌, ◌≢◌, refl, ap, ◌∙◌, inl, inr, false, Option, none, some, [], ◌∷◌, ◌++◌, ◌==◌, String, arith,
  Bool-cases, string_eq,
}
use instant_ai_data_workflow.Prelude.Dict.{Dict}
use instant_ai_data_workflow.Jsonl.{Parsed, parsed, parse_jsonl_line}
use instant_ai_data_workflow.Stages.{processed, Context, truthy, mark, reject}
use instant_ai_data_workflow.Stages.Engine.{
  Gates, Item, Verdict, stop, pass, new_context, normalize_row, parsed_line, row_or_line,
  stage1_fast_preprocess, early_document_size_gate, early_document_max_gate, reject_if,
  reject_given, size_gates, language_gate, doc_dedup, structural_filter, admit, tier01_admit,
  tier01_structural, tier01_dedup, tier01_language, run_tier01_gates, run_fast_stages, and_then,
  gate_then,
}

module _ {V : Type 0} where
  -- Nothing is rejected yet, and there is no chunk.
  pub record IsFresh (ctx : Context V) : Type 0 where
    pub plain : ctx.kind ≡ processed
    pub no_rejects : ctx.cleaning_rejects ≡ []
    pub no_chunks : ctx.chunks ≡ []

  -- A document on its way has a text, too.
  pub record IsOnItsWay (ctx : Context V) : Type 0 where
    pub fresh : IsFresh ctx
    pub has_text : (ctx.text == "") ≡ false

  -- A line that was left: one without a text, or a document with one rejection.
  pub data IsLeft (ctx : Context V) : Type 0 where
    without_text : ctx.kind ≢ processed → ctx.cleaning_rejects ≡ [] → ctx.chunks ≡ [] → IsLeft ctx
    rejected :
        (reason : String)
        → ctx.kind ≡ processed
        → ctx.cleaning_rejects ≡ (reason, count ctx.text) ∷ []
        → ctx.chunks ≡ []
        → IsLeft ctx

  unfoldable pub IsSettled : Verdict V → Type 0
  IsSettled (stop ctx) = IsLeft ctx
  IsSettled (pass ctx) = IsOnItsWay ctx

  mark_kept :
      (stage : String) (ctx : Context V)
      → ((mark stage ctx).kind ≡ ctx.kind)
        × ((mark stage ctx).cleaning_rejects ≡ ctx.cleaning_rejects)
        × ((mark stage ctx).chunks ≡ ctx.chunks)
        × ((mark stage ctx).text ≡ ctx.text)
  unfolding mark
  mark_kept stage ctx = ground arith

  mark-IsFresh : (stage : String) (ctx : Context V) → IsFresh ctx → IsFresh (mark stage ctx)
  mark-IsFresh stage ctx h =
      let (k, r, c, t) = mark_kept stage ctx in
      record { plain = k ∙ h.plain; no_rejects = r ∙ h.no_rejects; no_chunks = c ∙ h.no_chunks }

  mark-IsOnItsWay :
      (stage : String) (ctx : Context V) → IsOnItsWay ctx → IsOnItsWay (mark stage ctx)
  mark-IsOnItsWay stage ctx h =
      let (k, r, c, t) = mark_kept stage ctx in
      record { fresh = mark-IsFresh stage ctx h.fresh; has_text = ap (λ s. s == "") t ∙ h.has_text }

  reject-IsLeft : (reason : String) (ctx : Context V) → IsOnItsWay ctx → IsLeft (reject reason ctx)
  unfolding reject
  reject-IsLeft reason ctx h =
      rejected reason h.fresh.plain
        (ap (λ r. r ++ (reason, count ctx.text) ∷ []) h.fresh.no_rejects) h.fresh.no_chunks

  gate_then-IsSettled :
      (v : Verdict V) (f : Context V → Verdict V)
      → IsSettled v
      → ((c : Context V) → IsOnItsWay c → IsSettled (f c))
      → IsSettled (gate_then v f)
  unfolding IsSettled
  gate_then-IsSettled (stop ctx) f h g = h
  gate_then-IsSettled (pass ctx) f h g = g ctx h

  and_then-IsSettled :
      {W : Type 0} (v : Verdict V) (w : W) (f : Context V → W → Verdict V × W)
      → IsSettled v
      → ((c : Context V) (u : W) → IsOnItsWay c → IsSettled (f c u).0)
      → IsSettled (and_then (v, w) f).0
  unfolding IsSettled
  and_then-IsSettled (stop ctx) w f h g = h
  and_then-IsSettled (pass ctx) w f h g = g ctx w h

  module _ {W : Type 0} (gates : Gates V W) where
    reject_given-IsSettled :
        (reason : Option String) (ctx : Context V)
        → IsOnItsWay ctx
        → IsSettled (reject_given gates reason ctx)
    unfolding reject_given IsSettled
    reject_given-IsSettled none ctx h = h
    reject_given-IsSettled (some r) ctx h = reject-IsLeft r ctx h

    reject_if-IsSettled :
        (reason : Option String) (ctx : Context V)
        → IsOnItsWay ctx
        → IsSettled (reject_if gates reason ctx)
    unfolding reject_if
    reject_if-IsSettled reason ctx h = reject_given-IsSettled (truthy reason) ctx h

    size_gates-IsSettled :
        (src_name : String) (ctx : Context V)
        → IsOnItsWay ctx
        → IsSettled (size_gates gates src_name ctx)
    unfolding size_gates
    size_gates-IsSettled src_name ctx h =
        let size = early_document_size_gate gates src_name ctx.meaningful_chars in
        gate_then-IsSettled (reject_if gates size ctx)
          (λ c. reject_if gates (early_document_max_gate gates c.text src_name) c)
          (reject_if-IsSettled size ctx h)
          (λ c. reject_if-IsSettled (early_document_max_gate gates c.text src_name) c)

    language_gate-IsSettled :
        (ctx : Context V) → IsOnItsWay ctx → IsSettled (language_gate gates ctx)
    unfolding language_gate
    language_gate-IsSettled ctx h =
        let (reason, assessment) = gates.early_language_gate ctx.text ctx.meaningful_chars in
        reject_if-IsSettled reason (record ctx { language_assessment = assessment })
          (record {
            fresh = record {
              plain = h.fresh.plain;
              no_rejects = h.fresh.no_rejects;
              no_chunks = h.fresh.no_chunks;
            };
            has_text = h.has_text;
          })

    structural_filter-IsSettled :
        (ctx : Context V) → IsOnItsWay ctx → IsSettled (structural_filter gates ctx)
    unfolding structural_filter
    structural_filter-IsSettled ctx h =
        let raw = gates.document_gate_raw ctx.text in
        let m = mark-IsOnItsWay "s2_structural_filter" ctx h in
        reject_if-IsSettled (gates.run_stage0_content_filters ctx.text ctx.meaningful_chars raw)
          (record (mark "s2_structural_filter" ctx) { raw_features = some raw })
          (record {
            fresh = record {
              plain = m.fresh.plain;
              no_rejects = m.fresh.no_rejects;
              no_chunks = m.fresh.no_chunks;
            };
            has_text = m.has_text;
          })

    doc_dedup-IsSettled :
        (src_name : String) (ctx : Context V) (w : W)
        → IsOnItsWay ctx
        → IsSettled (doc_dedup gates src_name ctx w).0
    unfolding doc_dedup IsSettled
    doc_dedup-IsSettled src_name ctx w h =
        let digest = gates.content_hash ctx.text in
        let ctx₁ : Context V = record (mark "s2_doc_dedup" ctx) { doc_content_hash = digest } in
        let m = mark-IsOnItsWay "s2_doc_dedup" ctx h in
        let h₁ : IsOnItsWay ctx₁ = record {
          fresh = record {
            plain = m.fresh.plain;
            no_rejects = m.fresh.no_rejects;
            no_chunks = m.fresh.no_chunks;
          };
          has_text = m.has_text;
        } in
        elim (Bool-cases (gates.fast_doc_dedup_check digest src_name w).0) [
          | inl dup ↦ rw dup (reject-IsLeft "exact_doc_dup" ctx₁ h₁)
          | inr new ↦ rw new h₁
        ]

    admit-IsOnItsWay : (ctx : Context V) → IsOnItsWay ctx → IsOnItsWay (admit gates ctx)
    unfolding admit
    admit-IsOnItsWay ctx h =
        let m =
          mark-IsOnItsWay "s3_admission" (mark "s2_metadata" ctx)
            (mark-IsOnItsWay "s2_metadata" ctx h) in
        record {
          fresh = record {
            plain = m.fresh.plain;
            no_rejects = m.fresh.no_rejects;
            no_chunks = m.fresh.no_chunks;
          };
          has_text = m.has_text;
        }

    tier01_structural-IsSettled :
        (ctx : Context V) (w : W) → IsOnItsWay ctx → IsSettled (tier01_structural gates ctx w).0
    unfolding tier01_structural tier01_admit IsSettled
    tier01_structural-IsSettled ctx w h =
        and_then-IsSettled (structural_filter gates ctx) w (tier01_admit gates)
          (structural_filter-IsSettled ctx h) (λ c u. admit-IsOnItsWay c)

    tier01_dedup-IsSettled :
        (src_name : String) (ctx : Context V) (w : W)
        → IsOnItsWay ctx
        → IsSettled (tier01_dedup gates src_name ctx w).0
    unfolding tier01_dedup
    tier01_dedup-IsSettled src_name ctx w h =
        let (verdict, u) = doc_dedup gates src_name ctx w in
        and_then-IsSettled verdict u (tier01_structural gates)
          (doc_dedup-IsSettled src_name ctx w h) tier01_structural-IsSettled

    tier01_language-IsSettled :
        (src_name : String) (ctx : Context V) (w : W)
        → IsOnItsWay ctx
        → IsSettled (tier01_language gates src_name ctx w).0
    unfolding tier01_language
    tier01_language-IsSettled src_name ctx w h =
        and_then-IsSettled (language_gate gates ctx) w (tier01_dedup gates src_name)
          (language_gate-IsSettled ctx h) (tier01_dedup-IsSettled src_name)

    run_tier01_gates-IsSettled :
        (src_name : String) (ctx : Context V) (w : W)
        → IsOnItsWay ctx
        → IsSettled (run_tier01_gates gates src_name ctx w).0
    unfolding run_tier01_gates
    run_tier01_gates-IsSettled src_name ctx w h =
        let ctx₁ = mark "s2_fast_filter" ctx in
        and_then-IsSettled (size_gates gates src_name ctx₁) w (tier01_language gates src_name)
          (size_gates-IsSettled src_name ctx₁ (mark-IsOnItsWay "s2_fast_filter" ctx h))
          (tier01_language-IsSettled src_name)

    normalize_row-IsSettled :
        (row : Dict String V) (ctx : Context V)
        → IsFresh ctx
        → IsSettled (normalize_row gates row ctx)
    unfolding normalize_row IsSettled
    normalize_row-IsSettled row ctx h =
        let (text, meaningful) = gates.minimal_normalize_detail (gates.extract_row_text row) in
        elim (Bool-cases (text == "")) [
          | inl none_left ↦ rw none_left (without_text (ground arith) h.no_rejects h.no_chunks)
          | inr found ↦ rw found (record {
            fresh = record { plain = h.plain; no_rejects = h.no_rejects; no_chunks = h.no_chunks };
            has_text = found;
          })
        ]

    parsed_line-IsSettled :
        (l : Parsed (Dict String V)) (ctx : Context V)
        → IsFresh ctx
        → IsSettled (parsed_line gates l ctx)
    unfolding parsed_line IsSettled
    parsed_line-IsSettled Parsed.blank ctx h = without_text (ground arith) h.no_rejects h.no_chunks
    parsed_line-IsSettled Parsed.parse_error ctx h =
        without_text (ground arith) h.no_rejects h.no_chunks
    parsed_line-IsSettled (parsed row) ctx h =
        normalize_row-IsSettled row (record ctx { row = some row })
          (record { plain = h.plain; no_rejects = h.no_rejects; no_chunks = h.no_chunks })

    row_or_line-IsSettled :
        (row : Option (Dict String V)) (line : String) (ctx : Context V)
        → IsFresh ctx
        → IsSettled (row_or_line gates row line ctx)
    unfolding row_or_line
    row_or_line-IsSettled none line ctx h =
        parsed_line-IsSettled (parse_jsonl_line gates.loads line) ctx h
    row_or_line-IsSettled (some row) line ctx h = normalize_row-IsSettled row ctx h

    new_context-IsFresh : (item : Item V) → IsFresh (new_context item)
    unfolding new_context
    new_context-IsFresh item = record { plain = refl; no_rejects = refl; no_chunks = refl }

    -- A line leaves the fast stages in one of three ways, with no chunk: without a text (it is blank,
    -- no object, or its text is empty) and not rejected, or as a document with exactly one rejection,
    -- of the length of its text, or it goes on with a text and no rejection.
    pub run_fast_stages-IsSettled :
        (item : Item V) (w : W) → IsSettled (run_fast_stages gates item w).0
    unfolding run_fast_stages stage1_fast_preprocess new_context
    run_fast_stages-IsSettled item w =
        let ctx = mark "s1_fast_preprocess" (new_context item) in
        and_then-IsSettled (row_or_line gates item.row item.line ctx) w
          (λ c. run_tier01_gates gates c.src_name c)
          (row_or_line-IsSettled item.row item.line ctx
            (mark-IsFresh "s1_fast_preprocess" (new_context item) (new_context-IsFresh item)))
          (λ c. run_tier01_gates-IsSettled c.src_name c)
