-- ===== src/Stages/RoundTrip.antt =====
-- A context is restored from its payload.
use Prim.Native.String.{count}
use instant_ai_data_workflow.Prelude.{
  ◌≡◌, ◌≢◌, ◌⊎◌, refl, sym, ap, subst, ◌∙◌, inl, inr, true, false, not, ◌&&◌, ◌||◌, Option, none,
  some, [], ◌∷◌, ltb, ◌==◌, String, arith, Bool-cases, if◌then◌else◌, string_eq, nat_eq,
}
use instant_ai_data_workflow.Prelude.Dict.{
  Dict, get, has, remove, get-put, get-remove, has-of_get-none,
}
use instant_ai_data_workflow.Jsonl.{is_blank}
use instant_ai_data_workflow.Stages.{Context, Payload, Store, Values, truthy}
use instant_ai_data_workflow.Stages.Survivor.{
  strip, store_text, map_file, read_file, read_stored, store_key, text_by_key,
  externalize_survivor_text, read_mapped, resolve_survivor_text, nonempty, has_own_text,
  payload_row, payload_text, survivor_payload, restored_row, restored_text, from_survivor_payload,
}

module _ {V : Type 0} (values : Values V) where
  -- What the store has for a path, if anything, is this text.
  pub record StoresOnly (path text : String) (st : Store) : Type 0 where
    pub filed : (get st.files path ≡ none) ⊎ (get st.files path ≡ some text)
    pub cached : (get st.mapped path ≡ none) ⊎ (get st.mapped path ≡ some text)

  map_file-text :
      (o : Option String) (path text : String) (st : Store)
      → (o ≡ none) ⊎ (o ≡ some text)
      → (map_file values o path text st).0 ≡ text
  unfolding map_file
  map_file-text none path text st h = refl
  map_file-text (some cached) path text st (inl absent) = cc
  map_file-text (some cached) path text st (inr same) = cc

  read_mapped-text :
      (path text inline : String) (st : Store)
      → get st.files path ≡ some text
      → (get st.mapped path ≡ none) ⊎ (get st.mapped path ≡ some text)
      → (read_mapped values path inline st).0 ≡ text
  unfolding read_mapped read_file
  read_mapped-text path text inline st f c =
      ap (λ o. (read_file values o path inline st).0) f
      ∙ map_file-text (get st.mapped path) path text st c

  -- A text that is taken out of the payload is in the store.
  Stored : String → String → String → (String × Option String) × Store → Type 0
  Stored path key text ((inline, none), st) = inline ≡ text
  Stored path key text ((inline, some k), st) =
      (inline ≡ "")
      × (k ≡ key)
      × ((key == "") ≡ false)
      × (get st.files path ≡ some text)
      × ((get st.mapped path ≡ none) ⊎ (get st.mapped path ≡ some text))

  store_text-filed :
      (path text : String) (st : Store)
      → StoresOnly path text st
      → get (store_text values path text st).files path ≡ some text
  unfolding store_text
  store_text-filed path text st h = elim (Bool-cases (has st.files path)) [
    | inl there ↦ rw there (elim h.filed [
      | inl absent ↦ absurd (cc (has-of_get-none st.files path absent))
      | inr same ↦ same
    ])
    | inr absent ↦
        rw absent
          (get-put st.files path text path ∙ ground (arith, string_eq.same_key_iff path path))
  ]

  store_text-mapped :
      (path text : String) (st : Store) → (store_text values path text st).mapped ≡ st.mapped
  unfolding store_text
  store_text-mapped path text st = ground arith

  externalize-Stored :
      (wd key text : String) (st : Store)
      → StoresOnly (values.store_path wd key) text st
      → Stored (values.store_path wd key) key text (externalize_survivor_text values wd key text st)
  unfolding externalize_survivor_text Stored
  externalize-Stored wd key text st h =
      let path = values.store_path wd key in
      elim (Bool-cases (ltb (count text) values.threshold || key == "")) [
        | inl stays ↦ rw stays refl
        | inr goes ↦ rw goes (
          refl,
          refl,
          ground arith,
          store_text-filed path text st h,
          subst (λ m. (get m path ≡ none) ⊎ (get m path ≡ some text))
              (sym (store_text-mapped path text st)) h.cached,
        )
      ]

  read_stored-text :
      (wd key text inline : String) (st : Store)
      → (key == "") ≡ false
      → strip key ≡ key
      → get st.files (values.store_path wd key) ≡ some text
      → (get st.mapped (values.store_path wd key) ≡ none)
        ⊎ (get st.mapped (values.store_path wd key) ≡ some text)
      → (read_stored values (some key) (some wd) inline st).0 ≡ text
  unfolding read_stored
  read_stored-text wd key text inline st some_key clean f c =
      rw (clean, some_key) (read_mapped-text (values.store_path wd key) text inline st f c)

  text_by_key-stored :
      (p : Payload V) (wd key text : String) (st : Store)
      → p.text ≡ ""
      → p.text_store_key ≡ some key
      → truthy p.work_dir ≡ some wd
      → (key == "") ≡ false
      → strip key ≡ key
      → get st.files (values.store_path wd key) ≡ some text
      → (get st.mapped (values.store_path wd key) ≡ none)
        ⊎ (get st.mapped (values.store_path wd key) ≡ some text)
      → (text_by_key values (some key) p st).0 ≡ text
  unfolding text_by_key resolve_survivor_text is_blank
  text_by_key-stored p wd key text st t k w some_key clean f c =
      let b : is_blank p.text ≡ true = ap is_blank t in
      let k' : truthy p.text_store_key ≡ some key = ap truthy k ∙ ground arith in
      rw (b, k', w) (read_stored-text wd key text p.text st some_key clean f c)

  -- What is taken out of a payload is read back by it.
  text_restored :
      (p : Payload V) (wd key text : String) (o : (String × Option String) × Store)
      → Stored (values.store_path wd key) key text o
      → p.text ≡ o.0.0
      → p.text_store_key ≡ o.0.1
      → (o.0.1 ≢ none → truthy p.work_dir ≡ some wd)
      → strip key ≡ key
      → (restored_text values p o.1).0 ≡ text
  unfolding Stored restored_text text_by_key
  text_restored p wd key text ((inline, none), st) s t k w clean = rw k (t ∙ s)
  text_restored p wd key text ((inline, some key'), st) (empty, same, some_key, f, c) t k w clean =
      let k' : p.text_store_key ≡ some key = k ∙ ap some same in
      let k'' : truthy p.text_store_key ≡ some key = ap truthy k' ∙ ground arith in
      ap (λ o. (text_by_key values o p st).0) k''
      ∙ text_by_key-stored p wd key text st (t ∙ empty) k' (w (λ absent. cc)) some_key clean f c

  payload_text-Stored :
      (wd : String) (ctx : Context V) (st : Store)
      → StoresOnly (values.store_path wd (store_key values ctx)) ctx.text st
      → Stored
          (values.store_path wd (store_key values ctx))
          (store_key values ctx)
          ctx.text
          (payload_text values (some wd) ctx st)
  unfolding payload_text Stored
  payload_text-Stored wd ctx st h = elim (Bool-cases (ctx.text == "")) [
    | inl no_text ↦ rw no_text refl
    | inr text ↦ rw text (externalize-Stored wd (store_key values ctx) ctx.text st h)
  ]

  abbrev pub row_get : Option (Dict String V) → String → Option V
  row_get none k = none
  row_get (some row) k = get row k

  nonempty-get : (d : Dict String V) (k : String) → row_get (nonempty values d) k ≡ get d k
  unfolding nonempty get
  nonempty-get [] k = refl
  nonempty-get (e ∷ d) k = refl

  restored_row-get :
      (text : String) (row : Option (Dict String V)) (k : String)
      → ("text" == k) ≡ false
      → row_get (restored_row values text row) k ≡ row_get row k
  unfolding restored_row get
  restored_row-get text none k other = elim (Bool-cases (text == "")) [
    | inl no_text ↦ rw no_text refl
    | inr some_text ↦ rw (some_text, other) refl
  ]
  restored_row-get text (some row) k other =
      elim (Bool-cases (not (text == "") && not (has row "text"))) [
        | inl added ↦ rw added (
            get-put row "text" (values.text_value text) k
            ∙ ap (λ b. if b then some (values.text_value text) else get row k) other)
        | inr kept ↦ rw kept refl
      ]

  payload_row-get :
      (text : String) (row : Option (Dict String V)) (k : String)
      → ("text" == k) ≡ false
      → row_get (payload_row values text row) k ≡ row_get row k
  unfolding payload_row
  payload_row-get text none k other = refl
  payload_row-get text (some row) k other = elim (Bool-cases (has_own_text values text row)) [
    | inl own ↦ rw own (
        nonempty-get (remove row "text") k
        ∙ get-remove row "text" k
        ∙ ap (λ b. if b then none else get row k) other)
    | inr foreign ↦ rw foreign (nonempty-get row k)
  ]

  with_key-work_dir :
      (key : Option String) (wd : String)
      → key ≢ none
      → truthy (elim key [ none ↦ none | some _ ↦ some wd ]) ≡ truthy (some wd)
  with_key-work_dir none wd there = absurd (there refl)
  with_key-work_dir (some key) wd there = refl

  -- A context made into a payload for a worker with the same work directory, and restored from it, is
  -- the same in each field that a payload carries, its text included, whether the text went through
  -- the store or not; its row has the same values at each key but `text`. The store has for the
  -- text's key nothing else, the key has no space at its ends, and a text has meaningful characters.
  pub from_survivor_payload-survivor_payload :
      (wd : String) (ctx : Context V) (st : Store) (k : String)
      → (wd == "") ≡ false
      → StoresOnly (values.store_path wd (store_key values ctx)) ctx.text st
      → strip (store_key values ctx) ≡ store_key values ctx
      → (ctx.meaningful_chars == 0 && not (ctx.text == "")) ≡ false
      → ("text" == k) ≡ false
      → let (p, st₁) = survivor_payload values (some wd) ctx st in
        let restored = (from_survivor_payload values p st₁).0 in
        (restored.text ≡ ctx.text)
        × (restored.meaningful_chars ≡ ctx.meaningful_chars)
        × (restored.seq ≡ ctx.seq)
        × (restored.src_name ≡ ctx.src_name)
        × (restored.line_no ≡ ctx.line_no)
        × (restored.kind ≡ ctx.kind)
        × (restored.provenance ≡ ctx.provenance)
        × (restored.language_assessment ≡ ctx.language_assessment)
        × (restored.stage_trace ≡ ctx.stage_trace)
        × (restored.doc_tier ≡ ctx.doc_tier)
        × (restored.admission ≡ ctx.admission)
        × (restored.ingest_meta ≡ ctx.ingest_meta)
        × (restored.doc_content_hash ≡ ctx.doc_content_hash)
        × (restored.raw_features ≡ ctx.raw_features)
        × (row_get restored.row k ≡ row_get ctx.row k)
  unfolding survivor_payload from_survivor_payload
  from_survivor_payload-survivor_payload wd ctx st k given h clean counted other =
      let (p, st₁) = survivor_payload values (some wd) ctx st in
      let key = store_key values ctx in
      let wd' : truthy (some wd) ≡ some wd = ground arith in
      let stored = payload_text-Stored wd ctx st h in
      let same : (restored_text values p st₁).0 ≡ ctx.text =
        text_restored p wd key ctx.text (payload_text values (truthy (some wd)) ctx st)
          (subst
            (λ d. Stored (values.store_path wd key) key ctx.text (payload_text values d ctx st))
            (sym wd') stored)
          refl refl
          (λ there.
            with_key-work_dir (payload_text values (truthy (some wd)) ctx st).0.1 wd there ∙ wd')
          clean in
      (
        same,
        ap
              (λ t.
                if ctx.meaningful_chars == 0 && not (t == "")
                then count t
                else ctx.meaningful_chars)
              same
            ∙ rw counted refl,
        refl,
        refl,
        refl,
        refl,
        refl,
        refl,
        refl,
        refl,
        refl,
        refl,
        refl,
        refl,
        restored_row-get (restored_text values p st₁).0 (payload_row values ctx.text ctx.row) k
              other
            ∙ payload_row-get ctx.text ctx.row k other,
      )
