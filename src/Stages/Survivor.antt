-- ===== src/Stages/Survivor.antt =====
-- `survivor_payload` and `from_survivor_payload` of src/indw/schedule/state/context.py, and the store
-- of texts of src/indw/schedule/state/survivor.py.
--
-- A language assessment is passed on as the object that it is; the branch for an assessment that was
-- turned into a dict is left out. The texts of the store are read back as they were written.
use Prim.Native.Char.{code}
use Prim.Native.String.{count}
use instant_ai_data_workflow.Prelude.{
  Bool, false, ◌&&◌, ◌||◌, not, Option, none, some, [], ◌∷◌, ltb, ◌==◌, if◌then◌else◌, String,
  nat_eq, string_eq,
}
use instant_ai_data_workflow.Prelude.Dict.{Dict, get, has, put, remove}
use instant_ai_data_workflow.Jsonl.{is_str_space, is_blank}
use instant_ai_data_workflow.Stages.{Context, Payload, Store, Values, truthy}

unfoldable pub lstrip : String → String
lstrip String.[] = ""
lstrip (String.◌∷◌ c s) = if is_str_space (code c) then lstrip s else String.◌∷◌ c s

unfoldable pub rstrip : String → String
rstrip String.[] = ""
rstrip (String.◌∷◌ c s) =
    let rest = rstrip s in if is_blank (String.◌∷◌ c s) then "" else String.◌∷◌ c rest

unfoldable pub strip : String → String
unfolding lstrip rstrip
strip s = rstrip (lstrip s)

module _ {V : Type 0} (values : Values V) where
  -- A file that is there is not written again.
  unfoldable pub store_text : String → String → Store → Store
  store_text path text st =
      if has st.files path then st else record st { files = put st.files path text }

  -- The text that stays in the payload, and the key that it is stored under.
  unfoldable pub externalize_survivor_text :
      String → String → String → Store → (String × Option String) × Store
  unfolding store_text
  externalize_survivor_text work_dir doc_key text st =
      if ltb (count text) values.threshold || doc_key == ""
      then ((text, none), st)
      else (("", some doc_key), store_text (values.store_path work_dir doc_key) text st)

  -- The map of a file, by an earlier call or a new one.
  unfoldable pub map_file : Option String → String → String → Store → String × Store
  map_file (some cached) path text st = (cached, st)
  map_file none path text st = (text, record st { mapped = put st.mapped path text })

  unfoldable pub read_file : Option String → String → String → Store → String × Store
  unfolding map_file
  read_file none path inline st = (inline, st)
  read_file (some text) path inline st = map_file (get st.mapped path) path text st

  unfoldable pub read_mapped : String → String → Store → String × Store
  unfolding read_file
  read_mapped path inline st = read_file (get st.files path) path inline st

  -- The file of a key, in a work directory.
  unfoldable pub read_stored : Option String → Option String → String → Store → String × Store
  unfolding read_mapped
  read_stored none work_dir inline st = (inline, st)
  read_stored (some key) none inline st = (inline, st)
  read_stored (some key) (some wd) inline st =
      if strip key == ""
      then (inline, st)
      else read_mapped (values.store_path wd (strip key)) inline st

  unfoldable pub resolve_survivor_text : Payload V → Store → String × Store
  unfolding read_stored
  resolve_survivor_text p st =
      if not (is_blank p.text)
      then (p.text, st)
      else read_stored (truthy p.text_store_key) (truthy p.work_dir) p.text st

  -- The row without a `text` that is the text of the document; no row where nothing is left.
  unfoldable pub nonempty : Dict String V → Option (Dict String V)
  nonempty [] = none
  nonempty (e ∷ d) = some (e ∷ d)

  unfoldable pub has_own_text : String → Dict String V → Bool
  has_own_text text row = elim (get row "text") [ none ↦ false | some v ↦ values.is_text v text ]

  unfoldable pub payload_row : String → Option (Dict String V) → Option (Dict String V)
  unfolding nonempty has_own_text
  payload_row text none = none
  payload_row text (some row) = nonempty (if has_own_text text row then remove row "text" else row)

  unfoldable pub store_key : Context V → String
  store_key ctx =
      if ctx.doc_content_hash == "" then values.number_name ctx.seq else ctx.doc_content_hash

  unfoldable pub payload_text : Option String → Context V → Store → (String × Option String) × Store
  unfolding externalize_survivor_text store_key
  payload_text none ctx st = ((ctx.text, none), st)
  payload_text (some wd) ctx st =
      if ctx.text == ""
      then ((ctx.text, none), st)
      else externalize_survivor_text wd (store_key ctx) ctx.text st

  unfoldable pub survivor_payload : Option String → Context V → Store → Payload V × Store
  unfolding payload_text payload_row
  survivor_payload work_dir ctx st =
      let ((text, key), st') = payload_text (truthy work_dir) ctx st in
      (
        record {
          seq = ctx.seq;
          src_name = ctx.src_name;
          line_no = ctx.line_no;
          provenance = ctx.provenance;
          text = text;
          kind = ctx.kind;
          meaningful_chars = ctx.meaningful_chars;
          language_assessment = ctx.language_assessment;
          stage_trace = ctx.stage_trace;
          doc_tier = ctx.doc_tier;
          admission = ctx.admission;
          ingest_meta = ctx.ingest_meta;
          doc_content_hash = ctx.doc_content_hash;
          text_store_key = key;
          work_dir = elim key [ none ↦ none | some _ ↦ work_dir ];
          raw_features = ctx.raw_features;
          row = payload_row ctx.text ctx.row;
          pci_fp = none;
          acim_intel = none;
          acim_route = none;
          lci = none;
          stage0_cleared = false;
        },
        st',
      )

  unfoldable pub restored_row : String → Option (Dict String V) → Option (Dict String V)
  restored_row text none = if text == "" then none else some (("text", values.text_value text) ∷ [])
  restored_row text (some row) =
      if not (text == "") && not (has row "text")
      then some (put row "text" (values.text_value text))
      else some row

  unfoldable pub text_by_key : Option String → Payload V → Store → String × Store
  unfolding resolve_survivor_text
  text_by_key none p st = (p.text, st)
  text_by_key (some key) p st = if is_blank p.text then resolve_survivor_text p st else (p.text, st)

  unfoldable pub restored_text : Payload V → Store → String × Store
  unfolding text_by_key
  restored_text p st = text_by_key (truthy p.text_store_key) p st

  unfoldable pub from_survivor_payload : Payload V → Store → Context V × Store
  unfolding restored_text restored_row
  from_survivor_payload p st =
      let (text, st') = restored_text p st in
      (
        record {
          seq = p.seq;
          src_name = p.src_name;
          line_no = p.line_no;
          row = restored_row text p.row;
          provenance = p.provenance;
          text = text;
          meaningful_chars =
              if p.meaningful_chars == 0 && not (text == "")
              then count text
              else p.meaningful_chars;
          kind = p.kind;
          fp = elim p.pci_fp [ none ↦ none | some raw ↦ values.fingerprint_from_raw raw ];
          fp_scan = none;
          pci_fp = p.pci_fp;
          language_assessment = p.language_assessment;
          acim_intel = none;
          acim_route = none;
          lci = none;
          doc_tier = p.doc_tier;
          admission = p.admission;
          ingest_meta = p.ingest_meta;
          raw_features = p.raw_features;
          doc_content_hash = p.doc_content_hash;
          cleaning_rejects = [];
          chunks = [];
          stage_trace = p.stage_trace;
        },
        st',
      )
