-- ===== src/Stages/Examples.antt =====
-- A worker on a batch of four lines, whose values are texts.
use mathlib.Core.List.{Perm}
use Prim.Native.String.{count, ◌++◌ as text_append}
use instant_ai_data_workflow.Prelude.{
  ℕ, ◌≡◌, refl, Bool, true, false, ◌||◌, Option, none, some, List, [], ◌∷◌, map, inl, String, ◌==◌,
  string_eq, nat_eq,
}
use instant_ai_data_workflow.Prelude.Dict.{get, has, put, remove}
use instant_ai_data_workflow.Jsonl.{object, is_blank, is_str_space, parse_jsonl_line}
use instant_ai_data_workflow.Stages.{Context, Payload, Store, Values, last_is}
use instant_ai_data_workflow.Stages.Survivor.{
  survivor_payload, from_survivor_payload, strip, store_key, lstrip, rstrip,
}
use instant_ai_data_workflow.Stages.Engine.{Gates, Item, run_fast_stages, new_context}
use instant_ai_data_workflow.Stages.Cleaning.{Result, CleanResult, Live, Heavy, run_heavy_stages}
use instant_ai_data_workflow.Stages.Pools.{
  Worker, each, survivors, terminals, preprocess_item, with_work_dir, first_work_dir, filter_item,
  stage0_item, process_fast_chain_batch,
}
use instant_ai_data_workflow.Stages.HeavyPools.{
  process_merge_batch, process_heavy_chain_batch, all_items, process_clean_batch, traced, acim_item,
  pci_item, pci_payload, acim_payload, try_each, after_acim, after_pci, then_items,
}
use instant_ai_data_workflow.Stages.Conserved.{result_place, item_place}
use instant_ai_data_workflow.Stages.Outcomes.{IsSettled, run_fast_stages-IsSettled}
use instant_ai_data_workflow.Stages.Parts.{CleanedTo, parts_of, run_heavy_stages-CleanedTo}
use instant_ai_data_workflow.Stages.Finished.{process_merge_batch-perm}
use instant_ai_data_workflow.Stages.RoundTrip.{
  StoresOnly, row_get, from_survivor_payload-survivor_payload,
}

abbrev values : Values String
values = record {
  text_value = λ t. t;
  is_text = λ v t. v == t;
  number_name = λ n. "0";
  store_path = λ wd key. text_append wd (text_append "/" key);
  fingerprint_from_raw = λ raw. some raw;
  threshold = 4;
}

abbrev among : String → List String → Bool
among s [] = false
among s (t ∷ ts) = t == s || among s ts

-- The world is the list of the texts that were seen.
abbrev seen_before : String → String → List String → Bool × List String
seen_before digest source w = (among digest w, digest ∷ w)

abbrev gates : Gates String (List String)
gates = record {
  loads = λ s. some (object (("text", s) ∷ []));
  extract_row_text = λ row. elim (get row "text") [ none ↦ "" | some t ↦ t ];
  minimal_normalize_detail = λ t. (t, count t);
  is_code = λ src. false;
  min_chars_gate = 2;
  doc_max_chars = 10;
  early_language_gate = λ t n. (none, some "en");
  content_hash = λ t. t;
  fast_doc_dedup_check = seen_before;
  document_gate_raw = λ t. "raw";
  run_stage0_content_filters = λ t n raw. none;
  enrich_ingest_meta = λ m row t. m;
  huge_chars = 100;
  large_chars = 50;
  admission_dict = λ tier n. tier;
}

abbrev part : Bool → String → CleanResult String
part dropped text = record { dropped = dropped; drop_reason = none; text = text; value = "v" }

abbrev heavy : Heavy String (List String)
heavy = record {
  build_fingerprint_bundle_detail = λ t raw. some (("fp", "scan"), "fp");
  doc_id = λ src n. src;
  preview_for_cleaning = some (λ t src fp scan. some (some "intel", some "route", none));
  fp_of = λ v. some "fp";
  process = λ t src row w. (some (part false t ∷ part true "x" ∷ part false "" ∷ []), w);
  doc_budget_exceeded = λ w. false;
  content_hash = λ t. t;
}

abbrev line : ℕ → String → Item String
line n text = record {
  seq = n;
  src_name = "web";
  line_no = n;
  line = text;
  row = none;
  provenance = none;
  ingest_meta = none;
  work_dir = none;
}

-- A line that goes on, a blank one, a repeated one and a short one.
abbrev batch : List (Item String)
batch = line 0 "one line" ∷ line 1 "  " ∷ line 2 "one line" ∷ line 3 "a" ∷ []

abbrev idle : Live (List String)
idle = record { begun = []; ended = []; context_bound = false; deadline_set = false; world = [] }

abbrev worker : Worker (List String)
worker = record { store = record { files = []; mapped = [] }; live = idle; work_dir = "w" }

abbrev lines_of : Option (List (Result String)) → List (Result String)
lines_of none = []
lines_of (some rs) = rs

abbrev finished : List (Result String)
finished = lines_of (process_merge_batch values gates heavy batch worker).0

finishes : (process_merge_batch values gates heavy batch worker).0 ≡ some finished
unfolding process_merge_batch all_items process_heavy_chain_batch process_clean_batch each
    process_fast_chain_batch survivors terminals preprocess_item with_work_dir first_work_dir
    parse_jsonl_line get put has remove filter_item stage0_item traced acim_item pci_item
    pci_payload acim_payload try_each after_acim after_pci then_items is_blank lstrip rstrip last_is
finishes = refl

process_merge_batch-perm_example : Perm (map result_place finished) (map item_place batch)
process_merge_batch-perm_example = process_merge_batch-perm values gates heavy batch worker finishes

-- The payload of the first line, as the fast pools give it.
abbrev handed_over : List (Payload String)
handed_over = (process_fast_chain_batch values gates batch worker).0.1

abbrev cleaned_lines : List (Result String)
cleaned_lines = lines_of (process_heavy_chain_batch values heavy handed_over worker).0

run_fast_stages-IsSettled_example :
    IsSettled (run_fast_stages gates (line 0 "one line") ("one line" ∷ [])).0
run_fast_stages-IsSettled_example =
    run_fast_stages-IsSettled gates (line 0 "one line") ("one line" ∷ [])

abbrev document : Context String
document = record (new_context (line 4 "some text")) {
  text = "some text";
  meaningful_chars = 8;
  row = some (("id", "7") ∷ ("text", "some text") ∷ []);
  doc_content_hash = "c0ffee";
}

-- One chunk, and one rejection of a part.
run_heavy_stages-CleanedTo_example :
    CleanedTo heavy
      (new_context (line 4 "t"))
      (parts_of heavy "web" (new_context (line 4 "t")) idle)
      false
      (run_heavy_stages heavy "web" (new_context (line 4 "t")) idle).0
run_heavy_stages-CleanedTo_example =
    run_heavy_stages-CleanedTo heavy "web" (new_context (line 4 "t")) idle

abbrev empty_store : Store
empty_store = record { files = []; mapped = [] }

nothing_stored : StoresOnly values "w/c0ffee" "some text" empty_store
unfolding get
nothing_stored = record { filed = inl refl; cached = inl refl }

clean_key : strip (store_key values document) ≡ store_key values document
unfolding strip store_key is_str_space is_blank
clean_key = refl

from_survivor_payload-survivor_payload_example :
    let (p, st₁) = survivor_payload values (some "w") document empty_store in
    let restored = (from_survivor_payload values p st₁).0 in
    (restored.text ≡ document.text)
    × (restored.meaningful_chars ≡ document.meaningful_chars)
    × (restored.seq ≡ document.seq)
    × (restored.src_name ≡ document.src_name)
    × (restored.line_no ≡ document.line_no)
    × (restored.kind ≡ document.kind)
    × (restored.provenance ≡ document.provenance)
    × (restored.language_assessment ≡ document.language_assessment)
    × (restored.stage_trace ≡ document.stage_trace)
    × (restored.doc_tier ≡ document.doc_tier)
    × (restored.admission ≡ document.admission)
    × (restored.ingest_meta ≡ document.ingest_meta)
    × (restored.doc_content_hash ≡ document.doc_content_hash)
    × (restored.raw_features ≡ document.raw_features)
    × (row_get values restored.row "id" ≡ row_get values document.row "id")
unfolding store_key
from_survivor_payload-survivor_payload_example =
    from_survivor_payload-survivor_payload values "w" document empty_store "id" refl nothing_stored
      clean_key refl refl
