-- ===== src/Sources/Reader.antt =====
-- `_reader_thread` of src/indw/schedule/dispatch/parallel.py, with `ingest_line_meta` of
-- src/indw/schedule/read/ingest.py.
--
-- What the thread finds in time is an argument: for each row, whether the stop event is set and whether
-- the batch has waited too long; for each `_emit_batch`, whether the stop event is set, how often the
-- queue is full, and whether the batch is put before the event is set. In the queue, `none` stands for
-- MERGE_READ_SENTINEL. The audit is left out, and a probe is there. `parse` is `parse_merge_jsonl_line`, `provenance_for` is
-- `provenance_for_merge_row`, `checksum` is the digest of hashlib, and `decimal` is `str` of a number.
use Prim.Native.String.{len, ◌++◌ as join}
use instant_ai_data_workflow.Prelude.{
  ℕ, ◌+◌, ◌*◌, max, min, Bool, ◌||◌, ◌&&◌, Option, none, some, List, [], ◌∷◌, ◌++◌, ◌==◌,
  if◌then◌else◌, String, nat_eq, ltb, leb, length,
}
use instant_ai_data_workflow.Sources.{Sources, Row, close}

pub record IngestMeta : Type 0 where
  pub seq : ℕ
  pub source_id : String
  pub line_no : ℕ
  pub document_id : String
  pub raw_bytes : ℕ
  pub line_checksum : String

-- A dict of the batch; a key that is not set is `none`.
pub record Item (Json Provenance : Type 0) : Type 0 where
  pub seq : ℕ
  pub src_name : String
  pub line_no : ℕ
  pub row : Option Json
  pub line : Option String
  pub provenance : Option Provenance
  pub ingest_meta : IngestMeta

-- What one call of `_emit_batch` meets.
pub record Emission : Type 0 where
  pub stopped : Bool
  pub full : ℕ
  pub taken : Bool

-- What the thread meets at one row.
pub record Moment : Type 0 where
  pub row : Row
  pub stop : Bool
  pub late : Bool
  pub emission : Emission

pub record Reader (Json Provenance : Type 0) : Type 0 where
  pub batch : List (Item Json Provenance)
  pub seq : ℕ
  pub batch_target : ℕ
  pub batches_emitted : ℕ
  pub block_events : ℕ
  pub read_queue : List (Option (List (Item Json Provenance)))

unfoldable pub ingest_line_meta :
    (String → String) → (ℕ → String) → String → String → ℕ → ℕ → IngestMeta
ingest_line_meta checksum decimal line src_name line_no seq = record {
  seq = seq;
  source_id = src_name;
  line_no = line_no;
  document_id = join src_name (join ":" (decimal line_no));
  raw_bytes = len line;
  line_checksum = checksum line;
}

-- The target of the next batch.
unfoldable pub next_target : ℕ → ℕ → ℕ → ℕ → ℕ
next_target stream_batch chunk_size emitted target =
    if (emitted == 1) && ltb target stream_batch
    then max 1 stream_batch
    else if ltb target chunk_size
    then min chunk_size (max (target * 2) stream_batch)
    else target

module _ {Json Provenance : Type 0} (parse : String → Option Json)
    (provenance_for : Json → String → Option Provenance) (checksum : String → String)
    (decimal : ℕ → String) where
  unfoldable pub make_item : ℕ → Row → Item Json Provenance
  unfolding ingest_line_meta
  make_item seq r = record {
    seq = seq;
    src_name = r.name;
    line_no = r.line_no;
    row = parse r.line;
    line = elim (parse r.line) [ none ↦ some r.line | some row ↦ none ];
    provenance = elim (parse r.line) [ none ↦ none | some row ↦ provenance_for row r.name ];
    ingest_meta = ingest_line_meta checksum decimal r.line r.name r.line_no seq;
  }

module _ {Json Provenance : Type 0} (stream_batch chunk_size : ℕ) where
  -- `_emit_batch`, with a batch that is lost if the stop event is set while the queue is full.
  unfoldable pub emit_batch : Emission → Reader Json Provenance → Reader Json Provenance
  unfolding next_target
  emit_batch e r = if (length r.batch == 0) || e.stopped then r else record r {
    batch = [];
    batch_target = next_target stream_batch chunk_size (r.batches_emitted + 1) r.batch_target;
    batches_emitted = r.batches_emitted + 1;
    block_events = r.block_events + e.full;
    read_queue = if e.taken then r.read_queue ++ some r.batch ∷ [] else r.read_queue;
  }

  module _ (parse : String → Option Json) (provenance_for : Json → String → Option Provenance)
      (checksum : String → String) (decimal : ℕ → String) where
    -- The body of the loop for a row, from `_line_kind` on.
    unfoldable pub add_item : Moment → Reader Json Provenance → Reader Json Provenance
    unfolding make_item emit_batch
    add_item m r =
        let added = record r {
          batch = r.batch ++ make_item parse provenance_for checksum decimal r.seq m.row ∷ [];
          seq = r.seq + 1;
        } in
        if leb added.batch_target (length added.batch) || m.late
        then emit_batch m.emission added
        else added

    -- The loop over the rows, with `break`.
    unfoldable pub read_rows : List Moment → Reader Json Provenance → Reader Json Provenance
    unfolding add_item
    read_rows [] r = r
    read_rows (m ∷ ms) r = let rest = read_rows ms (add_item m r) in if m.stop then r else rest

    -- The thread: its rows, the last batch unless the stop event is set, and the sentinel.
    unfoldable pub reader_thread :
        List Moment → Emission → Sources → Reader Json Provenance × Sources
    unfolding read_rows emit_batch close
    reader_thread moments last interleaved =
        let started : Reader Json Provenance = record {
          batch = [];
          seq = 0;
          batch_target = max 1 stream_batch;
          batches_emitted = 0;
          block_events = 0;
          read_queue = [];
        } in
        let r = emit_batch last (read_rows moments started) in
        (record r { read_queue = r.read_queue ++ none ∷ [] }, close interleaved)
