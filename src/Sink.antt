-- ===== src/Sink.antt =====
-- `BufferedJsonlWriter` and `stream_hf_to_jsonl` of src/indw/ingest/sink.py, with `dumps_line` of
-- src/indw/store/io/json_codec.py and `write_source_line_meta` of src/indw/store/io/jsonl.py.
--
-- `dumps` is `orjson.dumps` of an object, decoded. A file is its text; what the writer gave to
-- `self._file` is in the file, since each write is followed by a flush of it. `flushed` counts the
-- calls of `on_flush`. The line break is written as it is, as on POSIX. The progress bar and the log
-- lines are left out.
pub mod Contents
pub mod Stream
mod Examples
use Prim.Native.String.{◌++◌, len, count}
use instant_ai_data_workflow.Prelude.{
  ℕ, ◌+◌, max, Bool, true, false, not, ◌&&◌, ◌||◌, Option, none, some, List, [], ◌∷◌, ltb, leb,
  ◌==◌, if◌then◌else◌, String, nat_eq, string_eq,
}
use instant_ai_data_workflow.Prelude.Dict.{Dict, put}

pub record Writer : Type 0 where
  pub file : String
  pub buffer : String
  pub buffer_bytes : ℕ
  pub limit : ℕ
  pub lines : ℕ
  pub bytes_written : ℕ
  pub flushed : ℕ

-- `'w'` and `'a'`, the modes of `open`.
pub data Mode : Type 0 where
  truncate : Mode
  append : Mode

unfoldable pub open_writer : Mode → String → ℕ → Writer
open_writer mode existing limit = record {
  file = elim mode [ truncate ↦ "" | append ↦ existing ];
  buffer = "";
  buffer_bytes = 0;
  limit = limit;
  lines = 0;
  bytes_written = 0;
  flushed = 0;
}

unfoldable pub flush : Writer → Writer
flush w = if w.buffer_bytes == 0 then record w { flushed = w.flushed + 1 } else record w {
  file = w.file ++ w.buffer;
  buffer = "";
  buffer_bytes = 0;
  flushed = w.flushed + 1;
}

unfoldable pub close : Writer → ℕ × Writer
unfolding flush
close w = let w' = flush w in (w'.bytes_written, w')

module _ {V : Type 0} (dumps : Dict String V → String) (text_value : String → V) where
  unfoldable pub dumps_line : Dict String V → String
  dumps_line obj = dumps obj ++ "\n"

  -- The line of a row: the record with its `text` replaced, or the text alone.
  unfoldable pub row_line : String → Option (Dict String V) → String
  unfolding dumps_line
  row_line text none = dumps_line (("text", text_value text) ∷ [])
  row_line text (some fields) = dumps_line (put fields "text" (text_value text))

  unfoldable pub write_row : String → Option (Dict String V) → Writer → ℕ × Writer
  unfolding row_line flush
  write_row text fields w =
      let line = row_line text fields in
      let n = len line in
      let w' = record w {
        buffer = w.buffer ++ line;
        buffer_bytes = w.buffer_bytes + n;
        lines = w.lines + 1;
        bytes_written = w.bytes_written + n;
      } in
      (n, if leb w'.limit w'.buffer_bytes then flush w' else w')

-- A call of the writer between its opening and its closing.
pub data Call (V : Type 0) : Type 0 where
  add_row : String → Option (Dict String V) → Call V
  flush_now : Call V

module _ {V : Type 0} (dumps : Dict String V → String) (text_value : String → V) where
  unfoldable pub calls : List (Call V) → Writer → Writer
  unfolding write_row flush
  calls [] w = w
  calls (add_row text fields ∷ cs) w = calls cs (write_row dumps text_value text fields w).1
  calls (flush_now ∷ cs) w = calls cs (flush w)

-- What `write_source_line_meta` puts in the file beside the source: `path`, `line_count`, `bytes`.
pub record SourceMeta : Type 0 where
  pub path : String
  pub line_count : ℕ
  pub bytes : ℕ

-- `int(bytes_written or st_size)`
unfoldable pub write_source_line_meta : String → ℕ → ℕ → ℕ → SourceMeta
write_source_line_meta name line_count bytes_written st_size = record {
  path = name;
  line_count = line_count;
  bytes = if bytes_written == 0 then st_size else bytes_written;
}

-- What `stream_hf_to_jsonl` asks of a row, of its text and of the options of the call.
pub record Source (Row : Type 0) : Type 0 where
  pub language : Row → String  -- row.get('language') or row.get('lang', '')
  pub text_fn : Row → String
  pub minimal_normalize : String → String
  pub alpha_count : String → ℕ  -- sum(c.isalpha() for c in text)
  pub alpha_below : ℕ → ℕ → Bool  -- alpha / max(n, 1) < min_alpha_ratio
  pub languages : List String
  pub min_chars : ℕ
  pub max_chars : ℕ
  pub max_bytes : ℕ

pub record Streamed : Type 0 where
  pub written : ℕ
  pub docs : ℕ
  pub skipped : ℕ
  pub sink : Writer

unfoldable pub is_empty : List String → Bool
is_empty [] = true
is_empty (l ∷ ls) = false

unfoldable pub listed : String → List String → Bool
listed lang [] = false
listed lang (l ∷ ls) = l == lang || listed lang ls

module _ {Row : Type 0} (source : Source Row) where
  -- The text that is written for a row, or `none` where the row is skipped.
  unfoldable pub accepted_text : Row → Option String
  unfolding is_empty listed
  accepted_text row =
      let lang = source.language row in
      if not (is_empty source.languages) && not (lang == "") && not (listed lang source.languages)
      then none
      else (let text = source.minimal_normalize (source.text_fn row) in
          let n = count text in
          if text == ""
          then none
          else if ltb n source.min_chars || ltb source.max_chars n
          then none
          else if source.alpha_below (source.alpha_count text) (max n 1)
          then none
          else some text)

module _ {Row V : Type 0} (dumps : Dict String V → String) (text_value : String → V)
    (source : Source Row) where
  -- What the body of the loop does with a text; `true` stands for `break`.
  unfoldable pub write_text : String → Streamed → Bool × Streamed
  unfolding write_row flush
  write_text text s =
      let (line_bytes, sink) = write_row dumps text_value text none s.sink in
      if ltb source.max_bytes (s.written + line_bytes)
      then (true, record s { sink = flush sink })
      else (false, record s { written = s.written + line_bytes; docs = s.docs + 1; sink = sink })

  unfoldable pub stream_rows : List Row → Streamed → Streamed
  stream_rows [] s = s
  stream_rows (row ∷ rows) s =
      if leb source.max_bytes s.written then s else elim (accepted_text source row) [
        | none ↦ stream_rows rows (record s { skipped = s.skipped + 1 })
        | some text ↦
            let (stop, s') = write_text text s in
            let rest = stream_rows rows s' in if stop then s' else rest
      ]

  -- The counters that are returned, the file, and the record of its lines.
  unfoldable pub stream_hf_to_jsonl : String → ℕ → List Row → Streamed × SourceMeta
  stream_hf_to_jsonl name write_buffer_bytes rows =
      let sink = open_writer truncate "" write_buffer_bytes in
      let s = stream_rows rows (record { written = 0; docs = 0; skipped = 0; sink = sink }) in
      let closed = (close s.sink).1 in
      (record s { sink = closed }, write_source_line_meta name s.docs s.written (len closed.file))
