-- ===== src/Jsonl/Examples.antt =====
-- A stream whose last line goes beyond its bound, and the counts of its file.
use Prim.Native.String.{len}
use instant_ai_data_workflow.Prelude.{
  ℕ, ◌+◌, ◌≡◌, ◌<◌, refl, true, false, Option, some, List, [], ◌∷◌, String, arith, string_eq,
}
use instant_ai_data_workflow.Prelude.Dict.{Dict}
use instant_ai_data_workflow.Sink.{
  SourceMeta, Source, stream_hf_to_jsonl, write_row, flush, row_line, dumps_line, accepted_text,
  write_text, stream_rows, listed, is_empty, write_source_line_meta, close, open_writer,
}
use instant_ai_data_workflow.Jsonl.{
  RawMeta, SourceFiles, is_space, count_jsonl_lines, parse_jsonl_line, Json, other, parse_error,
  resolve_jsonl_line_count,
}
use instant_ai_data_workflow.Jsonl.Count.{
  IsLine, has_newline, has_ink, resolve-resolve, resolve-stream, with_meta,
}

-- Every object is written as one text, and the record beside a source as itself.
abbrev braces : Dict String String → String
braces obj = "{a}"

abbrev same : String → String
same s = s

abbrev read_meta : SourceMeta → Option RawMeta
read_meta m = some (record { path = m.path; line_count = some m.line_count; bytes = m.bytes })

abbrev write_meta : SourceMeta → SourceMeta
write_meta m = m

abbrev texts : Source String
texts = record {
  language = λ r. "";
  text_fn = λ r. r;
  minimal_normalize = λ t. t;
  alpha_count = λ t. 2;
  alpha_below = λ a n. false;
  languages = [];
  min_chars = 1;
  max_chars = 2;
  max_bytes = 9;
}

abbrev four : List String
four = "ab" ∷ "c" ∷ "de" ∷ "fg" ∷ []

counted : count_jsonl_lines (some "{a}\n \n\n{b}\n{c}") ≡ 3
unfolding count_jsonl_lines
counted = refl

-- Only an object is a row.
abbrev brackets_only : String → Option (Json ℕ)
brackets_only s = some other

rejected : parse_jsonl_line brackets_only "[1]" ≡ parse_error
unfolding parse_jsonl_line
rejected = refl

braces-IsLine : (obj : Dict String String) → IsLine (braces obj)
unfolding has_newline has_ink is_space
braces-IsLine obj = (refl, refl)

-- A file of three lines beside a record of seven.
abbrev stale : SourceFiles SourceMeta
stale = record {
  name = "a";
  source = some "{b}\n\n{c}\n{d}\n";
  meta = some (record { path = "a"; line_count = 7; bytes = 12 });
}

resolve-resolve_example :
    ((resolve_jsonl_line_count read_meta write_meta true stale).0
      ≡ count_jsonl_lines (some "{b}\n\n{c}\n{d}\n"))
    × ((resolve_jsonl_line_count read_meta write_meta false
          (resolve_jsonl_line_count read_meta write_meta true stale).1).0
        ≡ (resolve_jsonl_line_count read_meta write_meta true stale).0)
resolve-resolve_example =
    resolve-resolve read_meta write_meta (λ m. refl) "a" "{b}\n\n{c}\n{d}\n"
      (some (record { path = "a"; line_count = 7; bytes = 12 }))

short :
    len (stream_hf_to_jsonl braces same texts "a" 100 four).0.sink.file
    < (stream_hf_to_jsonl braces same texts "a" 100 four).0.written + 4096
unfolding stream_hf_to_jsonl stream_rows write_text accepted_text listed is_empty
    write_source_line_meta close write_row flush open_writer row_line dumps_line
short = omega arith

-- Three lines, of which two are counted.
resolve-stream_example :
    ((resolve_jsonl_line_count read_meta write_meta false (
        with_meta write_meta "a"
          (stream_hf_to_jsonl braces same texts "a" 100 four).0.sink.file
          (stream_hf_to_jsonl braces same texts "a" 100 four).1)).0
      ≡ (stream_hf_to_jsonl braces same texts "a" 100 four).0.docs)
    × ((resolve_jsonl_line_count read_meta write_meta true (
          with_meta write_meta "a"
            (stream_hf_to_jsonl braces same texts "a" 100 four).0.sink.file
            (stream_hf_to_jsonl braces same texts "a" 100 four).1)).0
        ≡ (stream_hf_to_jsonl braces same texts "a" 100 four).0.sink.lines)
resolve-stream_example =
    resolve-stream read_meta write_meta (λ m. refl) braces same braces-IsLine texts "a" 100 four
      short
