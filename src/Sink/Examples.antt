-- ===== src/Sink/Examples.antt =====
-- A writer and a stream on small inputs. An object is written as its text in brackets, so that a
-- line of a text of two letters has five bytes.
use Prim.Native.String.{◌++◌, len}
use instant_ai_data_workflow.Prelude.{
  ◌+◌, ◌≤◌, ◌<◌, ◌≡◌, ◌⊎◌, false, none, some, List, [], ◌∷◌, refl, String, take, string_eq,
}
use instant_ai_data_workflow.Prelude.Dict.{Dict, get, put}
use instant_ai_data_workflow.Sink.{
  truncate, append, open_writer, close, Call, add_row, flush_now, calls, Source, stream_hf_to_jsonl,
  write_row, flush, row_line, dumps_line, accepted_text, write_text, stream_rows, listed, is_empty,
  write_source_line_meta,
}
use instant_ai_data_workflow.Sink.Contents.{given, rows, close-calls, file-calls}
use instant_ai_data_workflow.Sink.Stream.{
  accepted, lines_of, stream_hf_to_jsonl-file, stream_hf_to_jsonl-counts,
}

abbrev in_brackets : Dict String String → String
in_brackets obj = elim (get obj "text") [ none ↦ "{}" | some t ↦ "{" ++ t ++ "}" ]

abbrev same : String → String
same s = s

abbrev session : List (Call String)
session =
    add_row "ab" none ∷ add_row "cd" (some (("id", "7") ∷ [])) ∷ flush_now ∷ add_row "ef" none ∷ []

close-calls_example :
    ((close (calls in_brackets same session (open_writer append "{00}\n" 100))).1.file
      ≡ (open_writer append "{00}\n" 100).file ++ given in_brackets same session)
    × ((close (calls in_brackets same session (open_writer append "{00}\n" 100))).0
        ≡ len (given in_brackets same session))
    × ((close (calls in_brackets same session (open_writer append "{00}\n" 100))).1.lines
        ≡ rows in_brackets same session)
close-calls_example = close-calls in_brackets same append "{00}\n" 100 session

file-calls_example :
    ((calls in_brackets same session (open_writer truncate "{00}\n" 6)).file
        ++ (calls in_brackets same session (open_writer truncate "{00}\n" 6)).buffer
      ≡ (open_writer truncate "{00}\n" 6).file ++ given in_brackets same session)
    × (len (calls in_brackets same session (open_writer truncate "{00}\n" 6)).buffer < 6)
file-calls_example = file-calls in_brackets same truncate "{00}\n" 6 session

written_file :
    (close (calls in_brackets same session (open_writer append "{00}\n" 100))).1.file
    ≡ "{00}\n{ab}\n{cd}\n{ef}\n"
unfolding close calls write_row flush open_writer row_line dumps_line get put
written_file = refl

-- At most twelve bytes, so that two lines fit; texts have two letters.
abbrev texts : Source String
texts = record {
  language = λ r. "";
  text_fn = λ r. r;
  minimal_normalize = λ t. t;
  alpha_count = λ t. 2;
  alpha_below = λ a n. false;
  languages = [];
  min_chars = 2;
  max_chars = 2;
  max_bytes = 12;
}

abbrev four : List String
four = "ab" ∷ "c" ∷ "de" ∷ "fg" ∷ "hi" ∷ []

-- The third line is in the file, and not counted.
streamed :
    ((stream_hf_to_jsonl in_brackets same texts "a" 6 four).0.sink.file ≡ "{ab}\n{de}\n{fg}\n")
    × ((stream_hf_to_jsonl in_brackets same texts "a" 6 four).1.line_count ≡ 2)
unfolding stream_hf_to_jsonl stream_rows write_text accepted_text listed is_empty
    write_source_line_meta close write_row flush open_writer row_line dumps_line get put
streamed = (refl, refl)

stream_hf_to_jsonl-file_example :
    (stream_hf_to_jsonl in_brackets same texts "a" 6 four).0.sink.file
    ≡ lines_of in_brackets same texts (
        take
          (stream_hf_to_jsonl in_brackets same texts "a" 6 four).0.sink.lines
          (accepted in_brackets same texts four))
stream_hf_to_jsonl-file_example = stream_hf_to_jsonl-file in_brackets same texts "a" 6 four

stream_hf_to_jsonl-counts_example :
    ((stream_hf_to_jsonl in_brackets same texts "a" 6 four).0.written ≤ 12)
    × ((stream_hf_to_jsonl in_brackets same texts "a" 6 four).1.line_count
        ≡ (stream_hf_to_jsonl in_brackets same texts "a" 6 four).0.docs)
    × ((((stream_hf_to_jsonl in_brackets same texts "a" 6 four).0.written
            ≡ len (stream_hf_to_jsonl in_brackets same texts "a" 6 four).0.sink.file)
          × ((stream_hf_to_jsonl in_brackets same texts "a" 6 four).0.docs
              ≡ (stream_hf_to_jsonl in_brackets same texts "a" 6 four).0.sink.lines))
        ⊎ ((12 < len (stream_hf_to_jsonl in_brackets same texts "a" 6 four).0.sink.file)
            × ((stream_hf_to_jsonl in_brackets same texts "a" 6 four).0.sink.lines
                ≡ (stream_hf_to_jsonl in_brackets same texts "a" 6 four).0.docs + 1)))
stream_hf_to_jsonl-counts_example = stream_hf_to_jsonl-counts in_brackets same texts "a" 6 four
