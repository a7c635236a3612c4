-- ===== src/Jsonl/Count.antt =====
-- Counting the lines of a file that the writer has made, and of a record that is trusted.
use Prim.Native.Char.{Char, char, code}
use Prim.Native.String.{◌++◌, len}
use text.Mathlib.TextLemmas.{append_assoc, cons-append, nil-append}
use instant_ai_data_workflow.Prelude.{
  ℕ, ◌+◌, ◌≤◌, ◌<◌, ◌≡◌, ◌⊎◌, refl, ap, ◌∙◌, inl, inr, Bool, true, false, not, ◌||◌, Option, some,
  List, [], ◌∷◌, ◌==◌, arith, if◌then◌else◌, String, nat_eq, string_eq, take, length, length-take,
}
use instant_ai_data_workflow.Prelude.Dict.{Dict}
use instant_ai_data_workflow.Sink.{
  row_line, SourceMeta, Source, write_source_line_meta, stream_hf_to_jsonl, dumps_line,
}
use instant_ai_data_workflow.Sink.Stream.{
  lines_of, accepted, stream_hf_to_jsonl-file, stream_hf_to_jsonl-counts, lines-le,
}
use instant_ai_data_workflow.Jsonl.{
  is_space, count_from, count_jsonl_lines, RawMeta, SourceFiles, stored_count, close_to, meta_count,
  recount, resolve_text, resolve_jsonl_line_count,
}

-- A text of one line that is not blank.
unfoldable pub has_newline : String → Bool
has_newline String.[] = false
has_newline (String.◌∷◌ c s) = code c == 10 || has_newline s

unfoldable pub has_ink : String → Bool
has_ink String.[] = false
has_ink (String.◌∷◌ c s) = not (is_space (code c)) || has_ink s

abbrev newline : Char
newline = char 10 tt

newline_first : (rest : String) → "\n" ++ rest ≡ String.◌∷◌ newline rest
newline_first rest = cons-append newline "" rest ∙ ap (λ r. String.◌∷◌ newline r) (nil-append rest)

count_from_newline :
    (seen : Bool) (rest : String)
    → count_from seen ("\n" ++ rest) ≡ (if seen then 1 else 0) + count_from false rest
unfolding count_from
count_from_newline seen rest = rw (newline_first rest) refl

count_from_char :
    (seen : Bool) (c : Char) (s : String)
    → (code c == 10) ≡ false
    → count_from seen (String.◌∷◌ c s) ≡ count_from (seen || not (is_space (code c))) s
unfolding count_from
count_from_char seen c s h = rw h refl

or_regroup : (a b c : Bool) → (a || (b || c)) ≡ true → ((a || b) || c) ≡ true
or_regroup true b c h = h
or_regroup false b c h = h

count_from-line :
    (s rest : String) (seen : Bool)
    → has_newline s ≡ false
    → (seen || has_ink s) ≡ true
    → count_from seen (s ++ ("\n" ++ rest)) ≡ 1 + count_from false rest
unfolding has_newline has_ink
count_from-line String.[] rest seen h ink =
    rw (nil-append ("\n" ++ rest)) (count_from_newline seen rest ∙ ground arith)
count_from-line (String.◌∷◌ c s) rest seen h ink = rw (cons-append c s ("\n" ++ rest)) (
    count_from_char seen c (s ++ ("\n" ++ rest)) (ground arith)
    ∙ count_from-line s rest (seen || not (is_space (code c))) (ground arith)
        (or_regroup seen (not (is_space (code c))) (has_ink s) ink))

-- Texts of one line that is not blank, as the writer of JSON makes them.
abbrev pub IsLine : String → Type 0
IsLine s = (has_newline s ≡ false) × (has_ink s ≡ true)

module _ {Row V : Type 0} (dumps : Dict String V → String) (text_value : String → V)
    (clean : (obj : Dict String V) → IsLine (dumps obj)) (source : Source Row) where
  count-lines_of :
      (ts : List String) → count_from false (lines_of dumps text_value source ts) ≡ length ts
  unfolding count_from lines_of row_line dumps_line
  count-lines_of [] = refl
  count-lines_of (t ∷ ts) =
      let obj : Dict String V = ("text", text_value t) ∷ [] in
      ap (count_from false) (append_assoc (dumps obj) "\n" (lines_of dumps text_value source ts))
      ∙ count_from-line (dumps obj) (lines_of dumps text_value source ts) false (clean obj).0
          (clean obj).1
      ∙ omega (arith, count-lines_of ts)

  -- Where the writer of JSON gives one line for each object, the lines of the file of a stream are
  -- counted as the stream's writer has counted them.
  pub count_jsonl_lines-stream :
      (name : String) (limit : ℕ) (rows : List Row)
      → count_jsonl_lines
          (some (stream_hf_to_jsonl dumps text_value source name limit rows).0.sink.file)
        ≡ (stream_hf_to_jsonl dumps text_value source name limit rows).0.sink.lines
  unfolding count_jsonl_lines
  count_jsonl_lines-stream name limit rows =
      let n = (stream_hf_to_jsonl dumps text_value source name limit rows).0.sink.lines in
      ap (count_from false) (stream_hf_to_jsonl-file dumps text_value source name limit rows)
      ∙ count-lines_of (take n (accepted dumps text_value source rows))
      ∙ omega (
        arith,
        length-take n (accepted dumps text_value source rows),
        lines-le dumps text_value source name limit rows,
      )

stream-meta :
    {Row V : Type 0} (dumps : Dict String V → String) (text_value : String → V)
    (source : Source Row) (name : String) (limit : ℕ) (rows : List Row)
    → (stream_hf_to_jsonl dumps text_value source name limit rows).1
      ≡ write_source_line_meta name
          (stream_hf_to_jsonl dumps text_value source name limit rows).0.docs
          (stream_hf_to_jsonl dumps text_value source name limit rows).0.written
          (len (stream_hf_to_jsonl dumps text_value source name limit rows).0.sink.file)
unfolding stream_hf_to_jsonl
stream-meta dumps text_value source name limit rows = refl

stored_count-written :
    (name : String) (docs written size : ℕ)
    → (written ≡ 0) ⊎ ((written ≤ size) × (size < written + 4096))
    → stored_count name size (record {
      path = (write_source_line_meta name docs written size).path;
      line_count = some (write_source_line_meta name docs written size).line_count;
      bytes = (write_source_line_meta name docs written size).bytes;
    })
      ≡ some docs
unfolding stored_count close_to write_source_line_meta
stored_count-written name docs written size near =
    let same : (name == name) ≡ true = (string_eq.same_key_iff name name).1 refl in
    elim near [ inl none_written ↦ rw same (ground arith) | inr (le, lt) ↦ rw same (ground arith) ]

-- A source beside a record.
unfoldable pub with_meta :
    {T : Type 0} → (SourceMeta → T) → String → String → SourceMeta → SourceFiles T
with_meta dumps_meta name text m = record {
  name = name;
  source = some text;
  meta = some (dumps_meta m);
}

module _ {T : Type 0} (loads_meta : T → Option RawMeta) (dumps_meta : SourceMeta → T)
    (meta_again : (m : SourceMeta)
      → loads_meta (dumps_meta m)
        ≡ some (record { path = m.path; line_count = some m.line_count; bytes = m.bytes })) where
  resolve-with_meta :
      (name text : String) (docs written : ℕ)
      → (written ≡ 0) ⊎ ((written ≤ len text) × (len text < written + 4096))
      → (resolve_jsonl_line_count loads_meta dumps_meta false
          (with_meta dumps_meta name text (write_source_line_meta name docs written (len text)))).0
        ≡ docs
  unfolding resolve_jsonl_line_count resolve_text meta_count with_meta
  resolve-with_meta name text docs written near =
      let m = write_source_line_meta name docs written (len text) in
      rw (meta_again m, stored_count-written name docs written (len text) near) refl

  recount-with_meta :
      (name text : String) (m : SourceMeta)
      → (resolve_jsonl_line_count loads_meta dumps_meta true (with_meta dumps_meta name text m)).0
        ≡ count_jsonl_lines (some text)
  unfolding resolve_jsonl_line_count resolve_text recount with_meta
  recount-with_meta name text m = refl

  -- A recount of a source leaves a record that the next call finds and trusts: both calls give the
  -- number of its lines.
  pub resolve-resolve :
      (name text : String) (meta : Option T)
      → let files : SourceFiles T = record { name = name; source = some text; meta = meta } in
        let (n, after) = resolve_jsonl_line_count loads_meta dumps_meta true files in
        (n ≡ count_jsonl_lines (some text))
        × ((resolve_jsonl_line_count loads_meta dumps_meta false after).0 ≡ n)
  unfolding resolve_jsonl_line_count resolve_text recount with_meta
  resolve-resolve name text meta =
      (refl, resolve-with_meta name text (count_jsonl_lines (some text)) 0 (inl refl))

  module _ {Row V : Type 0} (dumps : Dict String V → String) (text_value : String → V)
      (clean : (obj : Dict String V) → IsLine (dumps obj)) (source : Source Row) where
    -- Called for the file of a stream, with the record that the stream has written and the file not
    -- 4096 bytes or more longer than the counted bytes, the function gives the documents that the
    -- stream has counted; a recount gives the lines of its writer.
    pub resolve-stream :
        (name : String) (limit : ℕ) (rows : List Row)
        → len (stream_hf_to_jsonl dumps text_value source name limit rows).0.sink.file
          < (stream_hf_to_jsonl dumps text_value source name limit rows).0.written + 4096
        → ((resolve_jsonl_line_count loads_meta dumps_meta false (
              with_meta dumps_meta name
                (stream_hf_to_jsonl dumps text_value source name limit rows).0.sink.file
                (stream_hf_to_jsonl dumps text_value source name limit rows).1)).0
            ≡ (stream_hf_to_jsonl dumps text_value source name limit rows).0.docs)
          × ((resolve_jsonl_line_count loads_meta dumps_meta true (
                with_meta dumps_meta name
                  (stream_hf_to_jsonl dumps text_value source name limit rows).0.sink.file
                  (stream_hf_to_jsonl dumps text_value source name limit rows).1)).0
              ≡ (stream_hf_to_jsonl dumps text_value source name limit rows).0.sink.lines)
    resolve-stream name limit rows short =
        let (s, m) = stream_hf_to_jsonl dumps text_value source name limit rows in
        let told = stream_hf_to_jsonl-counts dumps text_value source name limit rows in
        let le : s.written ≤ len s.sink.file = elim told.2 [
          | inl (w, d) ↦ omega (arith, w)
          | inr (over, d) ↦ omega (arith, over, told.0)
        ] in
        (
          ap
                (λ x.
                  (resolve_jsonl_line_count loads_meta dumps_meta false
                    (with_meta dumps_meta name s.sink.file x)).0)
                (stream-meta dumps text_value source name limit rows)
              ∙ resolve-with_meta name s.sink.file s.docs s.written (inr (le, short)),
          recount-with_meta name s.sink.file m
              ∙ count_jsonl_lines-stream dumps text_value clean source name limit rows,
        )
