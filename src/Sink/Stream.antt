-- ===== src/Sink/Stream.antt =====
-- What `stream_hf_to_jsonl` leaves in its file, and what it tells of it.
use Prim.Native.String.{◌++◌, len}
use text.Mathlib.TextPositions.{len-append}
use text.Mathlib.TextLemmas.{append-nil, nil-append, append_assoc}
use instant_ai_data_workflow.Prelude.{
  ℕ, suc, ◌+◌, ◌≤◌, ◌<◌, ◌≡◌, ◌⊎◌, refl, sym, ap, subst, ◌∙◌, inl, inr, true, false, none, some,
  List, [], ◌∷◌, leb, ltb, arith, String, nat_eq, Bool-cases, Option-cases, take, length,
}
use instant_ai_data_workflow.Prelude.Dict.{Dict}
use instant_ai_data_workflow.Sink.{
  Writer, truncate, open_writer, flush, close, row_line, write_row, Source, Streamed, accepted_text,
  write_text, stream_rows, stream_hf_to_jsonl, write_source_line_meta,
}
use instant_ai_data_workflow.Sink.Contents.{
  Holds, write_row-Holds, flush-Holds, open_writer-Holds, flush_empties,
}

module _ {Row V : Type 0} (dumps : Dict String V → String) (text_value : String → V)
    (source : Source Row) where
  -- The texts of the rows that are not skipped.
  unfoldable pub accepted : List Row → List String
  accepted [] = []
  accepted (r ∷ rows) = elim (accepted_text source r) [
    | none ↦ accepted rows
    | some text ↦ text ∷ accepted rows
  ]

  unfoldable pub lines_of : List String → String
  lines_of [] = ""
  lines_of (t ∷ ts) = row_line dumps text_value t none ++ lines_of ts

  record Outcome (before : String) (n : ℕ) (rows : List Row) (s : Streamed) : Type 0 where
    taken : ℕ
    enough : taken ≤ length (accepted rows)
    held : Holds "" (before ++ lines_of (take taken (accepted rows))) (n + taken) s.sink
    within : s.written ≤ source.max_bytes
    told :
        ((s.written ≡ s.sink.bytes_written) × (s.docs ≡ s.sink.lines))
        ⊎ ((source.max_bytes < s.sink.bytes_written) × (s.sink.lines ≡ s.docs + 1))

  accepted-none :
      (r : Row) (rows : List Row)
      → accepted_text source r ≡ none
      → accepted (r ∷ rows) ≡ accepted rows
  unfolding accepted
  accepted-none r rows e = rw (e, accepted) refl

  accepted-some :
      (r : Row) (rows : List Row) (t : String)
      → accepted_text source r ≡ some t
      → accepted (r ∷ rows) ≡ t ∷ accepted rows
  unfolding accepted
  accepted-some r rows t e = rw (e, accepted) refl

  -- Nothing was taken yet.
  stopped :
      (before : String) (n : ℕ) (rows : List Row) (s : Streamed)
      → Holds "" before n s.sink
      → s.written ≤ source.max_bytes
      → s.written ≡ len before
      → s.docs ≡ n
      → Outcome before n rows s
  unfolding lines_of
  stopped before n rows s h le w d = record {
    taken = 0;
    enough = omega arith;
    held =
        subst (λ k. Holds "" (before ++ "") k s.sink) (omega arith)
          (subst (λ t. Holds "" t n s.sink) (sym (append-nil before)) h);
    within = le;
    told = inl (omega (arith, h.counted), omega (arith, h.numbered));
  }

  skipped_one :
      (before : String) (n : ℕ) (r : Row) (rows : List Row) (s : Streamed)
      → accepted_text source r ≡ none
      → Outcome before n rows s
      → Outcome before n (r ∷ rows) s
  skipped_one before n r rows s e o = record {
    taken = o.taken;
    enough = rw (accepted-none r rows e) o.enough;
    held =
        subst (λ ts. Holds "" (before ++ lines_of (take o.taken ts)) (n + o.taken) s.sink)
          (sym (accepted-none r rows e)) o.held;
    within = o.within;
    told = o.told;
  }

  more_taken :
      (before : String) (n k : ℕ) (r : Row) (rows : List Row) (t : String) (w : Writer)
      → accepted_text source r ≡ some t
      → Holds ""
          ((before ++ row_line dumps text_value t none) ++ lines_of (take k (accepted rows)))
          ((n + 1) + k)
          w
      → Holds "" (before ++ lines_of (take (suc k) (accepted (r ∷ rows)))) (n + suc k) w
  unfolding lines_of
  more_taken before n k r rows t w e h =
      let line = row_line dumps text_value t none in
      rw (accepted-some r rows t e) (
        subst (λ m. Holds "" (before ++ (line ++ lines_of (take k (accepted rows)))) m w)
          (omega arith)
          (subst (λ u. Holds "" u ((n + 1) + k) w)
            (append_assoc before line (lines_of (take k (accepted rows)))) h))

  go_on :
      (before : String) (n : ℕ) (r : Row) (rows : List Row) (t : String) (s : Streamed)
      → accepted_text source r ≡ some t
      → Outcome (before ++ row_line dumps text_value t none) (n + 1) rows s
      → Outcome before n (r ∷ rows) s
  go_on before n r rows t s e o = record {
    taken = suc o.taken;
    enough = rw (accepted-some r rows t e) (omega (arith, o.enough));
    held = more_taken before n o.taken r rows t s.sink e o.held;
    within = o.within;
    told = o.told;
  }

  break_off :
      (before : String) (n : ℕ) (r : Row) (rows : List Row) (t : String) (s s' : Streamed)
      → accepted_text source r ≡ some t
      → Holds "" (before ++ row_line dumps text_value t none) (n + 1) s'.sink
      → s'.written ≡ len before
      → s'.written ≤ source.max_bytes
      → source.max_bytes < len before + len (row_line dumps text_value t none)
      → s'.docs ≡ n
      → Outcome before n (r ∷ rows) s'
  unfolding lines_of
  break_off before n r rows t s s' e h w le over d = record {
    taken = suc 0;
    enough = rw (accepted-some r rows t e) (omega arith);
    held = more_taken before n 0 r rows t s'.sink e (
        subst (λ k. Holds "" ((before ++ row_line dumps text_value t none) ++ "") k s'.sink)
          (omega arith)
          (subst (λ u. Holds "" u (n + 1) s'.sink)
            (sym (append-nil (before ++ row_line dumps text_value t none))) h));
    within = le;
    told = inr (
      omega (arith, h.counted, len-append before (row_line dumps text_value t none)),
      omega (arith, h.numbered),
    );
  }

  line_bytes :
      (t : String) (w : Writer)
      → (write_row dumps text_value t none w).0 ≡ len (row_line dumps text_value t none)
  unfolding write_row
  line_bytes t w = refl

  write_text_over :
      (t : String) (s : Streamed)
      → ltb source.max_bytes (s.written + (write_row dumps text_value t none s.sink).0) ≡ true
      → write_text dumps text_value source t s
        ≡ (true, record s { sink = flush (write_row dumps text_value t none s.sink).1 })
  unfolding write_text
  write_text_over t s e = rw e refl

  write_text_within :
      (t : String) (s : Streamed)
      → ltb source.max_bytes (s.written + (write_row dumps text_value t none s.sink).0) ≡ false
      → write_text dumps text_value source t s ≡ (
        false,
        record s {
          written = s.written + (write_row dumps text_value t none s.sink).0;
          docs = s.docs + 1;
          sink = (write_row dumps text_value t none s.sink).1;
        },
      )
  unfolding write_text
  write_text_within t s e = rw e refl

  stream_rows-Outcome :
      (before : String) (n : ℕ) (rows : List Row) (s : Streamed)
      → Holds "" before n s.sink
      → s.written ≤ source.max_bytes
      → s.written ≡ len before
      → s.docs ≡ n
      → Outcome before n rows (stream_rows dumps text_value source rows s)
  unfolding stream_rows
  stream_rows-Outcome before n [] s h le w d = stopped before n [] s h le w d
  stream_rows-Outcome before n (r ∷ rows) s h le w d =
      elim (Bool-cases (leb source.max_bytes s.written)) [
        | inl full ↦ rw full (stopped before n (r ∷ rows) s h le w d)
        | inr room ↦ elim (Option-cases (accepted_text source r)) [
          | inl skip ↦
              rw (room, skip)
                (skipped_one before n r rows _ skip (
                  stream_rows-Outcome before n rows (record s { skipped = s.skipped + 1 }) h le w
                    d))
          | inr (t, e) ↦
              let line = row_line dumps text_value t none in
              let sink : Writer = (write_row dumps text_value t none s.sink).1 in
              let bytes : ℕ = (write_row dumps text_value t none s.sink).0 in
              let bytes_eq : bytes ≡ len line = line_bytes t s.sink in
              let held = write_row-Holds dumps text_value "" before n t none s.sink h in
              elim (Bool-cases (ltb source.max_bytes (s.written + bytes))) [
                | inl over ↦
                    rw (room, e, write_text_over t s over)
                      (break_off before n r rows t s (record s { sink = flush sink }) e
                        (flush-Holds "" (before ++ line) (n + 1) sink held) w le (ground arith) d)
                | inr fits ↦
                    rw (room, e, write_text_within t s fits)
                      (go_on before n r rows t _ e (
                        stream_rows-Outcome (before ++ line) (n + 1) rows
                          (record s { written = s.written + bytes; docs = s.docs + 1; sink = sink })
                          held (ground arith) (omega (arith, len-append before line))
                          (omega arith)))
              ]
        ]
      ]

  lines_at_close : (w : Writer) → (close w).1.lines ≡ w.lines
  unfolding close flush
  lines_at_close w = ground arith

  bytes_at_close : (w : Writer) → (close w).1.bytes_written ≡ w.bytes_written
  unfolding close flush
  bytes_at_close w = ground arith

  file_at_close :
      (given : String) (n : ℕ) (w : Writer) → Holds "" given n w → (close w).1.file ≡ given
  unfolding close
  file_at_close given n w h =
      let f = flush-Holds "" given n w h in
      sym (append-nil (flush w).file)
      ∙ ap (λ s. (flush w).file ++ s) (sym (flush_empties w h.measured))
      ∙ f.whole
      ∙ nil-append given

  -- The states before the loop and behind it.
  start : ℕ → Streamed
  start limit = record { written = 0; docs = 0; skipped = 0; sink = open_writer truncate "" limit }

  final : ℕ → List Row → Streamed
  final limit rows = stream_rows dumps text_value source rows (start limit)

  final-Outcome : (limit : ℕ) (rows : List Row) → Outcome "" 0 rows (final limit rows)
  unfolding open_writer start final
  final-Outcome limit rows =
      stream_rows-Outcome "" 0 rows (start limit) (open_writer-Holds truncate "" limit)
        (omega arith) refl refl

  -- The file of a stream holds the lines of the first accepted texts of the rows, in order, as many
  -- as it has lines.
  pub stream_hf_to_jsonl-file :
      (name : String) (limit : ℕ) (rows : List Row)
      → (stream_hf_to_jsonl dumps text_value source name limit rows).0.sink.file
        ≡ lines_of (
            take
              (stream_hf_to_jsonl dumps text_value source name limit rows).0.sink.lines
              (accepted rows))
  unfolding stream_hf_to_jsonl final start
  stream_hf_to_jsonl-file name limit rows =
      let o = final-Outcome limit rows in
      let w = (final limit rows).sink in
      let taken = o.taken in
      let n : (close w).1.lines ≡ taken = lines_at_close w ∙ o.held.numbered ∙ omega arith in
      file_at_close ("" ++ lines_of (take taken (accepted rows))) (0 + taken) w o.held
      ∙ nil-append (lines_of (take taken (accepted rows)))
      ∙ ap (λ k. lines_of (take k (accepted rows))) (sym n)

  -- The lines of the file are those of accepted texts.
  pub lines-le :
      (name : String) (limit : ℕ) (rows : List Row)
      → (stream_hf_to_jsonl dumps text_value source name limit rows).0.sink.lines
        ≤ length (accepted rows)
  unfolding stream_hf_to_jsonl final start
  lines-le name limit rows =
      let o = final-Outcome limit rows in
      omega (arith, o.enough, o.held.numbered, lines_at_close (final limit rows).sink)

  -- A stream counts at most `max_bytes` bytes. Either its counts are those of the file, lines and
  -- bytes, or the file is larger than `max_bytes` and has one line more than the stream has counted,
  -- here and in the record that is written beside the file.
  pub stream_hf_to_jsonl-counts :
      (name : String) (limit : ℕ) (rows : List Row)
      → ((stream_hf_to_jsonl dumps text_value source name limit rows).0.written ≤ source.max_bytes)
        × ((stream_hf_to_jsonl dumps text_value source name limit rows).1.line_count
            ≡ (stream_hf_to_jsonl dumps text_value source name limit rows).0.docs)
        × ((((stream_hf_to_jsonl dumps text_value source name limit rows).0.written
                ≡ len (stream_hf_to_jsonl dumps text_value source name limit rows).0.sink.file)
              × ((stream_hf_to_jsonl dumps text_value source name limit rows).0.docs
                  ≡ (stream_hf_to_jsonl dumps text_value source name limit rows).0.sink.lines))
            ⊎ ((source.max_bytes
                  < len (stream_hf_to_jsonl dumps text_value source name limit rows).0.sink.file)
                × ((stream_hf_to_jsonl dumps text_value source name limit rows).0.sink.lines
                    ≡ (stream_hf_to_jsonl dumps text_value source name limit rows).0.docs + 1)))
  unfolding stream_hf_to_jsonl final start write_source_line_meta
  stream_hf_to_jsonl-counts name limit rows =
      let o = final-Outcome limit rows in
      let s = final limit rows in
      let given = "" ++ lines_of (take o.taken (accepted rows)) in
      let size : s.sink.bytes_written ≡ len (close s.sink).1.file =
        o.held.counted ∙ ap len (sym (file_at_close given (0 + o.taken) s.sink o.held)) in
      let rows_in = lines_at_close s.sink in
      (
        o.within,
        refl,
        elim o.told [
          | inl (w, d) ↦ inl (w ∙ size, d ∙ sym rows_in)
          | inr (over, one_more) ↦ inr (omega (arith, size, over), rows_in ∙ one_more)
        ],
      )
