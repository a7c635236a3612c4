-- ===== src/Sink/Contents.antt =====
-- What the file of a `BufferedJsonlWriter` holds.
use Prim.Native.String.len.{cons as len-cons}
use Prim.Native.String.{◌++◌, len}
use text.Mathlib.TextPositions.{len-append, len_utf8-pos}
use text.Mathlib.TextLemmas.{append-nil, nil-append, append_assoc}
use instant_ai_data_workflow.Prelude.{
  ℕ, suc, ◌+◌, ◌<◌, ◌≡◌, refl, sym, ap, subst, ◌∙◌, inl, inr, Option, List, [], ◌∷◌, leb, ◌==◌,
  arith, String, nat_eq, Bool-cases, max,
}
use instant_ai_data_workflow.Prelude.Dict.{Dict}
use instant_ai_data_workflow.Sink.{
  Writer, Mode, open_writer, flush, close, row_line, write_row, Call, add_row, flush_now, calls,
}

-- What the writer was given is in the file and the buffer, and the counters tell of it.
pub record Holds (start given : String) (rows : ℕ) (w : Writer) : Type 0 where
  pub whole : w.file ++ w.buffer ≡ start ++ given
  pub measured : w.buffer_bytes ≡ len w.buffer
  pub counted : w.bytes_written ≡ len given
  pub numbered : w.lines ≡ rows

len-eq-zero : (s : String) → len s ≡ 0 → s ≡ ""
len-eq-zero String.[] h = refl
len-eq-zero (String.◌∷◌ c s) h =
    let (k, pos) = len_utf8-pos c in absurd (omega (arith, pos, ap (λ (n : ℕ). n) (len-cons c s)))

pub flush_empties : (w : Writer) → w.buffer_bytes ≡ len w.buffer → (flush w).buffer ≡ ""
unfolding flush
flush_empties w measured = elim (Bool-cases (w.buffer_bytes == 0)) [
  | inl idle ↦ rw idle (len-eq-zero w.buffer (ground arith))
  | inr more ↦ rw more refl
]

flush_bytes : (w : Writer) → (flush w).buffer_bytes ≡ 0
unfolding flush
flush_bytes w = ground arith

pub flush-whole : (w : Writer) → (flush w).file ++ (flush w).buffer ≡ w.file ++ w.buffer
unfolding flush
flush-whole w = elim (Bool-cases (w.buffer_bytes == 0)) [
  | inl idle ↦ rw idle refl
  | inr more ↦ rw more (append-nil (w.file ++ w.buffer))
]

pub flush-Holds :
    (start given : String) (rows : ℕ) (w : Writer)
    → Holds start given rows w
    → Holds start given rows (flush w)
unfolding flush
flush-Holds start given rows w h = record {
  whole = flush-whole w ∙ h.whole;
  measured = flush_bytes w ∙ sym (ap len (flush_empties w h.measured));
  counted = ground (arith, h.counted);
  numbered = ground (arith, h.numbered);
}

pub open_writer-Holds :
    (mode : Mode) (existing : String) (limit : ℕ)
    → Holds (open_writer mode existing limit).file "" 0 (open_writer mode existing limit)
unfolding open_writer
open_writer-Holds mode existing limit = record {
  whole = refl;
  measured = refl;
  counted = refl;
  numbered = refl;
}

module _ {V : Type 0} (dumps : Dict String V → String) (text_value : String → V) where
  -- The rows of the calls as lines, one behind the other.
  unfoldable pub given : List (Call V) → String
  given [] = ""
  given (add_row text fields ∷ cs) = row_line dumps text_value text fields ++ given cs
  given (flush_now ∷ cs) = given cs

  unfoldable pub rows : List (Call V) → ℕ
  rows [] = 0
  rows (add_row text fields ∷ cs) = suc (rows cs)
  rows (flush_now ∷ cs) = rows cs

  pub write_row-Holds :
      (start before : String) (n : ℕ) (text : String) (fields : Option (Dict String V)) (w : Writer)
      → Holds start before n w
      → Holds start
          (before ++ row_line dumps text_value text fields)
          (n + 1)
          (write_row dumps text_value text fields w).1
  unfolding write_row
  write_row-Holds start before n text fields w h =
      let line = row_line dumps text_value text fields in
      let k = len line in
      let w' : Writer = record w {
        buffer = w.buffer ++ line;
        buffer_bytes = w.buffer_bytes + k;
        lines = w.lines + 1;
        bytes_written = w.bytes_written + k;
      } in
      let held : Holds start (before ++ line) (n + 1) w' = record {
        whole =
            sym (append_assoc w.file w.buffer line)
            ∙ ap (λ s. s ++ line) h.whole
            ∙ append_assoc start before line;
        measured = omega (arith, h.measured, len-append w.buffer line);
        counted = omega (arith, h.counted, len-append before line);
        numbered = omega (arith, h.numbered);
      } in
      elim (Bool-cases (leb w'.limit w'.buffer_bytes)) [
        | inl over ↦ rw over (flush-Holds start (before ++ line) (n + 1) w' held)
        | inr room ↦ rw room held
      ]

  calls-Holds :
      (start before : String) (n : ℕ) (cs : List (Call V)) (w : Writer)
      → Holds start before n w
      → Holds start (before ++ given cs) (n + rows cs) (calls dumps text_value cs w)
  unfolding calls given rows
  calls-Holds start before n [] w h =
      rw (append-nil before) (subst (λ k. Holds start before k w) (omega arith) h)
  calls-Holds start before n (add_row text fields ∷ cs) w h =
      let line = row_line dumps text_value text fields in
      let step = write_row-Holds start before n text fields w h in
      let rest =
        calls-Holds start (before ++ line) (n + 1) cs (write_row dumps text_value text fields w).1
          step in
      rw (sym (append_assoc before line (given cs))) (
        subst
          (λ k.
            Holds start ((before ++ line) ++ given cs) k
              (calls dumps text_value cs (write_row dumps text_value text fields w).1))
          (omega arith) rest)
  calls-Holds start before n (flush_now ∷ cs) w h =
      calls-Holds start before n cs (flush w) (flush-Holds start before n w h)

  flush-Bounded : (w : Writer) → (flush w).buffer_bytes < max (flush w).limit 1
  flush-Bounded w = omega (arith, flush_bytes w)

  write_row-Bounded :
      (text : String) (fields : Option (Dict String V)) (w : Writer)
      → (write_row dumps text_value text fields w).1.buffer_bytes
        < max (write_row dumps text_value text fields w).1.limit 1
  unfolding write_row flush
  write_row-Bounded text fields w = ground arith

  calls-Bounded :
      (cs : List (Call V)) (w : Writer)
      → w.buffer_bytes < max w.limit 1
      → (calls dumps text_value cs w).buffer_bytes < max (calls dumps text_value cs w).limit 1
  unfolding calls
  calls-Bounded [] w b = b
  calls-Bounded (add_row text fields ∷ cs) w b =
      calls-Bounded cs (write_row dumps text_value text fields w).1
        (write_row-Bounded text fields w)
  calls-Bounded (flush_now ∷ cs) w b = calls-Bounded cs (flush w) (flush-Bounded w)

  flush_limit : (w : Writer) → (flush w).limit ≡ w.limit
  unfolding flush
  flush_limit w = ground arith

  write_row_limit :
      (text : String) (fields : Option (Dict String V)) (w : Writer)
      → (write_row dumps text_value text fields w).1.limit ≡ w.limit
  unfolding write_row flush
  write_row_limit text fields w = ground arith

  calls_limit : (cs : List (Call V)) (w : Writer) → (calls dumps text_value cs w).limit ≡ w.limit
  unfolding calls
  calls_limit [] w = refl
  calls_limit (add_row text fields ∷ cs) w =
      calls_limit cs (write_row dumps text_value text fields w).1 ∙ write_row_limit text fields w
  calls_limit (flush_now ∷ cs) w = calls_limit cs (flush w) ∙ flush_limit w

  opened-Holds :
      (mode : Mode) (existing : String) (limit : ℕ) (cs : List (Call V))
      → Holds
          (open_writer mode existing limit).file
          (given cs)
          (0 + rows cs)
          (calls dumps text_value cs (open_writer mode existing limit))
  opened-Holds mode existing limit cs =
      let w₀ = open_writer mode existing limit in
      subst (λ s. Holds w₀.file s (0 + rows cs) (calls dumps text_value cs w₀))
        (nil-append (given cs))
        (calls-Holds w₀.file "" 0 cs w₀ (open_writer-Holds mode existing limit))

  -- A writer closed after any sequence of rows and flushes leaves in its file what the file held
  -- when it was opened (nothing in mode 'w') and then the line of each row, in order and once; it
  -- returns the number of bytes of these lines and has counted the rows.
  pub close-calls :
      (mode : Mode) (existing : String) (limit : ℕ) (cs : List (Call V))
      → ((close (calls dumps text_value cs (open_writer mode existing limit))).1.file
          ≡ (open_writer mode existing limit).file ++ given cs)
        × ((close (calls dumps text_value cs (open_writer mode existing limit))).0 ≡ len (given cs))
        × ((close (calls dumps text_value cs (open_writer mode existing limit))).1.lines ≡ rows cs)
  unfolding close
  close-calls mode existing limit cs =
      let w₀ = open_writer mode existing limit in
      let w = calls dumps text_value cs w₀ in
      let h = opened-Holds mode existing limit cs in
      let f = flush-Holds w₀.file (given cs) (0 + rows cs) w h in
      (
        sym (append-nil (flush w).file)
            ∙ ap (λ s. (flush w).file ++ s) (sym (flush_empties w h.measured))
            ∙ f.whole,
        f.counted,
        f.numbered ∙ omega arith,
      )

  -- At any time what the file lacks is in the buffer, and the buffer holds fewer bytes than the
  -- limit of the writer (none if the limit is 0).
  pub file-calls :
      (mode : Mode) (existing : String) (limit : ℕ) (cs : List (Call V))
      → ((calls dumps text_value cs (open_writer mode existing limit)).file
            ++ (calls dumps text_value cs (open_writer mode existing limit)).buffer
          ≡ (open_writer mode existing limit).file ++ given cs)
        × (len (calls dumps text_value cs (open_writer mode existing limit)).buffer < max limit 1)
  unfolding open_writer
  file-calls mode existing limit cs =
      let w₀ = open_writer mode existing limit in
      let h = opened-Holds mode existing limit cs in
      let b = calls-Bounded cs w₀ (omega arith) in
      (h.whole, omega (arith, h.measured, b, calls_limit cs w₀))
