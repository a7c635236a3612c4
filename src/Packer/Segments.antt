-- ===== src/Packer/Segments.antt =====
-- The segment lengths of a row.
use instant_ai_data_workflow.Prelude.{
  ℕ, suc, ◌+◌, ◌-◌, ◌≤◌, ◌<◌, ◌≡◌, refl, ap, ◌∙◌, true, some, List, [], ◌∷◌, ◌++◌, arith, ltb, leb,
  length, take, sum, max, length-append, length-take, inl, inr, Bool-cases, All,
}
use instant_ai_data_workflow.Packer.{PackingConfig, PackRow, Doc, Packer, is_empty}
use instant_ai_data_workflow.Packer.Pack.{
  Packing, separator, pack_loop, adjust_last, positive, normalize_segment_lengths, make_row,
  pack_one, init,
}
use instant_ai_data_workflow.Packer.Loop.{
  pack_loop-Fits, complete-length, length-init, is_empty-length_zero,
}
use instant_ai_data_workflow.Packer.Rows.{packing, pack_one-eq_some}

abbrev pub NonEmpty : List Doc → Type 0
NonEmpty = All (λ d. 0 < length d)

abbrev Positive : List ℕ → Type 0
Positive = All (λ n. 0 < n)

Positive-snoc : (ls : List ℕ) (l : ℕ) → Positive ls → 0 < l → Positive (ls ++ l ∷ [])
Positive-snoc [] l h p = (p, tt)
Positive-snoc (m ∷ ls) l h p = (h.0, Positive-snoc ls l h.1 p)

length-snoc : (ls : List ℕ) (l : ℕ) → length (ls ++ l ∷ []) ≡ length ls + 1
length-snoc ls l = length-append ls (l ∷ [])

sum-positive : (ls : List ℕ) → sum (positive ls) ≡ sum ls
unfolding positive
sum-positive [] = refl
sum-positive (l ∷ ls) = ground (arith, sum-positive ls)

length-positive : (ls : List ℕ) → length (positive ls) ≤ length ls
unfolding positive
length-positive [] = omega arith
length-positive (l ∷ ls) = ground (arith, length-positive ls)

length-adjust_last : (ls : List ℕ) (total s : ℕ) → length (adjust_last ls total s) ≡ length ls
unfolding adjust_last
length-adjust_last [] total s = refl
length-adjust_last (l ∷ []) total s = refl
length-adjust_last (l ∷ m ∷ ls) total s = ap suc (length-adjust_last (m ∷ ls) total s)

-- With positive lengths that go at most one past the total, the corrected lengths add up to it.
sum-adjust_last :
    (l : ℕ) (ls : List ℕ) (before total : ℕ)
    → Positive (l ∷ ls)
    → before + sum (l ∷ ls) ≤ total + 1
    → before + sum (adjust_last (l ∷ ls) total (before + sum (l ∷ ls))) ≡ total
unfolding adjust_last
sum-adjust_last l [] before total p h = omega (arith, p.0)
sum-adjust_last l (m ∷ ls) before total p h =
    let e : before + sum (l ∷ m ∷ ls) ≡ (before + l) + sum (m ∷ ls) = omega arith in
    rw e (omega (arith, sum-adjust_last m ls (before + l) total p.1 (omega arith)))

sum-normalize :
    (ls : List ℕ) (total : ℕ)
    → Positive ls
    → sum ls ≤ total + 1
    → sum (normalize_segment_lengths ls total) ≡ total
unfolding normalize_segment_lengths
sum-normalize [] total p h = omega arith
sum-normalize (l ∷ ls) total p h =
    let z : 0 + sum (l ∷ ls) ≡ sum (l ∷ ls) = omega arith in
    let q = sum-adjust_last l ls 0 total p (omega arith) in
    sum-positive (adjust_last (l ∷ ls) total (sum (l ∷ ls))) ∙ ground (arith, rw z at q)

length-normalize :
    (ls : List ℕ) (total : ℕ) → length (normalize_segment_lengths ls total) ≤ max 1 (length ls)
unfolding normalize_segment_lengths
length-normalize [] total = omega arith
length-normalize (l ∷ ls) total = omega (
  arith,
  length-positive (adjust_last (l ∷ ls) total (sum (l ∷ ls))),
  length-adjust_last (l ∷ ls) total (sum (l ∷ ls)),
)

-- The packing loop on nonempty documents: one positive segment to a document, and not too many.
record Tidy (cfg : PackingConfig) (s : Packing) : Type 0 where
  pub positive_lengths : Positive s.segments
  pub one_each : length s.segments ≡ s.documents
  pub bounded : length s.segments ≤ max 1 cfg.max_segments_per_seq

pack_loop-Tidy :
    (cfg : PackingConfig) (need : ℕ) (queue : List Doc) (packed segments : List ℕ) (documents : ℕ)
    → 0 < need
    → NonEmpty queue
    → Positive segments
    → length segments ≡ documents
    → length segments < max 1 cfg.max_segments_per_seq
    → (is_empty packed ≡ true → documents ≡ 0)
    → Tidy cfg (pack_loop cfg need queue packed segments documents)
unfolding pack_loop
pack_loop-Tidy cfg need [] packed segments documents pos ne p n b z = record {
  positive_lengths = p;
  one_each = n;
  bounded = omega arith;
}
pack_loop-Tidy cfg need (doc ∷ queue) packed segments documents pos ne p n b z =
    elim (Bool-cases (ltb (length packed) need)) [
      | inr done ↦ rw (done, pack_loop) same
      | inl more ↦ elim (Bool-cases (ltb (need - length packed) (length doc + length sep))) [
        | inl over ↦ elim (Bool-cases (is_empty packed)) [
          | inl first ↦
              rw (more, over, first, pack_loop)
                (record {
                  positive_lengths =
                      Positive-snoc segments (length (take need doc)) p
                        (omega (arith, ne.0, length-take need doc));
                  one_each = omega (arith, z first, length-snoc segments (length (take need doc)));
                  bounded = omega (arith, length-snoc segments (length (take need doc)));
                })
          | inr later ↦ rw (more, over, later, pack_loop) same
        ]
        | inr fits ↦ elim (Bool-cases (leb cfg.max_segments_per_seq (length segments'))) [
          | inl full ↦
              rw (more, fits, full, pack_loop)
                (record {
                  positive_lengths = longer;
                  one_each = omega (arith, count);
                  bounded = omega (arith, count);
                })
          | inr open_row ↦
              rw (more, fits, open_row, pack_loop)
                (pack_loop-Tidy cfg need queue (packed ++ sep ++ doc) segments' (documents + 1) pos
                  ne.1 longer (omega (arith, count)) (ground (arith, count)) not_empty)
        ]
      ]
    ]
  where
    sep : List ℕ
    sep = separator cfg packed

    segments' : List ℕ
    segments' = segments ++ (length doc + length sep) ∷ []

    same : Tidy cfg (record {
      queue = doc ∷ queue;
      packed = packed;
      segments = segments;
      documents = documents;
    })
    same = record { positive_lengths = p; one_each = n; bounded = omega arith }

    count : length segments' ≡ length segments + 1
    count = length-snoc segments (length doc + length sep)

    longer : Positive segments'
    longer = Positive-snoc segments (length doc + length sep) p (omega (arith, ne.0))

    not_empty : is_empty (packed ++ sep ++ doc) ≡ true → documents + 1 ≡ 0
    not_empty e = absurd (
        omega (
          arith,
          is_empty-length_zero (packed ++ sep ++ doc) e,
          ne.0,
          length-append (packed ++ sep) doc,
        ))

-- Of nonempty documents, the segment lengths of a row add up to its length, and there are no more of
-- them than documents packed, which are at most `max_segments_per_seq` (at least one is allowed).
pub pack_one-segments :
    (p p' : Packer) (row : PackRow)
    → NonEmpty p.doc_queue
    → pack_one p ≡ (some row, p')
    → (sum row.segment_lengths ≡ p.seq_len)
      × (length row.segment_lengths ≤ max 1 row.documents_packed)
      × (row.documents_packed ≤ max 1 p.cfg.max_segments_per_seq)
unfolding make_row
pack_one-segments p p' row ne e =
    let (queue, tokens, pad, done, same, _) = pack_one-eq_some p p' row e in
    let need = p.seq_len + 1 in
    let fits = pack_loop-Fits p.cfg need p.doc_queue [] [] 0 (omega arith) refl in
    let tidy =
      pack_loop-Tidy p.cfg need p.doc_queue [] [] 0 (omega arith) ne tt refl (omega arith)
        (λ _. refl) in
    let (len, _) =
      complete-length p.cfg need (packing p) queue tokens pad fits.within (omega arith) done in
    let total : length (init (take need tokens)) ≡ p.seq_len =
      omega (arith, length-init (take need tokens), length-take need tokens) in
    rw (same, total)
      (
        sum-normalize (packing p).segments p.seq_len tidy.positive_lengths
            (omega (arith, fits.within, fits.covered)),
        omega (arith, length-normalize (packing p).segments p.seq_len, tidy.one_each),
        omega (arith, tidy.bounded, tidy.one_each),
      )
