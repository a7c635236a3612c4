-- ===== src/Packer/Labels.antt =====
-- The labels of a row are its inputs shifted by one, and padding is masked.
use mathlib.Core.Option
use instant_ai_data_workflow.Prelude.{
  ℕ, zero, suc, ◌+◌, ◌-◌, ◌≤◌, ◌<◌, ◌≡◌, refl, sym, ap, ◌∙◌, some, List, [], ◌∷◌, map, arith, ltb,
  length, take, replicate, get_elem?, get_elem?-take, get_elem?-append_left, get_elem?-append_right,
  get_elem?-replicate, length-take, inl, inr, Bool-cases,
}
use instant_ai_data_workflow.Packer.{Label, token, ignore, PackRow, Packer}
use instant_ai_data_workflow.Packer.Pack.{init, tail, mask, make_row, pack_one}
use instant_ai_data_workflow.Packer.Loop.{pack_loop-Fits, complete-length, length-tail, length-map}
use instant_ai_data_workflow.Packer.Rows.{packing, pack_one-eq_some}

get_elem?-init : (ts : List ℕ) (i : ℕ) → i + 1 < length ts → get_elem? (init ts) i ≡ get_elem? ts i
unfolding init
get_elem?-init [] i lt = absurd (omega arith)
get_elem?-init (t ∷ []) i lt = absurd (omega arith)
get_elem?-init (t ∷ u ∷ ts) zero lt = refl
get_elem?-init (t ∷ u ∷ ts) (suc i) lt = get_elem?-init (u ∷ ts) i (omega arith)

get_elem?-tail : (ts : List ℕ) (i : ℕ) → get_elem? (tail ts) i ≡ get_elem? ts (suc i)
unfolding tail
get_elem?-tail [] i = refl
get_elem?-tail (t ∷ ts) i = refl

get_elem?-map :
    {A B : Type 0} (f : A → B) (xs : List A) (i : ℕ)
    → get_elem? (map f xs) i ≡ Option.map f (get_elem? xs i)
get_elem?-map f [] i = refl
get_elem?-map f (x ∷ xs) zero = refl
get_elem?-map f (x ∷ xs) (suc i) = get_elem?-map f xs i

get_elem?-mask_before :
    (ls : List Label) (n i : ℕ) → i < length ls - n → get_elem? (mask ls n) i ≡ get_elem? ls i
unfolding mask
get_elem?-mask_before ls n i lt =
    get_elem?-append_left (take (length ls - n) ls) (replicate n ignore) i
      (omega (arith, length-take (length ls - n) ls))
    ∙ get_elem?-take (length ls - n) i ls lt

get_elem?-mask_behind :
    (ls : List Label) (n i : ℕ)
    → n ≤ length ls
    → length ls - n ≤ i
    → i < length ls
    → get_elem? (mask ls n) i ≡ some ignore
unfolding mask
get_elem?-mask_behind ls n i h le lt =
    get_elem?-append_right (take (length ls - n) ls) (replicate n ignore) i
      (omega (arith, length-take (length ls - n) ls))
    ∙ get_elem?-replicate n _ ignore (omega (arith, length-take (length ls - n) ls))

shifted :
    (tokens : List ℕ) (i : ℕ)
    → i + 2 < length tokens
    → get_elem? (map token (tail tokens)) i ≡ Option.map token (get_elem? (init tokens) (i + 1))
shifted tokens i lt =
    get_elem?-map token (tail tokens) i
    ∙ ap (Option.map token) (
        get_elem?-tail tokens i
        ∙ ap (get_elem? tokens) (omega arith)
        ∙ sym (get_elem?-init tokens (i + 1) (omega arith)))

length-shifted : (tokens : List ℕ) → length (map token (tail tokens)) ≡ length tokens - 1
length-shifted tokens = length-map token (tail tokens) ∙ length-tail tokens

make_row-labels :
    (n : ℕ) (tokens segments : List ℕ) (pad documents i : ℕ)
    → length tokens ≡ n + 1
    → i + pad < n
    → i + 1 < n
    → get_elem? (make_row tokens segments pad documents).labels i
      ≡ Option.map token (get_elem? (make_row tokens segments pad documents).input_ids (i + 1))
unfolding make_row
make_row-labels n tokens segments pad documents i e h lt = elim (Bool-cases (ltb 0 pad)) [
  | inl padded ↦
      rw (padded, make_row)
        (get_elem?-mask_before (map token (tail tokens)) pad i
            (omega (arith, length-shifted tokens))
          ∙ shifted tokens i (omega arith))
  | inr bare ↦ rw (bare, make_row) (shifted tokens i (omega arith))
]

make_row-ignored :
    (n : ℕ) (tokens segments : List ℕ) (pad documents i : ℕ)
    → length tokens ≡ n + 1
    → pad ≤ n
    → n ≤ i + pad
    → i < n
    → get_elem? (make_row tokens segments pad documents).labels i ≡ some ignore
unfolding make_row
make_row-ignored n tokens segments pad documents i e h le lt = elim (Bool-cases (ltb 0 pad)) [
  | inl padded ↦
      rw (padded, make_row)
        (get_elem?-mask_behind (map token (tail tokens)) pad i
          (omega (arith, length-shifted tokens)) (omega (arith, length-shifted tokens))
          (omega (arith, length-shifted tokens)))
  | inr bare ↦ absurd (ground arith)
]

module _ (p p' : Packer) (row : PackRow) (e : pack_one p ≡ (some row, p')) where
  row_tokens :
      (tokens : List ℕ) × (pad : ℕ) × (row
        ≡ make_row (take (p.seq_len + 1) tokens) (packing p).segments pad (packing p).documents)
      × (length (take (p.seq_len + 1) tokens) ≡ p.seq_len + 1)
      × (pad ≤ p.seq_len)
  row_tokens =
      let (queue, tokens, pad, done, same, _) = pack_one-eq_some p p' row e in
      let fits = pack_loop-Fits p.cfg (p.seq_len + 1) p.doc_queue [] [] 0 (omega arith) refl in
      let (len, less) =
        complete-length p.cfg (p.seq_len + 1) (packing p) queue tokens pad fits.within (omega arith)
          done in
      (tokens, pad, same, omega (arith, length-take (p.seq_len + 1) tokens), omega arith)

  -- In front of the padding, the label at each place is the input at the next one.
  pub pack_one-labels :
      (i : ℕ)
      → i + row.padding_count < p.seq_len
      → i + 1 < p.seq_len
      → get_elem? row.labels i ≡ Option.map token (get_elem? row.input_ids (i + 1))
  unfolding make_row
  pack_one-labels i h lt =
      let (tokens, pad, same, len, _) = row_tokens in
      let pad_eq : row.padding_count ≡ pad = ap (λ (r : PackRow). r.padding_count) same in
      rw same (
        make_row-labels p.seq_len (take (p.seq_len + 1) tokens) (packing p).segments pad
          (packing p).documents i len (omega arith) lt)

  -- The last `padding_count` labels, whose target is padding, are masked.
  pub pack_one-ignored :
      (i : ℕ)
      → 0 < row.padding_count
      → p.seq_len ≤ i + row.padding_count
      → i < p.seq_len
      → get_elem? row.labels i ≡ some ignore
  unfolding make_row
  pack_one-ignored i pos le lt =
      let (tokens, pad, same, len, bound) = row_tokens in
      let pad_eq : row.padding_count ≡ pad = ap (λ (r : PackRow). r.padding_count) same in
      rw same (
        make_row-ignored p.seq_len (take (p.seq_len + 1) tokens) (packing p).segments pad
          (packing p).documents i len bound (omega arith) lt)
