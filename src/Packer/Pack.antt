-- ===== src/Packer/Pack.antt =====
-- `pack_one` and `pack_many` of src/indw/store/export/packing/binpack.py: documents are packed into rows.
use instant_ai_data_workflow.Prelude.{
  ℕ, zero, suc, ◌+◌, ◌-◌, Option, none, some, List, [], ◌∷◌, ◌++◌, map, ltb, leb, if◌then◌else◌,
  length, take, drop, replicate, sum, nat_eq,
}
use instant_ai_data_workflow.Packer.{
  PackingConfig, Label, token, ignore, PackRow, record_stats, Doc, Packer, is_empty,
}

-- The local variables of `pack_one` and the queue, at the end of the packing loop.
pub record Packing : Type 0 where
  pub queue : List Doc
  pub packed : List ℕ
  pub segments : List ℕ
  pub documents : ℕ

unfoldable pub separator : PackingConfig → List ℕ → List ℕ
separator cfg [] = []
separator cfg (t ∷ ts) = elim cfg.delimiter_token [ none ↦ [] | some d ↦ d ∷ [] ]

-- The `while len(packed_tokens) < need` loop: each round takes one document from the queue.
unfoldable pub pack_loop : PackingConfig → ℕ → List Doc → List ℕ → List ℕ → ℕ → Packing
unfolding separator is_empty
pack_loop cfg need [] packed segments documents = record {
  queue = [];
  packed = packed;
  segments = segments;
  documents = documents;
}
pack_loop cfg need (doc ∷ queue) packed segments documents =
    let sep = separator cfg packed in
    let packed' = packed ++ sep ++ doc in
    let segments' = segments ++ (length doc + length sep) ∷ [] in
    let full : Packing = record {
      queue = doc ∷ queue;
      packed = packed;
      segments = segments;
      documents = documents;
    } in
    let rest = pack_loop cfg need queue packed' segments' (documents + 1) in
    if ltb (length packed) need
    then (if ltb (need - length packed) (length doc + length sep)
        then (if is_empty packed
            then record {
              queue = if is_empty (drop need doc) then queue else drop need doc ∷ queue;
              packed = take need doc;
              segments = segments ++ length (take need doc) ∷ [];
              documents = 1;
            }
            else full)
        else if leb cfg.max_segments_per_seq (length segments')
        then record {
          queue = queue;
          packed = packed';
          segments = segments';
          documents = documents + 1;
        }
        else rest)
    else full

-- The filling loop of a row that may not be padded. What a document has beyond the row is dropped.
unfoldable pub fill : ℕ → List Doc → List ℕ → List Doc × List ℕ
fill need [] packed = ([], packed)
fill need (doc ∷ queue) packed =
    let rest = fill need queue (packed ++ take (need - length packed) doc) in
    if ltb (length packed) need then rest else (doc ∷ queue, packed)

-- `lengths[-1] += total - s`
unfoldable pub adjust_last : List ℕ → ℕ → ℕ → List ℕ
adjust_last [] total s = []
adjust_last (l ∷ []) total s = (l + total - s) ∷ []
adjust_last (l ∷ m ∷ ls) total s = l ∷ adjust_last (m ∷ ls) total s

unfoldable pub positive : List ℕ → List ℕ
positive [] = []
positive (l ∷ ls) = let rest = positive ls in if ltb 0 l then l ∷ rest else rest

unfoldable pub normalize_segment_lengths : List ℕ → ℕ → List ℕ
unfolding adjust_last positive
normalize_segment_lengths [] total = total ∷ []
normalize_segment_lengths (l ∷ ls) total = positive (adjust_last (l ∷ ls) total (sum (l ∷ ls)))

-- `packed_tokens[:-1]`
unfoldable pub init : List ℕ → List ℕ
init [] = []
init (t ∷ []) = []
init (t ∷ u ∷ ts) = t ∷ init (u ∷ ts)

-- `packed_tokens[1:]`
unfoldable pub tail : List ℕ → List ℕ
tail [] = []
tail (t ∷ ts) = ts

-- `labels[-(i + 1)] = _IGNORE_LABEL` for `i` below `padding_count`: all but the first
-- `len(labels) - padding_count` labels.
unfoldable pub mask : List Label → ℕ → List Label
mask labels padding_count =
    take (length labels - padding_count) labels ++ replicate padding_count ignore

-- The row of `need` tokens.
unfoldable pub make_row : List ℕ → List ℕ → ℕ → ℕ → PackRow
unfolding init tail mask normalize_segment_lengths
make_row tokens segments padding_count documents = record {
  input_ids = init tokens;
  labels =
      if ltb 0 padding_count
      then mask (map token (tail tokens)) padding_count
      else map token (tail tokens);
  segment_lengths = normalize_segment_lengths segments (length (init tokens));
  padding_count = padding_count;
  documents_packed = documents;
}

-- What follows the packing loop: the tokens with the padding, the padding count and the queue, or
-- None with the queue.
unfoldable pub complete : PackingConfig → ℕ → Packing → List Doc × Option (List ℕ × ℕ)
unfolding is_empty fill
complete cfg need s =
    let filled = fill need s.queue s.packed in
    let pad = need - length s.packed in
    if ltb (length s.packed) need
    then (if is_empty s.packed
        then (s.queue, none)
        else if cfg.allow_padding_tail
        then (s.queue, some (s.packed ++ replicate pad cfg.pad_token_id, pad))
        else if ltb 0 (need - length filled.1)
        then (filled.0, none)
        else (filled.0, some (filled.1, 0)))
    else (s.queue, some (s.packed, 0))

unfoldable pub pack_one : Packer → Option PackRow × Packer
unfolding pack_loop complete make_row record_stats
pack_one p =
    let need = p.seq_len + 1 in
    let s = pack_loop p.cfg need p.doc_queue [] [] 0 in
    let (queue, done) = complete p.cfg need s in
    elim done [
      | none ↦ (none, record p { doc_queue = queue })
      | some (tokens, pad) ↦
          let row = make_row (take need tokens) s.segments pad s.documents in
          (some row, record p { doc_queue = queue; stats = record_stats p.stats row p.seq_len })
    ]

-- `pack_many(count)`, run to its end.
unfoldable pub pack_many : ℕ → Packer → List PackRow × Packer
pack_many zero p = ([], p)
pack_many (suc count) p =
    let (row, p') = pack_one p in
    let rest = pack_many count p' in elim row [ none ↦ ([], p') | some r ↦ (r ∷ rest.0, rest.1) ]
