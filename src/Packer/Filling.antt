-- ===== src/Packer/Filling.antt =====
-- What a row that may not be padded does with the document that no longer fits.
use instant_ai_data_workflow.Prelude.{
  ℕ, ◌+◌, ◌-◌, ◌≤◌, ◌<◌, ◌≡◌, refl, ap, ◌∙◌, false, some, List, [], ◌∷◌, ◌++◌, arith, length, take,
  length-append, length-take,
}
use instant_ai_data_workflow.Packer.{PackingConfig, PackRow, Doc, Packer}
use instant_ai_data_workflow.Packer.Pack.{
  Packing, pack_loop, separator, fill, complete, make_row, pack_one, init,
}

-- The packing loop over two documents, the second of which does not fit behind the first and a
-- delimiter.
two_documents :
    (cfg : PackingConfig) (need : ℕ) (first next : Doc) (queue : List Doc)
    → 0 < length first
    → length first < need
    → need < length first + length (separator cfg first) + length next
    → pack_loop cfg need (first ∷ next ∷ queue) [] [] 0 ≡ record {
      queue = next ∷ queue;
      packed = first;
      segments = (length first + 0) ∷ [];
      documents = 0 + 1;
    }
unfolding pack_loop
two_documents cfg need [] next queue pos room over = absurd (omega arith)
two_documents cfg need (t ∷ ts) next queue pos room over =
    let far : need - length (t ∷ ts) < length next + length (separator cfg (t ∷ ts)) =
      omega (arith, over, room) in
    ground (arith, far)

separator-le : (cfg : PackingConfig) (packed : List ℕ) → length (separator cfg packed) ≤ 1
unfolding separator
separator-le cfg [] = omega arith
separator-le cfg (t ∷ ts) = ground arith

fill_full :
    (need : ℕ) (queue : List Doc) (packed : List ℕ)
    → need ≤ length packed
    → fill need queue packed ≡ (queue, packed)
unfolding fill
fill_full need [] packed full = refl
fill_full need (doc ∷ queue) packed full = ground arith

fill_one :
    (need : ℕ) (next : Doc) (queue : List Doc) (packed : List ℕ)
    → length packed < need
    → need ≤ length packed + length next
    → fill need (next ∷ queue) packed ≡ (queue, packed ++ take (need - length packed) next)
unfolding fill
fill_one need next queue packed room over =
    let l : length (packed ++ take (need - length packed) next) ≡ need = omega (
      arith,
      length-append packed (take (need - length packed) next),
      length-take (need - length packed) next,
    ) in
    rw (fill_full need queue (packed ++ take (need - length packed) next) (omega arith))
      (ground arith)

two_documents-complete :
    (cfg : PackingConfig) (need : ℕ) (first next : Doc) (queue : List Doc)
    → cfg.allow_padding_tail ≡ false
    → 0 < length first
    → length first < need
    → need ≤ length first + length next
    → complete cfg need (record {
      queue = next ∷ queue;
      packed = first;
      segments = (length first + 0) ∷ [];
      documents = 0 + 1;
    })
      ≡ (queue, some (first ++ take (need - length first) next, 0))
unfolding complete
two_documents-complete cfg need [] next queue unpadded pos room over = absurd (omega arith)
two_documents-complete cfg need (t ∷ ts) next queue unpadded pos room over =
    let first = t ∷ ts in
    let l : length (first ++ take (need - length first) next) ≡ need = omega (
      arith,
      length-append first (take (need - length first) next),
      length-take (need - length first) next,
    ) in
    rw (fill_one need next queue first (omega arith) (omega arith)) (ground arith)

pack_one-of_complete :
    (p : Packer) (s : Packing) (queue : List Doc) (tokens : List ℕ) (pad : ℕ)
    → pack_loop p.cfg (p.seq_len + 1) p.doc_queue [] [] 0 ≡ s
    → complete p.cfg (p.seq_len + 1) s ≡ (queue, some (tokens, pad))
    → ((pack_one p).1.doc_queue ≡ queue)
      × ((pack_one p).0 ≡ some (make_row (take (p.seq_len + 1) tokens) s.segments pad s.documents))
unfolding pack_one
pack_one-of_complete p s queue tokens pad looped done =
    let all : complete p.cfg (p.seq_len + 1) (pack_loop p.cfg (p.seq_len + 1) p.doc_queue [] [] 0)
        ≡ (queue, some (tokens, pad)) =
      rw looped done in
    (ground arith, ground arith)

module _ (p : Packer) (first next : Doc) (queue : List Doc) where
  -- Where a document does not fit behind the first one, with the delimiter between them if there is
  -- one, and the row may not be padded, the row is filled with the front of that document, without a
  -- delimiter, and the packer forgets what the document has beyond the row: the queue goes on with the
  -- document behind. The first document is not empty and shorter than the row.
  pub pack_one_drops :
      p.doc_queue ≡ first ∷ next ∷ queue
      → p.cfg.allow_padding_tail ≡ false
      → 0 < length first
      → length first < p.seq_len + 1
      → p.seq_len + 1 < length first + length (separator p.cfg first) + length next
      → ((pack_one p).1.doc_queue ≡ queue)
        × ((r : PackRow) × ((pack_one p).0 ≡ some r)
            × (r.input_ids
                ≡ init (take (p.seq_len + 1) (first ++ take (p.seq_len + 1 - length first) next)))
            × (r.documents_packed ≡ 1))
  unfolding make_row
  pack_one_drops queued unpadded pos room over =
      let need = p.seq_len + 1 in
      let filled = first ++ take (need - length first) next in
      let looped =
        ap (λ q. pack_loop p.cfg need q [] [] 0) queued
        ∙ two_documents p.cfg need first next queue pos room over in
      let reaches : need ≤ length first + length next =
        omega (arith, over, separator-le p.cfg first) in
      let done = two_documents-complete p.cfg need first next queue unpadded pos room reaches in
      let (left, made) = pack_one-of_complete p _ queue filled 0 looped done in
      (left, (_, made, refl, omega arith))
