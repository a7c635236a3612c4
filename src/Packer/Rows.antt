-- ===== src/Packer/Rows.antt =====
-- The shape of a packed row: its length, and its labels as the inputs shifted by one.
use instant_ai_data_workflow.Prelude.{
  ℕ, zero, suc, ◌+◌, ◌≤◌, ◌≡◌, refl, ap, none, some, List, [], ◌∷◌, map, arith, length, take,
  length-take, inl, inr, Option-cases,
}
use instant_ai_data_workflow.Packer.{token, PackRow, record_stats, Doc, Packer}
use instant_ai_data_workflow.Packer.Pack.{Packing, pack_loop, complete, tail, make_row, pack_one}
use instant_ai_data_workflow.Packer.Loop.{
  pack_loop-Fits, complete-length, length-init, length-tail, length-map, length-mask,
}

-- The packing loop of `pack_one`, from its start.
abbrev pub packing : Packer → Packing
packing p = pack_loop p.cfg (p.seq_len + 1) p.doc_queue [] [] 0

-- What stands behind a row that `pack_one` returned.
pub pack_one-eq_some :
    (p p' : Packer) (row : PackRow)
    → pack_one p ≡ (some row, p')
    → (queue : List Doc) × (tokens : List ℕ) × (pad : ℕ) × (complete p.cfg
          (p.seq_len + 1)
          (packing p)
        ≡ (queue, some (tokens, pad)))
      × (row
          ≡ make_row (take (p.seq_len + 1) tokens) (packing p).segments pad (packing p).documents)
      × (p' ≡ record p { doc_queue = queue; stats = record_stats p.stats row p.seq_len })
unfolding pack_one
pack_one-eq_some p p' row e = elim (Option-cases (complete p.cfg (p.seq_len + 1) (packing p)).1) [
  | inl absent ↦ absurd (none_case absent)
  | inr ((tokens, pad), found) ↦
      let made =
        make_row (take (p.seq_len + 1) tokens) (packing p).segments pad (packing p).documents in
      let same : row ≡ made = ground arith in
      (
        (complete p.cfg (p.seq_len + 1) (packing p)).0,
        tokens,
        pad,
        ground arith,
        same,
        ground arith,
      )
]
  where
    none_case : (complete p.cfg (p.seq_len + 1) (packing p)).1 ≡ none → ⊥
    none_case absent = ground arith

take-length : (n : ℕ) (ts : List ℕ) → length ts ≡ n → take n ts ≡ ts
take-length zero [] e = refl
take-length zero (t ∷ ts) e = absurd (omega arith)
take-length (suc n) [] e = refl
take-length (suc n) (t ∷ ts) e = ap (λ us. t ∷ us) (take-length n ts (omega arith))

length-make_row :
    (n : ℕ) (tokens segments : List ℕ) (pad documents : ℕ)
    → length tokens ≡ n + 1
    → pad ≤ n
    → (length (make_row tokens segments pad documents).input_ids ≡ n)
      × (length (make_row tokens segments pad documents).labels ≡ n)
unfolding make_row
length-make_row n tokens segments pad documents e h = ground (
  arith,
  length-init tokens,
  length-tail tokens,
  length-map token (tail tokens),
  length-mask (map token (tail tokens)) pad,
)

-- Every row that `pack_one` returns has `seq_len` inputs and as many labels; at most `seq_len` of
-- its places are padding.
pub pack_one-length :
    (p p' : Packer) (row : PackRow)
    → pack_one p ≡ (some row, p')
    → (length row.input_ids ≡ p.seq_len)
      × (length row.labels ≡ p.seq_len)
      × (row.padding_count ≤ p.seq_len)
unfolding make_row
pack_one-length p p' row e =
    let (queue, tokens, pad, done, same, _) = pack_one-eq_some p p' row e in
    let fits = pack_loop-Fits p.cfg (p.seq_len + 1) p.doc_queue [] [] 0 (omega arith) refl in
    let (len, less) =
      complete-length p.cfg (p.seq_len + 1) (packing p) queue tokens pad fits.within (omega arith)
        done in
    let (inputs, outputs) =
      length-make_row p.seq_len (take (p.seq_len + 1) tokens) (packing p).segments pad
        (packing p).documents (omega (arith, length-take (p.seq_len + 1) tokens)) (omega arith) in
    rw same (inputs, outputs, omega arith)
