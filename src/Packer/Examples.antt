-- ===== src/Packer/Examples.antt =====
-- Documents of three sizes, packed into rows of four tokens.
use instant_ai_data_workflow.Prelude.{
  ◌≤◌, ◌≡◌, refl, Bool, true, false, none, some, List, [], ◌∷◌, ◌++◌, arith, length, take,
  get_elem?, sum, max, nat_eq,
}
use mathlib.Core.Option
use instant_ai_data_workflow.Packer.{
  PackingConfig, token, ignore, PackRow, Doc, Packer, record_stats,
}
use instant_ai_data_workflow.Packer.Pack.{init, make_row, pack_one, pack_many}
use instant_ai_data_workflow.Packer.Rows.{pack_one-length}
use instant_ai_data_workflow.Packer.Labels.{pack_one-labels}
use instant_ai_data_workflow.Packer.Segments.{NonEmpty, pack_one-segments}
use instant_ai_data_workflow.Packer.Filling.{pack_one_drops}

abbrev config : Bool → PackingConfig
config padded = record {
  delimiter_token = none;
  pad_token_id = 0;
  min_document_tokens = 1;
  max_segments_per_seq = 8;
  allow_padding_tail = padded;
}

abbrev packer : Bool → List Doc → Packer
packer padded docs = record {
  seq_len = 4;
  cfg = config padded;
  doc_queue = docs;
  stats = record { seqs = 0; docs = 0; used = 0; slots = 0; pad = 0; segs = 0 };
  carry = none;
}

abbrev short : Packer
short = packer true ((1 ∷ 2 ∷ []) ∷ (3 ∷ []) ∷ [])

program : Unit {0}
unfolding pack_one pack_many init make_row record_stats
program = tt

abbrev short_row : PackRow
short_row = record {
  input_ids = 1 ∷ 2 ∷ 3 ∷ 0 ∷ [];
  labels = token 2 ∷ token 3 ∷ ignore ∷ ignore ∷ [];
  segment_lengths = 2 ∷ 2 ∷ [];
  padding_count = 2;
  documents_packed = 2;
}

abbrev short_after : Packer
short_after = record short {
  doc_queue = [];
  stats = record { seqs = 1; docs = 2; used = 2; slots = 4; pad = 2; segs = 2 };
}

packed : pack_one short ≡ (some short_row, short_after)
unfolding program
packed = refl

pack_one-length_example :
    (length short_row.input_ids ≡ 4) × (length short_row.labels ≡ 4) × (short_row.padding_count ≤ 4)
pack_one-length_example = pack_one-length short short_after short_row packed

pack_one-labels_example :
    get_elem? short_row.labels 0 ≡ Option.map token (get_elem? short_row.input_ids 1)
pack_one-labels_example =
    pack_one-labels short short_after short_row packed 0 (omega arith) (omega arith)

short-NonEmpty : NonEmpty short.doc_queue
short-NonEmpty = (omega arith, (omega arith, tt))

pack_one-segments_example :
    (sum short_row.segment_lengths ≡ 4)
    × (length short_row.segment_lengths ≤ max 1 2)
    × (2 ≤ max 1 8)
pack_one-segments_example = pack_one-segments short short_after short_row short-NonEmpty packed

abbrev long : Packer
long = packer false ((1 ∷ 2 ∷ 3 ∷ []) ∷ (4 ∷ 5 ∷ 6 ∷ 7 ∷ []) ∷ (8 ∷ []) ∷ [])

pack_one_drops_example :
    ((pack_one long).1.doc_queue ≡ (8 ∷ []) ∷ [])
    × ((r : PackRow) × ((pack_one long).0 ≡ some r)
        × (r.input_ids ≡ init (take 5 ((1 ∷ 2 ∷ 3 ∷ []) ++ take 2 (4 ∷ 5 ∷ 6 ∷ 7 ∷ []))))
        × (r.documents_packed ≡ 1))
pack_one_drops_example =
    pack_one_drops long (1 ∷ 2 ∷ 3 ∷ []) (4 ∷ 5 ∷ 6 ∷ 7 ∷ []) ((8 ∷ []) ∷ []) refl refl
      (omega arith) (omega arith) (omega arith)
