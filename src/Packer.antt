-- ===== src/Packer.antt =====
-- src/indw/store/export/packing/binpack.py and the fields of config.py beside it: documents are packed
-- into training rows of `seq_len` tokens.
--
-- Tokens are natural numbers; a label is a token or `_IGNORE_LABEL`. A number that the source may
-- take below 0 is the last segment length only, which it then filters out, as it does 0.
pub mod Feed
pub mod Pack
pub mod Loop
pub mod Rows
pub mod Labels
pub mod Segments
pub mod Balance
pub mod Filling
mod Examples
use instant_ai_data_workflow.Prelude.{
  ℕ, zero, suc, ◌+◌, ◌-◌, Bool, true, false, Option, none, some, List, [], ◌∷◌, ◌++◌, map, ltb, leb,
  ◌==◌, if◌then◌else◌, length, take, drop, replicate, sum, nat_eq,
}

pub record PackingConfig : Type 0 where
  pub delimiter_token : Option ℕ
  pub pad_token_id : ℕ
  pub min_document_tokens : ℕ
  pub max_segments_per_seq : ℕ
  pub allow_padding_tail : Bool

pub data Label : Type 0 where
  token : ℕ → Label
  ignore : Label

pub record PackRow : Type 0 where
  pub input_ids : List ℕ
  pub labels : List Label
  pub segment_lengths : List ℕ
  pub padding_count : ℕ
  pub documents_packed : ℕ

unfoldable pub pack_used : PackRow → ℕ
pack_used p = length p.input_ids - p.padding_count

pub record PackStats : Type 0 where
  pub seqs : ℕ
  pub docs : ℕ
  pub used : ℕ
  pub slots : ℕ
  pub pad : ℕ
  pub segs : ℕ

unfoldable pub record_stats : PackStats → PackRow → ℕ → PackStats
unfolding pack_used
record_stats s packed seq_len = record {
  seqs = s.seqs + 1;
  docs = s.docs + packed.documents_packed;
  used = s.used + pack_used packed;
  slots = s.slots + seq_len;
  pad = s.pad + packed.padding_count;
  segs = s.segs + length packed.segment_lengths;
}

unfoldable pub record_stride_window : PackStats → ℕ → PackStats
record_stride_window s seq_len = record s {
  seqs = s.seqs + 1;
  docs = s.docs + 1;
  used = s.used + seq_len;
  slots = s.slots + seq_len;
  segs = s.segs + 1;
}

-- A document is its list of tokens.
abbrev pub Doc : Type 0
Doc = List ℕ

pub record Packer : Type 0 where
  pub seq_len : ℕ
  pub cfg : PackingConfig
  pub doc_queue : List Doc
  pub stats : PackStats
  pub carry : Option Doc

unfoldable pub is_empty {ℓ} : {A : Type ℓ} → List A → Bool
is_empty [] = true
is_empty (x ∷ xs) = false

-- The constructor: `multi_sample` mode wants a delimiter, else ValueError.
unfoldable pub make_packer : Bool → ℕ → PackingConfig → Option Packer
make_packer multi_sample seq_len cfg =
    let fresh : Packer = record {
      seq_len = seq_len;
      cfg = cfg;
      doc_queue = [];
      stats = record { seqs = 0; docs = 0; used = 0; slots = 0; pad = 0; segs = 0 };
      carry = none;
    } in
    if multi_sample
    then elim cfg.delimiter_token [ none ↦ none | some _ ↦ some fresh ]
    else some fresh
