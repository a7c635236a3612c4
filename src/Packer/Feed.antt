-- ===== src/Packer/Feed.antt =====
-- `feed_tokens` of src/indw/store/export/packing/binpack.py: a token stream is cut into documents.
use instant_ai_data_workflow.Prelude.{
  ℕ, Option, none, some, List, [], ◌∷◌, ◌++◌, ltb, leb, ◌==◌, if◌then◌else◌, length, nat_eq,
}
use instant_ai_data_workflow.Packer.{Doc, Packer, is_empty}

-- The loop over `np.where(arr == delim)`: the documents that a delimiter ends and that are long
-- enough, and what follows the last delimiter. `piece` is what has been read since the last one.
unfoldable pub split_documents : ℕ → ℕ → Doc → Doc → List Doc × Doc
split_documents delim min_doc piece [] = ([], piece)
split_documents delim min_doc piece (t ∷ ts) =
    let cut = split_documents delim min_doc [] ts in
    let grown = split_documents delim min_doc (piece ++ t ∷ []) ts in
    if t == delim
    then ((if leb min_doc (length piece) then piece ∷ cut.0 else cut.0), cut.1)
    else grown

-- `if self._carry is not None and len(self._carry)`: the carry is used up if it is not empty.
unfoldable pub join_carry : Option Doc → Doc → Doc × Option Doc
join_carry none arr = (arr, none)
join_carry (some []) arr = (arr, some [])
join_carry (some (t ∷ ts)) arr = ((t ∷ ts) ++ arr, none)

unfoldable pub feed_tokens : Doc → Packer → Packer
unfolding split_documents is_empty join_carry
feed_tokens tokens p =
    let (arr, carry) = join_carry p.carry tokens in
    let min_doc = p.cfg.min_document_tokens in
    if ltb (length arr) min_doc then record p { carry = some arr } else elim p.cfg.delimiter_token [
      | none ↦ record p { doc_queue = p.doc_queue ++ arr ∷ []; carry = carry }
      | some delim ↦
          let (docs, tail) = split_documents delim min_doc [] arr in
          if is_empty tail
          then record p { doc_queue = p.doc_queue ++ docs; carry = carry }
          else if leb min_doc (length tail)
          then record p { doc_queue = p.doc_queue ++ docs ++ tail ∷ []; carry = carry }
          else record p { doc_queue = p.doc_queue ++ docs; carry = some tail }
    ]
