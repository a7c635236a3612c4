-- ===== src/Dedup/Answers.antt =====
-- The answers of the deduplicator against a specification that has no table, no batch and no cache.
use instant_ai_data_workflow.Prelude.{
  ◌+◌, ◌≡◌, inl, inr, refl, sym, ap, ◌∙◌, subst, Bool, true, ◌||◌, Option, none, some, List, [],
  ◌∷◌, ◌==◌, arith, length, String, string_eq, Option-cases, Bool-cases,
}
use instant_ai_data_workflow.Dedup.{
  LruCache, Table, HashIndex, lookup_hash, stage_hash, register_hash,
}
use instant_ai_data_workflow.Dedup.Known.{
  known, Coherent, known-stage_hash, stage_hash-Coherent, lookup_hash-known, lookup_hash-knows,
  lookup_hash-Coherent,
}
use instant_ai_data_workflow.Dedup.Seen.{
  contains, add, ExactHashDedup, is_duplicate, Arrival, answers,
}

-- The specification: a document is a duplicate if its digest was known from the start, or came before.
unfoldable pub reference : (String → Bool) → List String → List Arrival → List Bool
reference old past [] = []
reference old past (a ∷ as') =
    (old a.digest || contains past a.digest) ∷ reference old (a.digest ∷ past) as'

contains-add :
    (d : String) (ds : List String) (k : String) → contains (add d ds) k ≡ (d == k || contains ds k)
unfolding contains add
contains-add d ds k = elim (Bool-cases (d == k)) [
  | inl same ↦ ground (arith, string_eq.same_key_iff d k)
  | inr other ↦ ground arith
]

module _ {C T : Type 0} (lru : LruCache C) (db : Table T) where
  unfoldable remembers_at : Option (HashIndex C T) → List String → String → Bool
  remembers_at none seen k = contains seen k
  remembers_at (some i) seen k = known lru db i k

  -- The digests that count as seen.
  pub remembers : ExactHashDedup C T → String → Bool
  remembers e = remembers_at e.index e.seen

  unfoldable pub ValidAt : Option (HashIndex C T) → List String → Type 0
  ValidAt none seen = Unit
  ValidAt (some i) seen =
      Coherent lru db i × ((k : String) → contains seen k ≡ true → known lru db i k ≡ true)

  -- The index, if there is one, is coherent and knows every digest of the set.
  unfoldable pub Valid : ExactHashDedup C T → Type 0
  unfolding ValidAt
  Valid e = ValidAt e.index e.seen

  Valid-index :
      (e : ExactHashDedup C T) (i : HashIndex C T)
      → e.index ≡ some i
      → Valid e
      → ValidAt (some i) e.seen
  unfolding Valid
  Valid-index e i q v = subst (λ x. ValidAt x e.seen) q v

  pub is_duplicate-answer :
      (now d s : String) (e : ExactHashDedup C T)
      → Valid e
      → (is_duplicate lru db now d s e).0 ≡ remembers e d
  unfolding is_duplicate ValidAt remembers remembers_at
  is_duplicate-answer now d s e v = elim (Option-cases e.index) [
    | inl absent ↦ ground arith
    | inr (i, present) ↦
        let (c, covers) = Valid-index e i present v in
        ground (arith, lookup_hash-known lru db d i c, covers d)
  ]

  -- Behind a request, its digest counts as seen, and no other digest has changed.
  pub is_duplicate-remembers :
      (now d s : String) (e : ExactHashDedup C T) (k : String)
      → Valid e
      → remembers (is_duplicate lru db now d s e).1 k ≡ (d == k || remembers e k)
  unfolding is_duplicate ValidAt remembers remembers_at register_hash
  is_duplicate-remembers now d s e k v = elim (Option-cases e.index) [
    | inl absent ↦ ground (arith, contains-add d e.seen k, string_eq.same_key_iff d k)
    | inr (i, present) ↦
        let (c, covers) = Valid-index e i present v in
        let i₁ = (lookup_hash lru db d i).1 in
        ground (
          arith,
          lookup_hash-known lru db d i c,
          lookup_hash-knows lru db d i k,
          known-stage_hash lru db now d s i₁ k,
          string_eq.same_key_iff d k,
          covers d,
        )
  ]

  Valid-from :
      (e : ExactHashDedup C T) (index : Option (HashIndex C T)) (seen : List String)
      → e.index ≡ index
      → e.seen ≡ seen
      → ValidAt index seen
      → Valid e
  unfolding Valid
  Valid-from e index seen p q v = rw (p, q) v

  covers_more :
      (known' : String → Bool) (d : String) (seen : List String)
      → ((k : String) → contains seen k ≡ true → known' k ≡ true)
      → known' d ≡ true
      → (k : String) → contains (add d seen) k ≡ true
      → known' k ≡ true
  covers_more known' d seen old new k h = elim (Bool-cases (d == k)) [
    | inl same ↦ ap known' (sym ((string_eq.same_key_iff d k).0 same)) ∙ new
    | inr other ↦ old k (ground (arith, contains-add d seen k))
  ]

  pub is_duplicate-Valid :
      (now d s : String) (e : ExactHashDedup C T)
      → Valid e
      → Valid (is_duplicate lru db now d s e).1
  unfolding is_duplicate Valid ValidAt register_hash
  is_duplicate-Valid now d s e v = elim (Bool-cases (contains e.seen d)) [
    | inl old ↦ rw (old, is_duplicate) v
    | inr new ↦ elim (Option-cases e.index) [
      | inl absent ↦
          Valid-from (is_duplicate lru db now d s e).1 none (add d e.seen) (ground arith)
            (ground arith) tt
      | inr (i, present) ↦
          let (c, covers) = Valid-index e i present v in
          let i₁ = (lookup_hash lru db d i).1 in
          let i₂ = stage_hash lru db now d s i₁ in
          let c₁ = lookup_hash-Coherent lru db d i c in
          elim (Bool-cases (lookup_hash lru db d i).0.0) [
            | inl found ↦
                Valid-from (is_duplicate lru db now d s e).1 (some i₁) (add d e.seen) (ground arith)
                  (ground arith)
                  (
                    c₁,
                    covers_more (known lru db i₁) d e.seen
                        (λ k h. lookup_hash-knows lru db d i k ∙ covers k h)
                        (lookup_hash-knows lru db d i d
                          ∙ sym (lookup_hash-known lru db d i c)
                          ∙ found),
                  )
            | inr fresh ↦
                Valid-from (is_duplicate lru db now d s e).1 (some i₂) (add d e.seen) (ground arith)
                  (ground arith)
                  (
                    stage_hash-Coherent lru db now d s i₁ c₁,
                    covers_more (known lru db i₂) d e.seen
                        (λ k h. ground (
                          arith,
                          known-stage_hash lru db now d s i₁ k,
                          lookup_hash-knows lru db d i k,
                          covers k h,
                        ))
                        (ground (
                          arith,
                          known-stage_hash lru db now d s i₁ d,
                          string_eq.same_key_iff d d,
                        )),
                  )
          ]
    ]
  ]

  is_duplicate-counted :
      (now d s : String) (e : ExactHashDedup C T)
      → (is_duplicate lru db now d s e).1.duplicates + (is_duplicate lru db now d s e).1.kept
        ≡ e.duplicates + e.kept + 1
  unfolding is_duplicate
  is_duplicate-counted now d s e = elim (Option-cases e.index) [
    | inl absent ↦ ground arith
    | inr (i, present) ↦ ground arith
  ]

  answers-from :
      (as' : List Arrival) (e : ExactHashDedup C T) (old : String → Bool) (past : List String)
      → Valid e
      → ((k : String) → remembers e k ≡ (old k || contains past k))
      → (answers lru db as' e).0 ≡ reference old past as'
  unfolding answers reference contains
  answers-from [] e old past v h = refl
  answers-from (a ∷ as') e old past v h =
      let e₁ = (is_duplicate lru db a.now a.digest a.source e).1 in
      let first = is_duplicate-answer a.now a.digest a.source e v ∙ h a.digest in
      let rest =
        answers-from as' e₁ old (a.digest ∷ past) (is_duplicate-Valid a.now a.digest a.source e v)
          (λ k. is_duplicate-remembers a.now a.digest a.source e k v ∙ ground (arith, h k)) in
      rw (first, rest) refl

  -- From a valid state, with an index or without, the answers to any stream of documents are those of
  -- the specification: whatever the batch size, whenever the pending rows are written, and whatever
  -- the cache evicts, a document is a duplicate exactly if its digest was remembered at the start or
  -- came before in the stream.
  pub answers-reference :
      (as' : List Arrival) (e : ExactHashDedup C T)
      → Valid e
      → (answers lru db as' e).0 ≡ reference (remembers e) [] as'
  unfolding contains
  answers-reference as' e v = answers-from as' e (remembers e) [] v (λ k. ground arith)

  -- Each document of a stream is counted once, as a duplicate or as kept.
  pub answers-counted :
      (as' : List Arrival) (e : ExactHashDedup C T)
      → (answers lru db as' e).1.duplicates + (answers lru db as' e).1.kept
        ≡ e.duplicates + e.kept + length as'
  unfolding answers
  answers-counted [] e = omega arith
  answers-counted (a ∷ as') e =
      let e₁ = (is_duplicate lru db a.now a.digest a.source e).1 in
      omega (arith, answers-counted as' e₁, is_duplicate-counted a.now a.digest a.source e)
