-- ===== src/Dedup/Seen.antt =====
-- `ExactHashDedup` of src/indw/ingest/hash.py.
use instant_ai_data_workflow.Prelude.{
  ℕ, ◌+◌, Bool, true, false, ◌||◌, Option, none, some, List, [], ◌∷◌, ◌==◌, if◌then◌else◌, String,
  string_eq, nat_eq,
}
use instant_ai_data_workflow.Dedup.{LruCache, Table, HashIndex, lookup_hash, register_hash}

-- A set of digests.
unfoldable pub contains : List String → String → Bool
contains [] k = false
contains (d ∷ ds) k = d == k || contains ds k

unfoldable pub add : String → List String → List String
add k ds = if contains ds k then ds else k ∷ ds

pub record ExactHashDedup (C T : Type 0) : Type 0 where
  pub index : Option (HashIndex C T)
  pub seen : List String
  pub duplicates : ℕ
  pub kept : ℕ
  pub skipped_trained : ℕ

unfoldable pub is_trained : String → Bool
is_trained s = s == "trained" || s == "exported"

-- A document that comes to the deduplicator: the clock, its digest and its source.
pub record Arrival : Type 0 where
  pub now : String
  pub digest : String
  pub source : String

module _ {C T : Type 0} (lru : LruCache C) (db : Table T) where
  -- `is_duplicate` on the digest. `now` is the clock's reading.
  unfoldable pub is_duplicate :
      String → String → String → ExactHashDedup C T → Bool × ExactHashDedup C T
  unfolding contains add is_trained register_hash
  is_duplicate now digest source e =
      let fresh = record e { seen = add digest e.seen; kept = e.kept + 1 } in
      if contains e.seen digest
      then (true, record e { duplicates = e.duplicates + 1 })
      else elim e.index [
        | none ↦ (false, fresh)
        | some i ↦
            let ((found, hash_source), i₁) = lookup_hash lru db digest i in
            let (_, i₂) = register_hash lru db now digest source true i₁ in
            if found
            then (
              true,
              record e {
                index = some i₁;
                seen = add digest e.seen;
                duplicates = e.duplicates + 1;
                skipped_trained =
                    if is_trained hash_source then e.skipped_trained + 1 else e.skipped_trained;
              },
            )
            else (false, record fresh { index = some i₂ })
      ]

  -- `seed_text` on the digest
  unfoldable pub seed_text : String → String → String → ExactHashDedup C T → ExactHashDedup C T
  unfolding add register_hash
  seed_text now digest source e = elim e.index [
    | none ↦ record e { seen = add digest e.seen }
    | some i ↦ record e { index = some (register_hash lru db now digest source false i).1 }
  ]

  -- `has_text` on the digest
  unfoldable pub has_text : String → ExactHashDedup C T → Bool × ExactHashDedup C T
  unfolding contains
  has_text digest e = elim e.index [
    | none ↦ (contains e.seen digest, e)
    | some i ↦
        let (answer, i₁) = lookup_hash lru db digest i in (answer.0, record e { index = some i₁ })
  ]

  unfoldable pub seed_text_if_missing :
      String → String → String → ExactHashDedup C T → Bool × ExactHashDedup C T
  unfolding has_text seed_text
  seed_text_if_missing now digest source e =
      let (present, e₁) = has_text digest e in
      if present then (false, e₁) else (true, seed_text now digest source e₁)

  -- The answers to a stream of documents.
  unfoldable pub answers : List Arrival → ExactHashDedup C T → List Bool × ExactHashDedup C T
  unfolding is_duplicate
  answers [] e = ([], e)
  answers (a ∷ as') e =
      let (dup, e₁) = is_duplicate a.now a.digest a.source e in
      let (rest, e₂) = answers as' e₁ in (dup ∷ rest, e₂)
