-- ===== src/Dedup.antt =====
-- Exact deduplication: src/indw/dedup/exact.py, src/indw/ingest/hash.py and the parts of
-- src/indw/store/io/cache.py that they call.
--
-- A digest is a string. The LRU cache of cachetools and the SQLite table are no code of the
-- repository: they are the records `LruCache` and `Table`, with what their documentation says.
-- `content_hash` is an argument, and so is the clock's reading where a time is stored. A database
-- error is not modelled.
pub mod Known
pub mod Seen
pub mod Answers
pub mod Shards
mod Examples
use instant_ai_data_workflow.Prelude.{
  ℕ, ◌+◌, ◌≡◌, ◌⊎◌, Bool, true, false, Option, none, some, List, [], ◌∷◌, ◌++◌, leb, ◌==◌,
  if◌then◌else◌, length, String, string_eq, nat_eq,
}
use instant_ai_data_workflow.Prelude.Dict.{Dict, get, put}

-- The answer of a lookup: whether the digest is known, and its source.
abbrev pub Answer : Type 0
Answer = Bool × String

-- `cachetools.LRUCache`: reading a key may reorder it; writing a key stores it and may evict others.
pub record LruCache (C : Type 0) : Type 0 where
  pub find : C → String → Option Answer
  pub touch : C → String → C
  pub write : C → String → Answer → C
  pub find-touch : (c : C) (k j : String) → find (touch c k) j ≡ find c j
  pub find-write :
      (c : C) (k : String) (a : Answer) (j : String)
      → (find (write c k a) j ≡ (if k == j then some a else find c j))
        ⊎ (find (write c k a) j ≡ none)

-- The rows (hash, source, first_seen).
abbrev pub Row : Type 0
Row = String × String × String

-- The table `content_hashes`, whose primary key is the hash: `INSERT OR IGNORE` adds a row unless its
-- hash is there.
pub record Table (T : Type 0) : Type 0 where
  pub select_source : T → String → Option String
  pub select_count : T → ℕ
  pub insert_or_ignore : T → Row → T
  pub select-insert :
      (t : T) (k s w j : String)
      → select_source (insert_or_ignore t (k, s, w)) j ≡ elim (select_source t k) [
        | some _ ↦ select_source t j
        | none ↦ if k == j then some s else select_source t j
      ]

-- `BoundedLRU`, without its lock and its count of evictions.
pub record BoundedLru (C : Type 0) : Type 0 where
  pub cache : C
  pub hits : ℕ
  pub misses : ℕ

module _ {C : Type 0} (lru : LruCache C) where
  unfoldable pub lru_get : String → BoundedLru C → Option Answer × BoundedLru C
  lru_get k b = elim (lru.find b.cache k) [
    | some a ↦ (some a, record b { cache = lru.touch b.cache k; hits = b.hits + 1 })
    | none ↦ (none, record b { misses = b.misses + 1 })
  ]

  unfoldable pub lru_set : String → Answer → BoundedLru C → BoundedLru C
  lru_set k a b = record b { cache = lru.write b.cache k a }

pub record IndexStats : Type 0 where
  pub inserted : ℕ
  pub duplicates : ℕ
  pub lookups : ℕ
  pub cache_hits : ℕ

-- `PersistentHashIndex`. The set `_pending_hashes`, which nothing reads, is left out.
pub record HashIndex (C T : Type 0) : Type 0 where
  pub batch_size : ℕ
  pub table : T
  pub pending : List Row
  pub pending_ts : String
  pub pending_by_digest : Dict String String
  pub lookup_cache : BoundedLru C
  pub stats : IndexStats

module _ {C T : Type 0} (lru : LruCache C) (db : Table T) where
  -- `executemany('INSERT OR IGNORE …', pending)`
  unfoldable pub insert_all : List Row → T → T
  insert_all [] t = t
  insert_all (r ∷ rs) t = insert_all rs (db.insert_or_ignore t r)

  unfoldable pub flush : HashIndex C T → HashIndex C T
  unfolding insert_all
  flush i = elim i.pending [
    | [] ↦ i
    | r ∷ rs ↦ record i {
      table = insert_all (r ∷ rs) i.table;
      pending = [];
      pending_ts = "";
      pending_by_digest = [];
    }
  ]

  unfoldable pub select_answer : T → String → Answer
  select_answer t digest = elim (db.select_source t digest) [
    | none ↦ (false, "")
    | some s ↦ (true, s)
  ]

  unfoldable pub lookup_hash : String → HashIndex C T → Answer × HashIndex C T
  unfolding lru_get lru_set select_answer
  lookup_hash digest i =
      let st = record i.stats { lookups = i.stats.lookups + 1 } in
      let hit = record st { cache_hits = st.cache_hits + 1 } in
      let (cached, b) = lru_get lru digest i.lookup_cache in
      let result = select_answer i.table digest in
      elim (get i.pending_by_digest digest) [
        | some s ↦ ((true, s), record i { stats = hit })
        | none ↦ elim cached [
          | some a ↦ (a, record i { lookup_cache = b; stats = hit })
          | none ↦ (result, record i { lookup_cache = lru_set lru digest result b; stats = st })
        ]
      ]

  -- `now` is the clock's reading, used for the first row of a batch.
  unfoldable pub stage_hash : String → String → String → HashIndex C T → HashIndex C T
  unfolding flush lru_set
  stage_hash now digest source i =
      let ts : String = elim i.pending [ [] ↦ now | _ ∷ _ ↦ i.pending_ts ] in
      let rows = i.pending ++ (digest, source, ts) ∷ [] in
      let i' = record i {
        pending = rows;
        pending_ts = ts;
        pending_by_digest = put i.pending_by_digest digest source;
        lookup_cache = lru_set lru digest (true, source) i.lookup_cache;
        stats = record i.stats { inserted = i.stats.inserted + 1 };
      } in
      if leb i.batch_size (length rows) then flush i' else i'

  unfoldable pub count_duplicate : HashIndex C T → HashIndex C T
  count_duplicate i = record i { stats = record i.stats { duplicates = i.stats.duplicates + 1 } }

  -- `is_duplicate` on the digest
  unfoldable pub index_is_duplicate :
      String → String → String → HashIndex C T → Bool × HashIndex C T
  unfolding lookup_hash stage_hash count_duplicate
  index_is_duplicate now digest source i =
      let (answer, i') = lookup_hash digest i in
      if answer.0 then (true, count_duplicate i') else (false, stage_hash now digest source i')

  unfoldable pub register_hash :
      String → String → String → Bool → HashIndex C T → Bool × HashIndex C T
  unfolding lookup_hash stage_hash count_duplicate
  register_hash now digest source assume_new i =
      let (answer, i') = lookup_hash digest i in
      if assume_new
      then (true, stage_hash now digest source i)
      else if answer.0
      then (false, count_duplicate i')
      else (true, stage_hash now digest source i')

  unfoldable pub count : HashIndex C T → ℕ × HashIndex C T
  unfolding flush
  count i = let i' = flush i in (db.select_count i'.table, i')

-- `digest or content_hash(text)`
unfoldable pub digest_or : {Text : Type 0} → (Text → String) → Option String → Text → String
digest_or content_hash none text = content_hash text
digest_or content_hash (some d) text = if d == "" then content_hash text else d
