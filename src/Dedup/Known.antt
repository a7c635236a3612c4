-- ===== src/Dedup/Known.antt =====
-- The digests that an index knows, whether in the table, the pending rows or the cache.
use instant_ai_data_workflow.Prelude.{
  ◌+◌, ◌≡◌, ◌⊎◌, inl, inr, refl, sym, ap, ◌∙◌, Bool, true, false, ◌||◌, none, some, List, [], ◌∷◌,
  ◌++◌, leb, ◌==◌, arith, if◌then◌else◌, length, String, string_eq, Option-cases, Bool-cases,
}
use instant_ai_data_workflow.Prelude.Dict.{get, has, put, has-put, has-of_get, has-of_get-none}
use instant_ai_data_workflow.Dedup.{
  Answer, LruCache, Row, Table, lru_get, lru_set, HashIndex, insert_all, flush, select_answer,
  lookup_hash, stage_hash,
}

List-cases : {A : Type 0} (xs : List A) → (xs ≡ []) ⊎ ((x : A) × (rest : List A) × (xs ≡ x ∷ rest))
List-cases [] = inl refl
List-cases (x ∷ xs) = inr (x, xs, refl)

-- A row with this digest is among the rows.
unfoldable pub staged : List Row → String → Bool
staged [] k = false
staged ((d, s, w) ∷ rs) k = d == k || staged rs k

staged-append :
    (rs : List Row) (d s w k : String) → staged (rs ++ (d, s, w) ∷ []) k ≡ (staged rs k || d == k)
unfolding staged
staged-append [] d s w k = ground arith
staged-append ((e, t, v) ∷ rs) d s w k = ground (arith, staged-append rs d s w k)

module _ {C T : Type 0} (lru : LruCache C) (db : Table T) where
  unfoldable stored : T → String → Bool
  stored t k = elim (db.select_source t k) [ none ↦ false | some _ ↦ true ]

  stored-insert :
      (t : T) (d s w k : String)
      → stored (db.insert_or_ignore t (d, s, w)) k ≡ (stored t k || d == k)
  unfolding stored
  stored-insert t d s w k = elim (Bool-cases (d == k)) [
    | inl same ↦ ground (arith, db.select-insert t d s w k, string_eq.same_key_iff d k)
    | inr other ↦ ground (arith, db.select-insert t d s w k)
  ]

  stored-insert_all :
      (rs : List Row) (t : T) (k : String)
      → stored (insert_all lru db rs t) k ≡ (stored t k || staged rs k)
  unfolding insert_all staged
  stored-insert_all [] t k = ground arith
  stored-insert_all ((d, s, w) ∷ rs) t k =
      ground
        (arith, stored-insert_all rs (db.insert_or_ignore t (d, s, w)) k, stored-insert t d s w k)

  -- The digest is in the table or in a row to come.
  unfoldable pub known : HashIndex C T → String → Bool
  unfolding stored staged
  known i k = stored i.table k || staged i.pending k

  -- The dict and the list of pending rows hold the same digests, and the cache is right about each
  -- digest that it holds.
  pub record Coherent (i : HashIndex C T) : Type 0 where
    pub listed : (k : String) → has i.pending_by_digest k ≡ staged i.pending k
    pub cached :
        (k : String) (a : Answer) → lru.find i.lookup_cache.cache k ≡ some a → a.0 ≡ known i k

  flush-pending : (i : HashIndex C T) → (flush lru db i).pending ≡ []
  unfolding flush
  flush-pending i = elim (List-cases i.pending) [
    | inl nothing ↦ ground arith
    | inr (r, rs, more) ↦ ground arith
  ]

  flush-cache : (i : HashIndex C T) → (flush lru db i).lookup_cache ≡ i.lookup_cache
  unfolding flush
  flush-cache i = elim (List-cases i.pending) [
    | inl nothing ↦ ground arith
    | inr (r, rs, more) ↦ ground arith
  ]

  flush-digests :
      (i : HashIndex C T) (k : String)
      → has i.pending_by_digest k ≡ staged i.pending k
      → has (flush lru db i).pending_by_digest k ≡ false
  unfolding flush staged has
  flush-digests i k listed = elim (List-cases i.pending) [
    | inl nothing ↦ ground arith
    | inr (r, rs, more) ↦ ground arith
  ]

  known-flush : (i : HashIndex C T) (k : String) → known (flush lru db i) k ≡ known i k
  unfolding flush known staged
  known-flush i k = elim (List-cases i.pending) [
    | inl nothing ↦ ground arith
    | inr (r, rs, more) ↦ ground (arith, stored-insert_all (r ∷ rs) i.table k)
  ]

  flush-Coherent : (i : HashIndex C T) → Coherent i → Coherent (flush lru db i)
  unfolding staged
  flush-Coherent i c = record {
    listed = λ k. rw (flush-pending i) (flush-digests i k (c.listed k));
    cached = λ k a e. c.cached k a (rw (sym (flush-cache i)) e) ∙ sym (known-flush i k);
  }

  -- The index with one more row, before `stage_hash` flushes it or not.
  grown : String → String → String → HashIndex C T → HashIndex C T
  unfolding lru_set
  grown now d s i =
      let ts : String = elim i.pending [ [] ↦ now | _ ∷ _ ↦ i.pending_ts ] in
      record i {
        pending = i.pending ++ (d, s, ts) ∷ [];
        pending_ts = ts;
        pending_by_digest = put i.pending_by_digest d s;
        lookup_cache = lru_set lru d (true, s) i.lookup_cache;
        stats = record i.stats { inserted = i.stats.inserted + 1 };
      }

  stage_hash-grown :
      (now d s : String) (i : HashIndex C T)
      → (stage_hash lru db now d s i ≡ grown now d s i)
        ⊎ (stage_hash lru db now d s i ≡ flush lru db (grown now d s i))
  unfolding stage_hash grown
  stage_hash-grown now d s i =
      elim (Bool-cases (leb i.batch_size (length (grown now d s i).pending))) [
        | inl full ↦ inr (ground arith)
        | inr room ↦ inl (ground arith)
      ]

  known-grown :
      (now d s : String) (i : HashIndex C T) (k : String)
      → known (grown now d s i) k ≡ (if d == k then true else known i k)
  unfolding known grown
  known-grown now d s i k =
      let ts : String = elim i.pending [ [] ↦ now | _ ∷ _ ↦ i.pending_ts ] in
      ground (arith, staged-append i.pending d s ts k)

  -- A key found after a write is the key written, or was found before.
  write-found :
      (c : C) (k : String) (a : Answer) (j : String) (b : Answer)
      → lru.find (lru.write c k a) j ≡ some b
      → ((k == j) ≡ true) × (b ≡ a) ⊎ ((k == j) ≡ false) × (lru.find c j ≡ some b)
  write-found c k a j b e = elim (Bool-cases (k == j)) [
    | inl same ↦ elim (lru.find-write c k a j) [
      | inl w ↦ inl (same, ground arith)
      | inr w ↦ absurd (ground arith)
    ]
    | inr other ↦ elim (lru.find-write c k a j) [
      | inl w ↦ inr (other, ground arith)
      | inr w ↦ absurd (ground arith)
    ]
  ]

  grown-Coherent : (now d s : String) (i : HashIndex C T) → Coherent i → Coherent (grown now d s i)
  unfolding grown
  grown-Coherent now d s i c = record {
    listed = λ k.
        let ts : String = elim i.pending [ [] ↦ now | _ ∷ _ ↦ i.pending_ts ] in
        ground
          (arith, staged-append i.pending d s ts k, has-put i.pending_by_digest d s k, c.listed k);
    cached = λ k a e. elim (write-found i.lookup_cache.cache d (true, s) k a e) [
      | inl (same, b) ↦ ground (arith, known-grown now d s i k)
      | inr (other, old) ↦ ground (arith, known-grown now d s i k, c.cached k a old)
    ];
  }

  pub known-stage_hash :
      (now d s : String) (i : HashIndex C T) (k : String)
      → known (stage_hash lru db now d s i) k ≡ (if d == k then true else known i k)
  known-stage_hash now d s i k = elim (stage_hash-grown now d s i) [
    | inl room ↦ rw room (known-grown now d s i k)
    | inr full ↦ rw full (known-flush (grown now d s i) k ∙ known-grown now d s i k)
  ]

  pub stage_hash-Coherent :
      (now d s : String) (i : HashIndex C T) → Coherent i → Coherent (stage_hash lru db now d s i)
  stage_hash-Coherent now d s i c = elim (stage_hash-grown now d s i) [
    | inl room ↦ rw room (grown-Coherent now d s i c)
    | inr full ↦ rw full (flush-Coherent (grown now d s i) (grown-Coherent now d s i c))
  ]

  -- On a coherent index, a lookup finds a digest exactly if it is in the table or in a row that is still
  -- to be written, whether the answer comes from the rows, the cache or the table.
  pub lookup_hash-known :
      (d : String) (i : HashIndex C T) → Coherent i → (lookup_hash lru db d i).0.0 ≡ known i d
  unfolding lookup_hash known select_answer stored lru_get
  lookup_hash-known d i c = elim (Option-cases (get i.pending_by_digest d)) [
    | inl absent ↦ elim (Option-cases (lru.find i.lookup_cache.cache d)) [
      | inl miss ↦ ground (arith, c.listed d, has-of_get-none i.pending_by_digest d absent)
      | inr (a, hit) ↦ rw (absent, hit, lookup_hash, lru_get) (c.cached d a hit)
    ]
    | inr (s, found) ↦ ground (arith, c.listed d, has-of_get i.pending_by_digest d s found)
  ]

  -- A lookup changes the cache and the counters only.
  lookup_hash-kept :
      (d : String) (i : HashIndex C T)
      → ((lookup_hash lru db d i).1.table ≡ i.table)
        × ((lookup_hash lru db d i).1.pending ≡ i.pending)
        × ((lookup_hash lru db d i).1.pending_by_digest ≡ i.pending_by_digest)
  unfolding lookup_hash
  lookup_hash-kept d i = elim (Option-cases (get i.pending_by_digest d)) [
    | inl absent ↦ elim (Option-cases (lru.find i.lookup_cache.cache d)) [
      | inl miss ↦ (ground arith, ground arith, ground arith)
      | inr (a, hit) ↦ (ground arith, ground arith, ground arith)
    ]
    | inr (s, found) ↦ (ground arith, ground arith, ground arith)
  ]

  pub lookup_hash-knows :
      (d : String) (i : HashIndex C T) (k : String) → known (lookup_hash lru db d i).1 k ≡ known i k
  unfolding known
  lookup_hash-knows d i k = let (t, p, _) = lookup_hash-kept d i in rw (t, p) refl

  select_answer-known :
      (d : String) (i : HashIndex C T)
      → Coherent i
      → get i.pending_by_digest d ≡ none
      → (select_answer lru db i.table d).0 ≡ known i d
  unfolding known select_answer stored
  select_answer-known d i c absent =
      ground (arith, c.listed d, has-of_get-none i.pending_by_digest d absent)

  lookup_hash-found :
      (d : String) (i : HashIndex C T) (k : String) (a : Answer)
      → Coherent i
      → lru.find (lookup_hash lru db d i).1.lookup_cache.cache k ≡ some a
      → a.0 ≡ known i k
  unfolding lookup_hash lru_get lru_set
  lookup_hash-found d i k a c e = elim (Option-cases (get i.pending_by_digest d)) [
    | inl absent ↦ elim (Option-cases (lru.find i.lookup_cache.cache d)) [
      | inl miss ↦
          elim (write-found i.lookup_cache.cache d (select_answer lru db i.table d) k a
            (ground arith)) [
              | inl (same, b) ↦
                  ap (λ (x : Answer). x.0) b
                  ∙ select_answer-known d i c absent
                  ∙ ap (λ x. known i x) ((string_eq.same_key_iff d k).0 same)
              | inr (other, old) ↦ c.cached k a old
            ]
      | inr (b, hit) ↦ c.cached k a (ground (arith, lru.find-touch i.lookup_cache.cache d k))
    ]
    | inr (s, found) ↦ c.cached k a (ground arith)
  ]

  pub lookup_hash-Coherent :
      (d : String) (i : HashIndex C T) → Coherent i → Coherent (lookup_hash lru db d i).1
  lookup_hash-Coherent d i c =
      let (t, p, q) = lookup_hash-kept d i in
      record {
        listed = λ k. rw (p, q) (c.listed k);
        cached = λ k a e. lookup_hash-found d i k a c e ∙ sym (lookup_hash-knows d i k);
      }
