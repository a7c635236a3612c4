-- ===== src/Dedup/Shards.antt =====
-- `ShardedExactDedup` of src/indw/dedup/service/exact_shard.py: `is_duplicate` over several shards.
--
-- `prefix_value` is `int(digest[:2], 16)`, of digests that start with two hexadecimal digits, as those
-- of `content_hash` do. The statistics are sums over the shards, and left out.
use instant_ai_data_workflow.Prelude.{
  ℕ, ◌%◌, ◌≡◌, inl, inr, refl, sym, ap, ◌∙◌, Bool, true, false, ◌||◌, List, [], ◌∷◌, leb, ◌==◌,
  arith, if◌then◌else◌, String, string_eq, nat_eq, Bool-cases,
}
use instant_ai_data_workflow.Dedup.{LruCache, Table}
use instant_ai_data_workflow.Dedup.Seen.{contains, ExactHashDedup, is_duplicate, Arrival}
use instant_ai_data_workflow.Dedup.Answers.{
  Valid, remembers, reference, is_duplicate-answer, is_duplicate-remembers, is_duplicate-Valid,
}

-- The shards, by their number.
pub record Sharded (C T : Type 0) : Type 0 where
  pub shards : ℕ
  pub dedup_at : ℕ → ExactHashDedup C T

unfoldable pub shard_idx : (String → ℕ) → ℕ → String → ℕ
shard_idx prefix_value shards digest = if leb shards 1 then 0 else prefix_value digest % shards

if_both : {A : Type 0} (P : A → Type 0) (b : Bool) (x y : A) → P x → P y → P (if b then x else y)
if_both P true x y p q = p
if_both P false x y p q = q

module _ {C T : Type 0} (lru : LruCache C) (db : Table T) (prefix_value : String → ℕ) where
  -- `is_duplicate`: one shard is asked, and changed.
  unfoldable pub sharded_is_duplicate : String → String → String → Sharded C T → Bool × Sharded C T
  unfolding shard_idx is_duplicate
  sharded_is_duplicate now digest source s =
      let i = shard_idx prefix_value s.shards digest in
      let (dup, e) = is_duplicate lru db now digest source (s.dedup_at i) in
      (dup, record s { dedup_at = λ j. if j == i then e else s.dedup_at j })

  unfoldable pub sharded_answers : List Arrival → Sharded C T → List Bool × Sharded C T
  unfolding sharded_is_duplicate
  sharded_answers [] s = ([], s)
  sharded_answers (a ∷ as') s =
      let (dup, s₁) = sharded_is_duplicate a.now a.digest a.source s in
      let (rest, s₂) = sharded_answers as' s₁ in (dup ∷ rest, s₂)

  -- The shard of a digest counts it as seen.
  pub sharded_remembers : Sharded C T → String → Bool
  sharded_remembers s k = remembers lru db (s.dedup_at (shard_idx prefix_value s.shards k)) k

  -- Digests of different shards are different.
  other_digest :
      (d k : String) (shards : ℕ)
      → (shard_idx prefix_value shards k == shard_idx prefix_value shards d) ≡ false
      → (d == k) ≡ false
  other_digest d k shards other = elim (Bool-cases (d == k)) [
    | inl same ↦
        let eq = (string_eq.same_key_iff d k).0 same in
        let i = ap (λ x. shard_idx prefix_value shards x) eq in
        absurd (
          ground (
            arith,
            nat_eq.same_key_iff (shard_idx prefix_value shards k) (shard_idx prefix_value shards d),
          ))
    | inr differ ↦ differ
  ]

  step_Valid :
      (a : Arrival) (s : Sharded C T)
      → ((j : ℕ) → Valid lru db (s.dedup_at j))
      → (j : ℕ) → Valid lru db ((sharded_is_duplicate a.now a.digest a.source s).1.dedup_at j)
  unfolding sharded_is_duplicate
  step_Valid a s v j =
      let i = shard_idx prefix_value s.shards a.digest in
      if_both (Valid lru db) (j == i) _ _
        (is_duplicate-Valid lru db a.now a.digest a.source (s.dedup_at i) (v i)) (v j)

  step_remembers :
      (a : Arrival) (s : Sharded C T)
      → ((j : ℕ) → Valid lru db (s.dedup_at j))
      → (k : String)
      → sharded_remembers (sharded_is_duplicate a.now a.digest a.source s).1 k
        ≡ (a.digest == k || sharded_remembers s k)
  unfolding sharded_is_duplicate sharded_remembers
  step_remembers a s v k =
      let i = shard_idx prefix_value s.shards a.digest in
      let j = shard_idx prefix_value s.shards k in
      let e = (is_duplicate lru db a.now a.digest a.source (s.dedup_at i)).1 in
      elim (Bool-cases (j == i)) [
        | inl same ↦
            ap (λ b. remembers lru db (if b then e else s.dedup_at j) k) same
            ∙ is_duplicate-remembers lru db a.now a.digest a.source (s.dedup_at i) k (v i)
            ∙ ap (λ x. a.digest == k || remembers lru db (s.dedup_at x) k)
                (sym ((nat_eq.same_key_iff j i).0 same))
        | inr other ↦
            ap (λ b. remembers lru db (if b then e else s.dedup_at j) k) other
            ∙ ap (λ b. b || remembers lru db (s.dedup_at j) k)
                (sym (other_digest a.digest k s.shards other))
      ]

  sharded-from :
      (as' : List Arrival) (s : Sharded C T) (old : String → Bool) (past : List String)
      → ((j : ℕ) → Valid lru db (s.dedup_at j))
      → ((k : String) → sharded_remembers s k ≡ (old k || contains past k))
      → (sharded_answers as' s).0 ≡ reference old past as'
  unfolding sharded_answers sharded_is_duplicate sharded_remembers reference contains
  sharded-from [] s old past v h = refl
  sharded-from (a ∷ as') s old past v h =
      let i = shard_idx prefix_value s.shards a.digest in
      let s₁ = (sharded_is_duplicate a.now a.digest a.source s).1 in
      let first =
        is_duplicate-answer lru db a.now a.digest a.source (s.dedup_at i) (v i) ∙ h a.digest in
      let rest =
        sharded-from as' s₁ old (a.digest ∷ past) (step_Valid a s v)
          (λ k. step_remembers a s v k ∙ ground (arith, h k)) in
      rw (first, rest) refl

  -- From valid shards, the answers to any stream of documents are those of one deduplicator without
  -- shards: a document is a duplicate exactly if its digest was remembered at the start by its shard, or
  -- came before in the stream.
  pub sharded_answers-reference :
      (as' : List Arrival) (s : Sharded C T)
      → ((j : ℕ) → Valid lru db (s.dedup_at j))
      → (sharded_answers as' s).0 ≡ reference (sharded_remembers s) [] as'
  unfolding contains
  sharded_answers-reference as' s v =
      sharded-from as' s (sharded_remembers s) [] v (λ k. ground arith)
