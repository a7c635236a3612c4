-- ===== src/Packer/Loop.antt =====
-- The packing and filling loops never go past the row.
use instant_ai_data_workflow.Prelude.{
  ℕ, suc, ◌+◌, ◌-◌, ◌≤◌, ◌<◌, ◌≡◌, refl, ap, true, false, some, List, [], ◌∷◌, ◌++◌, map, arith,
  ltb, leb, length, take, replicate, sum, length-append, length-take, length-replicate, inl, inr,
  Bool-cases,
}
use instant_ai_data_workflow.Packer.{PackingConfig, Label, ignore, Doc, is_empty}
use instant_ai_data_workflow.Packer.Pack.{
  Packing, separator, pack_loop, fill, complete, init, tail, mask,
}

pub length-init : (ts : List ℕ) → length (init ts) ≡ length ts - 1
unfolding init
length-init [] = omega arith
length-init (t ∷ []) = omega arith
length-init (t ∷ u ∷ ts) = omega (arith, length-init (u ∷ ts))

pub length-tail : (ts : List ℕ) → length (tail ts) ≡ length ts - 1
unfolding tail
length-tail [] = omega arith
length-tail (t ∷ ts) = omega arith

pub length-map : {A B : Type 0} (f : A → B) (xs : List A) → length (map f xs) ≡ length xs
length-map f [] = refl
length-map f (x ∷ xs) = ap suc (length-map f xs)

pub length-mask : (ls : List Label) (n : ℕ) → n ≤ length ls → length (mask ls n) ≡ length ls
unfolding mask
length-mask ls n h = omega (
  arith,
  length-append (take (length ls - n) ls) (replicate n ignore),
  length-take (length ls - n) ls,
  length-replicate {0} n ignore,
)

pub is_empty-length : {A : Type 0} (xs : List A) → is_empty xs ≡ false → 0 < length xs
unfolding is_empty
is_empty-length [] e = ground arith
is_empty-length (x ∷ xs) e = omega arith

pub is_empty-length_zero : {A : Type 0} (xs : List A) → is_empty xs ≡ true → length xs ≡ 0
unfolding is_empty
is_empty-length_zero [] e = refl
is_empty-length_zero (x ∷ xs) e = ground arith

pub sum-snoc : (ls : List ℕ) (l : ℕ) → sum (ls ++ l ∷ []) ≡ sum ls + l
sum-snoc [] l = omega arith
sum-snoc (m ∷ ls) l = omega (arith, sum-snoc ls l)

length-append₃ : (xs ys zs : List ℕ) → length (xs ++ ys ++ zs) ≡ length xs + (length zs + length ys)
length-append₃ xs ys zs = omega (arith, length-append (xs ++ ys) zs, length-append xs ys)

module _ (cfg : PackingConfig) (need : ℕ) where
  -- The packing loop never goes past the row, and its segments cover what it has packed.
  pub record Fits (s : Packing) : Type 0 where
    pub within : length s.packed ≤ need
    pub covered : sum s.segments ≡ length s.packed

  pub pack_loop-Fits :
      (queue : List Doc) (packed segments : List ℕ) (documents : ℕ)
      → length packed ≤ need
      → sum segments ≡ length packed
      → Fits (pack_loop cfg need queue packed segments documents)
  unfolding pack_loop
  pack_loop-Fits [] packed segments documents w c = record { within = w; covered = c }
  pack_loop-Fits (doc ∷ queue) packed segments documents w c =
      elim (Bool-cases (ltb (length packed) need)) [
        | inr done ↦ rw (done, pack_loop) (record { within = w; covered = c })
        | inl more ↦ elim (Bool-cases (ltb (need - length packed) (length doc + length sep))) [
          | inl over ↦ elim (Bool-cases (is_empty packed)) [
            | inl first ↦
                rw (more, over, first, pack_loop)
                  (record {
                    within = omega (arith, length-take need doc);
                    covered = omega (
                      arith,
                      sum-snoc segments (length (take need doc)),
                      is_empty-length_zero packed first,
                    );
                  })
            | inr later ↦ rw (more, over, later, pack_loop) (record { within = w; covered = c })
          ]
          | inr fits ↦ elim (Bool-cases (leb cfg.max_segments_per_seq (length segments'))) [
            | inl full ↦
                rw (more, fits, full, pack_loop) (record { within = room fits; covered = cover })
            | inr open_row ↦
                rw (more, fits, open_row, pack_loop)
                  (pack_loop-Fits queue (packed ++ sep ++ doc) segments' (documents + 1) (room fits)
                    cover)
          ]
        ]
      ]
    where
      sep : List ℕ
      sep = separator cfg packed

      segments' : List ℕ
      segments' = segments ++ (length doc + length sep) ∷ []

      room :
          ltb (need - length packed) (length doc + length sep) ≡ false
          → length (packed ++ sep ++ doc) ≤ need
      room e = ground (arith, length-append₃ packed sep doc)

      cover : sum segments' ≡ length (packed ++ sep ++ doc)
      cover =
          omega (arith, sum-snoc segments (length doc + length sep), length-append₃ packed sep doc)

  pub length-fill :
      (queue : List Doc) (packed : List ℕ)
      → length packed ≤ need
      → length (fill need queue packed).1 ≤ need
  unfolding fill
  length-fill [] packed w = w
  length-fill (doc ∷ queue) packed w = ground (
    arith,
    length-fill queue (packed ++ take (need - length packed) doc),
    length-append packed (take (need - length packed) doc),
    length-take (need - length packed) doc,
  )

  -- A completed row has exactly the tokens it needs, some of which are no padding.
  pub complete-length :
      (s : Packing) (queue : List Doc) (tokens : List ℕ) (pad : ℕ)
      → length s.packed ≤ need
      → 0 < need
      → complete cfg need s ≡ (queue, some (tokens, pad))
      → (length tokens ≡ need) × (pad < need)
  unfolding complete
  complete-length s queue tokens pad w pos e = ground (
    arith,
    length-fill s.queue s.packed,
    is_empty-length s.packed,
    length-append s.packed (replicate (need - length s.packed) cfg.pad_token_id),
    length-replicate (need - length s.packed) cfg.pad_token_id,
  )
