-- ===== src/Lanes/Bisect.antt =====
-- The binary search of `_insert_sorted` finds the place behind all payloads that are not later.
use instant_ai_data_workflow.Prelude.{
  ℕ, zero, suc, ◌+◌, ◌-◌, ◌/◌, ◌≤◌, ◌<◌, ◌≡◌, refl, [], ◌∷◌, ◌++◌, arith, leb, ltb, All, inl, inr,
  Bool-cases, length, take, drop, take-append-drop,
}
use instant_ai_data_workflow.Lanes.{Payload, Buffer, seq_at, bisect, insert_sorted}
use instant_ai_data_workflow.Lanes.Sorted.{From, IsSorted}

module _ {Body : Type 0} where
  abbrev pub UpTo : ℕ → Buffer Body → Type 0
  UpTo n = All (λ p. p.seq ≤ n)

  From-seq_at : (n : ℕ) (ps : Buffer Body) (i : ℕ) → From n ps → i < length ps → n ≤ seq_at ps i
  unfolding seq_at
  From-seq_at n [] i f lt = ground arith
  From-seq_at n (p ∷ ps) zero f lt = f.0
  From-seq_at n (p ∷ ps) (suc i) f lt = From-seq_at n ps i f.1 (omega arith)

  seq_at_mono :
      (ps : Buffer Body) (i j : ℕ) → IsSorted ps → i ≤ j → j < length ps → seq_at ps i ≤ seq_at ps j
  unfolding seq_at
  seq_at_mono [] i j s le lt = ground arith
  seq_at_mono (p ∷ ps) zero zero s le lt = omega arith
  seq_at_mono (p ∷ ps) zero (suc j) s le lt = From-seq_at p.seq ps j s.0 (omega arith)
  seq_at_mono (p ∷ ps) (suc i) zero s le lt = absurd (omega arith)
  seq_at_mono (p ∷ ps) (suc i) (suc j) s le lt = seq_at_mono ps i j s.1 (omega arith) (omega arith)

  -- `r` splits the list: the numbers before it are not later than `seq`, those from it on are.
  record Splits (buf : Buffer Body) (seq r : ℕ) : Type 0 where
    within : r ≤ length buf
    below : (i : ℕ) → i < r → seq_at buf i ≤ seq
    above : (i : ℕ) → r ≤ i → i < length buf → seq < seq_at buf i

  bisect-Splits :
      (fuel : ℕ) (buf : Buffer Body) (seq lo hi : ℕ)
      → IsSorted buf
      → hi - lo ≤ fuel
      → lo ≤ hi
      → hi ≤ length buf
      → ((i : ℕ) → i < lo → seq_at buf i ≤ seq)
      → ((i : ℕ) → hi ≤ i → i < length buf → seq < seq_at buf i)
      → Splits buf seq (bisect fuel buf seq lo hi)
  unfolding bisect
  bisect-Splits zero buf seq lo hi s enough le len below above = record {
    within = omega arith;
    below = below;
    above = λ i r lt. above i (omega arith) lt;
  }
  bisect-Splits (suc fuel) buf seq lo hi s enough le len below above =
      elim (Bool-cases (ltb lo hi)) [
        | inr done ↦
            rw (done, bisect)
              (record {
                within = omega arith;
                below = below;
                above = λ i r lt. above i (ground arith) lt;
              })
        | inl more ↦ elim (Bool-cases (leb (seq_at buf ((lo + hi) / 2)) seq)) [
          | inl right ↦
              rw (more, right, bisect)
                (bisect-Splits fuel buf seq ((lo + hi) / 2 + 1) hi s (ground arith) (ground arith)
                  len (λ i lt. ground (arith, seq_at_mono buf i ((lo + hi) / 2) s)) above)
          | inr left ↦
              rw (more, left, bisect)
                (bisect-Splits fuel buf seq lo ((lo + hi) / 2) s (ground arith) (ground arith)
                  (ground arith) below
                  (λ i ge lt. ground (arith, seq_at_mono buf ((lo + hi) / 2) i s)))
        ]
      ]

  UpTo-take :
      (buf : Buffer Body) (seq r : ℕ)
      → ((i : ℕ) → i < r → seq_at buf i ≤ seq)
      → UpTo seq (take r buf)
  unfolding seq_at
  UpTo-take buf seq zero below = tt
  UpTo-take [] seq (suc r) below = tt
  UpTo-take (p ∷ ps) seq (suc r) below =
      (below 0 (omega arith), UpTo-take ps seq r (λ i lt. below (suc i) (omega arith)))

  From-drop :
      (buf : Buffer Body) (seq r : ℕ)
      → ((i : ℕ) → r ≤ i → i < length buf → seq < seq_at buf i)
      → From (suc seq) (drop r buf)
  unfolding seq_at
  From-drop [] seq zero above = tt
  From-drop (p ∷ ps) seq zero above = (
    above 0 (omega arith) (omega arith),
    From-drop ps seq zero (λ i r lt. above (suc i) (omega arith) (omega arith)),
  )
  From-drop [] seq (suc r) above = tt
  From-drop (p ∷ ps) seq (suc r) above =
      From-drop ps seq r (λ i le lt. above (suc i) (omega arith) (omega arith))

  -- In a sorted buffer `_insert_sorted` puts the payload between those that are not later and those
  -- that are later, and moves nothing else: equal numbers keep their order of arrival.
  pub insert_sorted-splits :
      (buf : Buffer Body) (p : Payload Body)
      → IsSorted buf
      → (before : Buffer Body) × (after : Buffer Body) × (before ++ after ≡ buf)
        × (insert_sorted buf p ≡ before ++ p ∷ after)
        × UpTo p.seq before
        × From (suc p.seq) after
  unfolding insert_sorted
  insert_sorted-splits buf p s =
      let i = bisect (length buf) buf p.seq 0 (length buf) in
      let v =
        bisect-Splits (length buf) buf p.seq 0 (length buf) s (omega arith) (omega arith)
          (omega arith) (λ j lt. absurd (omega arith)) (λ j le lt. absurd (omega arith)) in
      (
        take i buf,
        drop i buf,
        take-append-drop i buf,
        refl,
        UpTo-take buf p.seq i v.below,
        From-drop buf p.seq i v.above,
      )
