-- ===== src/Lanes/Picking.antt =====
-- Taking payloads out of the lanes: by number, and in batches from the front.
use mathlib.Core.List.Perm
use mathlib.Core.List.{Perm}
use instant_ai_data_workflow.Prelude.{
  ℕ, suc, ◌≤◌, ◌<◌, ◌≡◌, ◌≢◌, ◌⊎◌, refl, sym, true, false, ◌||◌, none, some, List, [], ◌∷◌, ◌++◌,
  arith, length, min, leb, take-append-drop, length-take, inl, inr, Option-cases, Bool-cases, ◌==◌,
  nat_eq, ltb, Option, take, zero, le_or_lt,
}
use instant_ai_data_workflow.Lanes.{Lane, normal, large, huge, Payload, Buffer, all_lanes}
use instant_ai_data_workflow.Lanes.Buffers.{
  LaneBuffers, lane_buffer, with_lane, has_seq, has_buffered_seq, pop_seq, pop_lanes,
  pop_target_seq, pick_lane_batch,
}
use instant_ai_data_workflow.Lanes.Sorted.{From, IsSorted}
use instant_ai_data_workflow.Lanes.Routing.{AllSorted}

large≢normal : large ≢ normal
large≢normal e = absurd (ground arith)

huge≢normal : huge ≢ normal
huge≢normal e = absurd (ground arith)

-- Why a batch is a single payload in the normal lane.
single : (threshold gap : ℕ) → (leb threshold 1 || ltb 0 gap) ≡ true → (0 < gap) ⊎ (threshold ≤ 1)
single threshold gap one = elim (le_or_lt threshold 1) [
  | inl small ↦ inr small
  | inr large_one ↦ inl (ground (arith, one, large_one))
]

-- The cap that a batch has: `batch_cap`, or the threshold where none is given.
abbrev pub cap_of : Option ℕ → ℕ → ℕ
cap_of batch_cap threshold = elim batch_cap [ none ↦ threshold | some c ↦ c ]

cap-positive :
    (batch_cap : Option ℕ) (threshold : ℕ)
    → batch_cap ≢ some 0
    → 0 < threshold
    → 0 < cap_of batch_cap threshold
cap-positive none threshold ne pos = pos
cap-positive (some zero) threshold ne pos = absurd (ne refl)
cap-positive (some (suc c)) threshold ne pos = omega arith

module _ {Body : Type 0} where
  pop_seq-cases :
      (q : Payload Body) (qs : Buffer Body) (target : ℕ) (p : Payload Body) (rest : Buffer Body)
      → pop_seq (q ∷ qs) target ≡ some (p, rest)
      → (q.seq ≡ target) × (p ≡ q) × (rest ≡ qs)
        ⊎ ((r : Buffer Body) × (pop_seq qs target ≡ some (p, r)) × (rest ≡ q ∷ r))
  unfolding pop_seq
  pop_seq-cases q qs target p rest e = elim (Bool-cases (q.seq == target)) [
    | inl here ↦ inl (ground arith, ground arith, ground arith)
    | inr there ↦ elim (Option-cases (pop_seq qs target)) [
      | inl absent ↦ absurd (missing there absent)
      | inr ((p', r), found) ↦ inr (r, ground arith, ground arith)
    ]
  ]
    where
      missing : (q.seq == target) ≡ false → pop_seq qs target ≡ none → ⊥
      missing there absent = ground arith

  pop_seq-From :
      (n : ℕ) (buf : Buffer Body) (target : ℕ) (p : Payload Body) (rest : Buffer Body)
      → pop_seq buf target ≡ some (p, rest)
      → From n buf
      → From n rest
  unfolding pop_seq
  pop_seq-From n [] target p rest e f = absurd (ground arith)
  pop_seq-From n (q ∷ qs) target p rest e f = elim (pop_seq-cases q qs target p rest e) [
    | inl (_, _, same) ↦ rw same f.1
    | inr (r, found, same) ↦ rw same (f.0, pop_seq-From n qs target p r found f.1)
  ]

  -- `pop_seq` takes one payload out of a list, sorted or not, and keeps all others.
  pub pop_seq-perm :
      (buf : Buffer Body) (target : ℕ) (p : Payload Body) (rest : Buffer Body)
      → pop_seq buf target ≡ some (p, rest)
      → Perm buf (p ∷ rest)
  unfolding pop_seq
  pop_seq-perm [] target p rest e = absurd (ground arith)
  pop_seq-perm (q ∷ qs) target p rest e = elim (pop_seq-cases q qs target p rest e) [
    | inl (_, same_p, same) ↦ rw (same_p, same) Perm.rfl
    | inr (r, found, same) ↦
        rw same (Perm.trans (Perm.cons q (pop_seq-perm qs target p r found)) (Perm.swap p q r))
  ]

  -- What `pop_seq` finds: a payload with the number, and the list without it, in the same order.
  pop_seq-found :
      (buf : Buffer Body) (target : ℕ) (p : Payload Body) (rest : Buffer Body)
      → pop_seq buf target ≡ some (p, rest)
      → IsSorted buf
      → (p.seq ≡ target) × Perm buf (p ∷ rest) × IsSorted rest
  unfolding pop_seq
  pop_seq-found [] target p rest e s = absurd (ground arith)
  pop_seq-found (q ∷ qs) target p rest e s = elim (pop_seq-cases q qs target p rest e) [
    | inl (number, same_p, same) ↦ (rw same_p number, rw (same_p, same) Perm.rfl, rw same s.1)
    | inr (r, found, same) ↦
        let (number, content, order) = pop_seq-found qs target p r found s.1 in
        (
          number,
          rw same (Perm.trans (Perm.cons q content) (Perm.swap p q r)),
          rw same (pop_seq-From q.seq qs target p r found s.0, order),
        )
  ]

  has_seq-eq-pop_seq :
      (buf : Buffer Body) (target : ℕ)
      → has_seq buf target ≡ elim (pop_seq buf target) [ none ↦ false | some _ ↦ true ]
  unfolding pop_seq has_seq
  has_seq-eq-pop_seq [] target = refl
  has_seq-eq-pop_seq (q ∷ qs) target = ground (arith, has_seq-eq-pop_seq qs target)

  -- A number is buffered exactly if `pop_target_seq` finds a payload.
  pub has_buffered_seq-eq-pop_target_seq :
      (b : LaneBuffers Body) (target : ℕ)
      → has_buffered_seq b target ≡ elim (pop_target_seq b target) [ none ↦ false | some _ ↦ true ]
  unfolding has_buffered_seq pop_target_seq pop_lanes lane_buffer
  has_buffered_seq-eq-pop_target_seq b target = ground (
    arith,
    has_seq-eq-pop_seq b.normal_buf target,
    has_seq-eq-pop_seq b.large_buf target,
    has_seq-eq-pop_seq b.huge_buf target,
  )

  pop_lanes-found :
      (lanes : List Lane) (b : LaneBuffers Body) (target : ℕ) (p : Payload Body) (lane : Lane)
      (b' : LaneBuffers Body)
      → AllSorted b
      → pop_lanes lanes b target ≡ some (p, lane, b')
      → (rest : Buffer Body) × (b' ≡ with_lane b lane rest)
        × (p.seq ≡ target)
        × Perm (lane_buffer b lane) (p ∷ rest)
        × IsSorted rest
  unfolding pop_lanes
  pop_lanes-found [] b target p lane b' s e = absurd (ground arith)
  pop_lanes-found (l ∷ lanes) b target p lane b' s e =
      elim (Option-cases (pop_seq (lane_buffer b l) target)) [
        | inl absent ↦ pop_lanes-found lanes b target p lane b' s (rw (absent, pop_lanes) at e)
        | inr ((q, r), found) ↦ at_lane q r found
      ]
    where
      at_lane :
          (q : Payload Body) (r : Buffer Body)
          → pop_seq (lane_buffer b l) target ≡ some (q, r)
          → (rest : Buffer Body) × (b' ≡ with_lane b lane rest)
            × (p.seq ≡ target)
            × Perm (lane_buffer b lane) (p ∷ rest)
            × IsSorted rest
      at_lane q r found =
          let taken : pop_lanes (l ∷ lanes) b target ≡ some (q, l, with_lane b l r) =
            rw (found, pop_lanes) in
          let same_p : q ≡ p = ground arith in
          let same_lane : l ≡ lane = ground arith in
          let same_b : with_lane b l r ≡ b' = ground arith in
          let (number, content, order) = pop_seq-found (lane_buffer b l) target q r found (s l) in
          (
            r,
            rw (← same_lane) (sym same_b),
            rw (← same_p) number,
            rw (← same_p, ← same_lane) content,
            order,
          )

  -- `pop_target_seq` on sorted lanes takes one payload with the number out of one lane, which stays
  -- sorted and keeps all its other payloads, and leaves the other lanes alone.
  pub pop_target_seq-found :
      (b : LaneBuffers Body) (target : ℕ) (p : Payload Body) (lane : Lane) (b' : LaneBuffers Body)
      → AllSorted b
      → pop_target_seq b target ≡ some (p, lane, b')
      → (rest : Buffer Body) × (b' ≡ with_lane b lane rest)
        × (p.seq ≡ target)
        × Perm (lane_buffer b lane) (p ∷ rest)
        × IsSorted rest
  unfolding pop_target_seq
  pop_target_seq-found b target p lane b' s e = pop_lanes-found all_lanes b target p lane b' s e

  -- Whatever the cap, a batch is the front of the buffer and the rest stays.
  pub pick_lane_batch-splits :
      (buf : Buffer Body) (lane : Lane) (threshold gap : ℕ) (batch_cap : Option ℕ)
      → (pick_lane_batch buf lane threshold gap batch_cap).0
          ++ (pick_lane_batch buf lane threshold gap batch_cap).1
        ≡ buf
  unfolding pick_lane_batch
  pick_lane_batch-splits [] lane threshold gap batch_cap = refl
  pick_lane_batch-splits (p ∷ ps) large threshold gap batch_cap = refl
  pick_lane_batch-splits (p ∷ ps) huge threshold gap batch_cap = refl
  pick_lane_batch-splits (p ∷ ps) normal threshold gap batch_cap =
      elim (Bool-cases (leb threshold 1 || ltb 0 gap)) [
        | inl one ↦ rw (one, pick_lane_batch) refl
        | inr many ↦
            rw (many, pick_lane_batch)
              (take-append-drop (min (min threshold (cap_of batch_cap threshold)) (length (p ∷ ps)))
                (p ∷ ps))
      ]

  -- From a buffer that is not empty, and unless `batch_cap` is 0, a batch is a front of the buffer that
  -- is not empty, and the rest stays. It is one payload from the large and the huge lane, while there is
  -- an ordering gap, and where the threshold is at most 1; otherwise it has as many payloads as the
  -- threshold, the cap, which is the threshold where none is given, and the buffer allow.
  pub pick_lane_batch-front :
      (buf : Buffer Body) (lane : Lane) (threshold gap : ℕ) (batch_cap : Option ℕ)
      → buf ≢ []
      → batch_cap ≢ some 0
      → ((pick_lane_batch buf lane threshold gap batch_cap).0
            ++ (pick_lane_batch buf lane threshold gap batch_cap).1
          ≡ buf)
        × (0 < length (pick_lane_batch buf lane threshold gap batch_cap).0)
        × ((((lane ≢ normal) ⊎ (0 < gap) ⊎ (threshold ≤ 1))
              × (length (pick_lane_batch buf lane threshold gap batch_cap).0 ≡ 1))
            ⊎ ((lane ≡ normal)
                × (gap ≡ 0)
                × (1 < threshold)
                × (length (pick_lane_batch buf lane threshold gap batch_cap).0
                    ≡ min (min threshold (cap_of batch_cap threshold)) (length buf))))
  unfolding pick_lane_batch
  pick_lane_batch-front [] lane threshold gap batch_cap ne pos = absurd (ne refl)
  pick_lane_batch-front (p ∷ ps) large threshold gap batch_cap ne pos =
      (refl, omega arith, inl (inl large≢normal, refl))
  pick_lane_batch-front (p ∷ ps) huge threshold gap batch_cap ne pos =
      (refl, omega arith, inl (inl huge≢normal, refl))
  pick_lane_batch-front (p ∷ ps) normal threshold gap batch_cap ne pos =
      elim (Bool-cases (leb threshold 1 || ltb 0 gap)) [
        | inl one ↦
            rw (one, pick_lane_batch)
              (refl, omega arith, inl (inr (single threshold gap one), refl))
        | inr many ↦
            let cap = cap_of batch_cap threshold in
            let count = min (min threshold cap) (suc (length ps)) in
            let positive : 0 < cap = cap-positive batch_cap threshold pos (ground (arith, many)) in
            let above : 1 < threshold = ground (arith, many) in
            let size : length (take count (p ∷ ps)) ≡ min count (suc (length ps)) =
              length-take count (p ∷ ps) in
            rw (many, pick_lane_batch)
              (
                take-append-drop count (p ∷ ps),
                omega (arith, size, positive, above),
                inr (refl, ground (arith, many), ground (arith, many), omega (arith, size)),
              )
      ]
