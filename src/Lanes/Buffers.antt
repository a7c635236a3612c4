-- ===== src/Lanes/Buffers.antt =====
-- `LaneBuffers` and the functions on it of src/indw/schedule/dispatch/lanes.py.
use instant_ai_data_workflow.Prelude.{
  ℕ, ◌+◌, min, Bool, true, false, ◌||◌, Option, none, some, List, [], ◌∷◌, ltb, leb, ◌==◌,
  if◌then◌else◌, length, take, drop, nat_eq,
}
use instant_ai_data_workflow.Lanes.{
  Lane, normal, large, huge, all_lanes, Payload, Buffer, insert_sorted, merge_sorted, survivor_lane,
}

pub record LaneBuffers (Body : Type 0) : Type 0 where
  pub normal_buf : Buffer Body
  pub large_buf : Buffer Body
  pub huge_buf : Buffer Body

module _ {Body : Type 0} where
  unfoldable pub lane_buffer : LaneBuffers Body → Lane → Buffer Body
  lane_buffer b huge = b.huge_buf
  lane_buffer b large = b.large_buf
  lane_buffer b normal = b.normal_buf

  -- The assignment to a lane's list, which the source makes in place.
  unfoldable pub with_lane : LaneBuffers Body → Lane → Buffer Body → LaneBuffers Body
  with_lane b huge l = record b { huge_buf = l }
  with_lane b large l = record b { large_buf = l }
  with_lane b normal l = record b { normal_buf = l }

  unfoldable pub route_one : LaneBuffers Body → Payload Body → LaneBuffers Body
  unfolding survivor_lane insert_sorted lane_buffer with_lane
  route_one b p =
      let lane = survivor_lane p in with_lane b lane (insert_sorted (lane_buffer b lane) p)

  -- `by_lane[lane]`, in the order of the survivors.
  unfoldable pub in_lane : Lane → Buffer Body → Buffer Body
  in_lane lane [] = []
  in_lane lane (p ∷ ps) =
      let rest = in_lane lane ps in
      elim (survivor_lane p) [
        | normal ↦ elim lane [ normal ↦ p ∷ rest | _ ↦ rest ]
        | large ↦ elim lane [ large ↦ p ∷ rest | _ ↦ rest ]
        | huge ↦ elim lane [ huge ↦ p ∷ rest | _ ↦ rest ]
      ]

  unfoldable pub merge_lane : LaneBuffers Body → Lane → Buffer Body → LaneBuffers Body
  unfolding merge_sorted lane_buffer with_lane
  merge_lane b lane [] = b
  merge_lane b lane (p ∷ ps) = with_lane b lane (merge_sorted (lane_buffer b lane) (p ∷ ps))

  unfoldable pub route_many : LaneBuffers Body → Buffer Body → LaneBuffers Body
  unfolding route_one in_lane merge_lane
  route_many b [] = b
  route_many b (p ∷ []) = route_one b p
  route_many b (p ∷ q ∷ ps) =
      let ss = p ∷ q ∷ ps in
      let b₁ = merge_lane b normal (in_lane normal ss) in
      let b₂ = merge_lane b₁ large (in_lane large ss) in merge_lane b₂ huge (in_lane huge ss)

  unfoldable pub total : LaneBuffers Body → ℕ
  total b = length b.normal_buf + length b.large_buf + length b.huge_buf

  unfoldable pub empty : LaneBuffers Body → Bool
  unfolding total
  empty b = total b == 0

  unfoldable pub lane_min_seq : LaneBuffers Body → Lane → Option ℕ
  unfolding lane_buffer
  lane_min_seq b lane = elim (lane_buffer b lane) [ [] ↦ none | p ∷ _ ↦ some p.seq ]

  unfoldable pub has_seq : Buffer Body → ℕ → Bool
  has_seq [] target = false
  has_seq (p ∷ ps) target = p.seq == target || has_seq ps target

  unfoldable pub has_buffered_seq : LaneBuffers Body → ℕ → Bool
  unfolding has_seq lane_buffer
  has_buffered_seq b target =
      has_seq b.normal_buf target || has_seq b.large_buf target || has_seq b.huge_buf target

  -- The first payload with the number, and the list without it.
  unfoldable pub pop_seq : Buffer Body → ℕ → Option (Payload Body × Buffer Body)
  pop_seq [] target = none
  pop_seq (p ∷ ps) target =
      let rest = pop_seq ps target in
      if p.seq == target
      then some (p, ps)
      else elim rest [ none ↦ none | some (q, qs) ↦ some (q, p ∷ qs) ]

  -- The lanes are searched in turn.
  unfoldable pub pop_lanes :
      List Lane → LaneBuffers Body → ℕ → Option (Payload Body × Lane × LaneBuffers Body)
  unfolding pop_seq lane_buffer with_lane
  pop_lanes [] b target = none
  pop_lanes (lane ∷ lanes) b target =
      let rest = pop_lanes lanes b target in
      elim (pop_seq (lane_buffer b lane) target) [
        | none ↦ rest
        | some (p, l) ↦ some (p, lane, with_lane b lane l)
      ]

  unfoldable pub pop_target_seq :
      LaneBuffers Body → ℕ → Option (Payload Body × Lane × LaneBuffers Body)
  unfolding pop_lanes
  pop_target_seq = pop_lanes all_lanes

  -- The batch and the buffer that is left. `batch_cap` is None at no call, but may be.
  unfoldable pub pick_lane_batch : Buffer Body → Lane → ℕ → ℕ → Option ℕ → Buffer Body × Buffer Body
  pick_lane_batch [] lane threshold gap batch_cap = ([], [])
  pick_lane_batch (p ∷ ps) lane threshold gap batch_cap =
      let cap : ℕ = elim batch_cap [ none ↦ threshold | some c ↦ c ] in
      let count = min (min threshold cap) (length (p ∷ ps)) in
      let special : Bool = elim lane [ normal ↦ false | _ ↦ true ] in
      if special || leb threshold 1 || ltb 0 gap
      then (p ∷ [], ps)
      else (take count (p ∷ ps), drop count (p ∷ ps))
