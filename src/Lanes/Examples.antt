-- ===== src/Lanes/Examples.antt =====
-- Survivors of three sizes, routed and taken out again.
use mathlib.Core.List.{cons≢nil, Perm}
use instant_ai_data_workflow.Prelude.{Option, min, ◌≢◌}
use instant_ai_data_workflow.Prelude.{
  ℕ, ◌≤◌, ◌<◌, ◌≡◌, ◌⊎◌, refl, some, [], ◌∷◌, ◌++◌, arith, length, String, nat_eq, string_eq,
}
use instant_ai_data_workflow.Lanes.{normal, large, huge, Payload, Buffer, insert_sorted}
use instant_ai_data_workflow.Lanes.Buffers.{
  LaneBuffers, lane_buffer, with_lane, route_many, in_lane, total, has_buffered_seq, pop_target_seq,
  pick_lane_batch,
}
use instant_ai_data_workflow.Lanes.Sorted.{From, IsSorted}
use instant_ai_data_workflow.Lanes.Bisect.{UpTo, insert_sorted-splits}
use instant_ai_data_workflow.Lanes.Routing.{AllSorted, route_many-Holds}
use instant_ai_data_workflow.Lanes.Picking.{pop_target_seq-found, pick_lane_batch-front, cap_of}

abbrev payload : ℕ → String → Payload ℕ
payload n tier = record { seq = n; doc_tier = tier; admission = some "large"; body = n }

abbrev survivors : Buffer ℕ
survivors = payload 4 "small" ∷ payload 2 "huge" ∷ payload 1 "small" ∷ payload 3 "" ∷ []

abbrev start : LaneBuffers ℕ
start = record {
  normal_buf = payload 0 "small" ∷ payload 5 "small" ∷ [];
  large_buf = [];
  huge_buf = [];
}

program : Unit {0}
unfolding route_many pop_target_seq pick_lane_batch has_buffered_seq total
program = tt

routed : route_many start survivors ≡ record {
  normal_buf = payload 0 "small" ∷ payload 1 "small" ∷ payload 4 "small" ∷ payload 5 "small" ∷ [];
  large_buf = payload 3 "" ∷ [];
  huge_buf = payload 2 "huge" ∷ [];
}
unfolding program
routed = refl

start-AllSorted : AllSorted start
unfolding lane_buffer
start-AllSorted normal = omega arith
start-AllSorted large = tt
start-AllSorted huge = tt

insert_sorted-splits_example :
    (before : Buffer ℕ) × (after : Buffer ℕ) × (before ++ after ≡ start.normal_buf)
    × (insert_sorted start.normal_buf (payload 5 "late") ≡ before ++ payload 5 "late" ∷ after)
    × UpTo 5 before
    × From 6 after
insert_sorted-splits_example =
    insert_sorted-splits start.normal_buf (payload 5 "late") (omega arith)

route_many-Holds_example :
    IsSorted (lane_buffer (route_many start survivors) normal)
    × Perm
        (lane_buffer (route_many start survivors) normal)
        (lane_buffer start normal ++ in_lane normal survivors)
route_many-Holds_example = route_many-Holds start survivors normal start-AllSorted

abbrev popped : LaneBuffers ℕ
popped = record start { normal_buf = payload 0 "small" ∷ [] }

popped_five : pop_target_seq start 5 ≡ some (payload 5 "small", normal, popped)
unfolding program
popped_five = refl

pop_target_seq-found_example :
    (rest : Buffer ℕ) × (popped ≡ with_lane start normal rest)
    × (◌≡◌ {A = ℕ} 5 5)
    × Perm (lane_buffer start normal) (payload 5 "small" ∷ rest)
    × IsSorted rest
pop_target_seq-found_example =
    pop_target_seq-found start 5 (payload 5 "small") normal popped start-AllSorted popped_five

-- The cap of two is not 0.
two_given : ◌≢◌ {A = Option ℕ} (some 2) (some 0)
two_given e = absurd (ground arith)

pick_lane_batch-front_example :
    ((pick_lane_batch survivors normal 3 0 (some 2)).0
        ++ (pick_lane_batch survivors normal 3 0 (some 2)).1
      ≡ survivors)
    × (0 < length (pick_lane_batch survivors normal 3 0 (some 2)).0)
    × ((((normal ≢ normal) ⊎ (◌<◌ 0 0) ⊎ (3 ≤ 1))
          × (length (pick_lane_batch survivors normal 3 0 (some 2)).0 ≡ 1))
        ⊎ ((normal ≡ normal)
            × (◌≡◌ {A = ℕ} 0 0)
            × (1 < 3)
            × (length (pick_lane_batch survivors normal 3 0 (some 2)).0
                ≡ min (min 3 (cap_of (some 2) 3)) (length survivors))))
pick_lane_batch-front_example =
    pick_lane_batch-front survivors normal 3 0 (some 2) cons≢nil two_given
