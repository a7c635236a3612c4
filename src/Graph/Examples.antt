-- ===== src/Graph/Examples.antt =====
-- Survivors in two lanes, and a gap before the next line.
use mathlib.Core.List.{Perm}
use instant_ai_data_workflow.Prelude.{ℕ, refl, Bool, true, none, [], ◌∷◌, nat_eq, string_eq}
use instant_ai_data_workflow.Lanes.{Payload}
use instant_ai_data_workflow.Graph.{Alloc, Graph, submit_heavy_lanes}
use instant_ai_data_workflow.Graph.Flight.{in_flight, submit_heavy_lanes-in_flight}

abbrev payload : ℕ → Payload ℕ
payload n = record { seq = n; doc_tier = ""; admission = none; body = n }

abbrev alloc : Alloc
alloc = record {
  fast_queue = 4;
  clean_queue = 3;
  heavy_batch = 2;
  survivor_cap = 9;
  lane_slots = record { normal_slots = 2; large_slots = 1; huge_slots = 1 };
}

abbrev graph : Graph ℕ ℕ ℕ
graph = record {
  pending_fast = [];
  pending_heavy = [];
  lane_buffers = record {
    normal_buf = payload 2 ∷ payload 3 ∷ payload 5 ∷ [];
    large_buf = payload 4 ∷ [];
    huge_buf = [];
  };
  next_fast_id = 0;
  next_heavy_id = 0;
  worker_failures = 0;
  head_priority_dispatches = 0;
  can_submit_calls = 0;
  ingested = [];
}

abbrev always : ℕ → Bool
always n = true

submit_heavy_lanes-in_flight_example :
    Perm (in_flight graph) (in_flight (submit_heavy_lanes alloc always 1 3 graph))
submit_heavy_lanes-in_flight_example =
    submit_heavy_lanes-in_flight alloc always (λ n. refl) 1 3 graph
