-- ===== src/Lanes/Shares.antt =====
-- How the heavy workers are shared out among the lanes.
use instant_ai_data_workflow.Prelude.{ℕ, ◌+◌, ◌≤◌, ◌≡◌, Bool, arith}
use instant_ai_data_workflow.Lanes.{lane_worker_slots}

-- With five workers or more, each lane gets a slot, and the slots add up to the workers, whatever the
-- share of the fast workers.
pub lane_worker_slots-sum :
    (fast_share : Bool) (n : ℕ)
    → 5 ≤ n
    → ((lane_worker_slots fast_share n).normal_slots
          + (lane_worker_slots fast_share n).large_slots
          + (lane_worker_slots fast_share n).huge_slots
        ≡ n)
      × (1 ≤ (lane_worker_slots fast_share n).normal_slots)
      × (1 ≤ (lane_worker_slots fast_share n).large_slots)
      × (1 ≤ (lane_worker_slots fast_share n).huge_slots)
unfolding lane_worker_slots
lane_worker_slots-sum fast_share n h = ground arith
