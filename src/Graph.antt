-- ===== src/Graph.antt =====
-- src/indw/schedule/graph/runner.py: the dispatch of batches to the fast and heavy workers.
--
-- `can_submit` is a callback that may answer differently each time: its answers are a function of the
-- number of calls so far. What a worker returns is an argument; `ingested` lists what the code hands
-- to `ingest_line_results` and `ingest_batch`. Probes, cost payloads and time limits are left out.
pub mod Flight
mod Examples
use instant_ai_data_workflow.Prelude.{
  ℕ, zero, suc, ◌+◌, max, Bool, true, false, not, ◌&&◌, ◌||◌, Option, none, some, List, [], ◌∷◌,
  ◌++◌, ltb, leb, if◌then◌else◌, length, nat_eq, ◌==◌,
}
use instant_ai_data_workflow.Lanes.{
  Lane, normal, large, huge, Payload, Buffer, LaneWorkerSlots, slot_limit,
}
use instant_ai_data_workflow.Lanes.Buffers.{
  LaneBuffers, lane_buffer, with_lane, route_many, total, empty, has_buffered_seq, pop_target_seq,
  pick_lane_batch,
}

pub record Alloc : Type 0 where
  pub fast_queue : ℕ
  pub clean_queue : ℕ
  pub heavy_batch : ℕ
  pub survivor_cap : ℕ
  pub lane_slots : LaneWorkerSlots

-- A batch at the heavy workers: its number, its payloads and its lane.
pub record Heavy (Body : Type 0) : Type 0 where
  pub hid : ℕ
  pub chunk : Buffer Body
  pub lane : Lane

pub record Graph (Row Body Line : Type 0) : Type 0 where
  pub pending_fast : List (ℕ × List Row)
  pub pending_heavy : List (Heavy Body)
  pub lane_buffers : LaneBuffers Body
  pub next_fast_id : ℕ
  pub next_heavy_id : ℕ
  pub worker_failures : ℕ
  pub head_priority_dispatches : ℕ
  pub can_submit_calls : ℕ
  pub ingested : List Line

-- What a fast worker gives: the fallback's lines where it failed, or terminal lines and survivors.
pub data FastResult (Body Line : Type 0) : Type 0 where
  fast_failed : List Line → FastResult Body Line
  fast_done : (terminal : List Line) → (survivors : Buffer Body) → FastResult Body Line

pub data HeavyResult (Line : Type 0) : Type 0 where
  heavy_failed : HeavyResult Line
  heavy_done : List Line → HeavyResult Line

unfoldable pub same_lane : Lane → Lane → Bool
same_lane normal normal = true
same_lane large large = true
same_lane huge huge = true
same_lane _ _ = false

unfoldable pub pending_lane : {Body : Type 0} → Lane → List (Heavy Body) → ℕ
unfolding same_lane
pending_lane lane [] = 0
pending_lane lane (h ∷ hs) =
    let rest = pending_lane lane hs in if same_lane h.lane lane then suc rest else rest

module _ {Row Body Line : Type 0} (alloc : Alloc) (can_submit : ℕ → Bool) where
  -- `pending_fast[next_fast_id] = (task, item, …)`
  unfoldable pub submit_fast : List Row → Graph Row Body Line → Graph Row Body Line
  submit_fast item s = record s {
    pending_fast = s.pending_fast ++ (s.next_fast_id, item) ∷ [];
    next_fast_id = s.next_fast_id + 1;
  }

  -- `_collect_fast`, behind the removal of its batch from `pending_fast`
  unfoldable pub collect_fast : FastResult Body Line → Graph Row Body Line → Graph Row Body Line
  collect_fast (fast_failed fb) s = record s {
    worker_failures = s.worker_failures + 1;
    ingested = s.ingested ++ fb;
  }
  collect_fast (fast_done terminal survivors) s = record s {
    ingested = s.ingested ++ terminal;
    lane_buffers = route_many s.lane_buffers survivors;
  }

  -- `_collect_heavy`, behind the removal of its batch from `pending_heavy`
  unfoldable pub collect_heavy : HeavyResult Line → Graph Row Body Line → Graph Row Body Line
  collect_heavy heavy_failed s = record s { worker_failures = s.worker_failures + 1 }
  collect_heavy (heavy_done items) s = record s { ingested = s.ingested ++ items }

  unfoldable pub called : Graph Row Body Line → Graph Row Body Line
  called s = record s { can_submit_calls = s.can_submit_calls + 1 }

  unfoldable pub queue_full : Graph Row Body Line → Bool
  queue_full s = leb alloc.clean_queue (length s.pending_heavy)

  -- `_dispatch_heavy_chunk`: whether the chunk was submitted
  unfoldable pub dispatch_heavy_chunk :
      Buffer Body → Lane → Bool → Graph Row Body Line → Bool × Graph Row Body Line
  unfolding called queue_full
  dispatch_heavy_chunk [] lane head_priority s = (false, s)
  dispatch_heavy_chunk (p ∷ ps) lane head_priority s =
      let sent = record (called s) {
        pending_heavy =
            s.pending_heavy ++ record { hid = s.next_heavy_id; chunk = p ∷ ps; lane = lane } ∷ [];
        next_heavy_id = s.next_heavy_id + 1;
        head_priority_dispatches =
            if head_priority then s.head_priority_dispatches + 1 else s.head_priority_dispatches;
      } in
      if queue_full s
      then (false, s)
      else if can_submit s.can_submit_calls
      then (true, sent)
      else (false, called s)

  -- The `while buf and …` loop of one lane. Each round takes a payload or ends the loop, so the
  -- length of the buffer is enough fuel.
  unfoldable pub lane_loop : ℕ → ℕ → Lane → Graph Row Body Line → Graph Row Body Line
  unfolding called queue_full dispatch_heavy_chunk pending_lane
  lane_loop zero ordering_gap lane s = s
  lane_loop (suc fuel) ordering_gap lane s =
      let s₁ = called s in
      let picked =
        pick_lane_batch (lane_buffer s.lane_buffers lane) lane alloc.heavy_batch ordering_gap
          (some alloc.heavy_batch) in
      let s₂ = record s₁ { lane_buffers = with_lane s.lane_buffers lane picked.1 } in
      let sent = dispatch_heavy_chunk picked.0 lane false s₂ in
      let rest = lane_loop fuel ordering_gap lane sent.1 in
      elim (lane_buffer s.lane_buffers lane) [
        | [] ↦ s
        | _ ∷ _ ↦
            if ltb (pending_lane lane s.pending_heavy) (max 1 (slot_limit alloc.lane_slots lane))
            then (if not (can_submit s.can_submit_calls) || queue_full s
                then s₁
                else if sent.0
                then rest
                else sent.1)
            else s
      ]

  unfoldable pub each_lane : List Lane → ℕ → Graph Row Body Line → Graph Row Body Line
  unfolding lane_loop
  each_lane [] ordering_gap s = s
  each_lane (lane ∷ lanes) ordering_gap s =
      each_lane lanes ordering_gap
        (lane_loop (length (lane_buffer s.lane_buffers lane)) ordering_gap lane s)

  -- `_submit_heavy_lanes`, with the gap and the next number that the coordinator gives
  unfoldable pub submit_heavy_lanes : ℕ → ℕ → Graph Row Body Line → Graph Row Body Line
  unfolding each_lane called queue_full dispatch_heavy_chunk
  submit_heavy_lanes ordering_gap head s =
      let s₁ = called s in
      let all = each_lane (normal ∷ large ∷ huge ∷ []) ordering_gap s₁ in
      if queue_full s
      then s
      else if not (can_submit s.can_submit_calls) || empty s.lane_buffers
      then s₁
      else if ltb alloc.survivor_cap (total s.lane_buffers) && ltb 0 ordering_gap
      then s₁
      else if ltb 0 ordering_gap && has_buffered_seq s.lane_buffers head
      then elim (pop_target_seq s.lane_buffers head) [
        | none ↦ all
        | some (item, lane, left) ↦
            (dispatch_heavy_chunk (item ∷ []) lane true (record s₁ { lane_buffers = left })).1
      ]
      else all
