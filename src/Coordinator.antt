-- ===== src/Coordinator.antt =====
-- src/indw/schedule/apply/coordinator.py: the coordinator that applies the lines in the order of their
-- sequence numbers.
--
-- Each region under the lock is one action; `turn` takes the apply thread from one such region to
-- the next, and `pc` says where it stands. Callbacks act on a `World`. An optional callback that is
-- None is `none`. Wall-clock readings are not modelled; a wait that ends is told by the action
-- whether it was notified and whether it lasted long enough to be recorded.
-- `gap` is a difference that the code only compares with 0, so it is cut off at 0.
pub mod Order
pub mod Effects
pub mod Progress
pub mod Gap
pub mod Buffer
mod Examples
use instant_ai_data_workflow.Prelude.{
  ℕ, zero, suc, ◌+◌, ◌-◌, ◌%◌, min, Bool, true, false, ◌&&◌, Option, none, some, List, [], ◌∷◌,
  ◌++◌, map, ltb, leb, ◌==◌, if◌then◌else◌, length, nat_eq,
}
use instant_ai_data_workflow.Prelude.Dict.{Dict, get, has, put, remove}

abbrev pub metrics_snapshot_interval : ℕ
metrics_snapshot_interval = 500

abbrev pub progress_log_interval : ℕ
progress_log_interval = 500

pub record Probe (World : Type 0) : Type 0 where
  pub note_apply_complete : World → World
  pub note_heavy_apply_backpressure : World → World
  pub note_ordering_wait : ℕ → World → World

-- The arguments of the constructor. `publish_metrics` stands for both of the tests
-- `pipeline_metrics is not None` and `publish_metrics is not None`.
pub record Hooks (Line World : Type 0) : Type 0 where
  pub seq : Line → ℕ
  pub prep_fn : Line → Line
  pub apply_fn : Line → World → Bool × World
  pub on_apply_complete : Option (World → World)
  pub on_progress : Option (Line → Bool → ℕ → World → World)
  pub sched_probe : Option (Probe World)
  pub checkpoint_interval : ℕ
  pub publish_metrics : Option (World → World)
  pub sink_flush : Option (World → World)

-- Where the apply thread stands: before the test of its wait loop, in the wait (with the gap that it
-- computed), between its two regions under the lock, or behind its return.
pub data Pc (Line : Type 0) : Type 0 where
  idle : Pc Line
  waiting : ℕ → Pc Line
  applying : Line → Pc Line
  returned : Pc Line

-- `applied` is no field of the source: it lists the lines that `apply_fn` was called with.
pub record Coordinator (Line World : Type 0) : Type 0 where
  pub line_results : Dict ℕ Line
  pub next_write_seq : ℕ
  pub apply_buffer_size : ℕ
  pub stopped : Bool
  pub total_scanned : ℕ
  pub total_scanned_ref : ℕ
  pub pc : Pc Line
  pub world : World
  pub applied : List Line

-- What other threads do, and the next turn of the apply thread.
pub data Action (Line : Type 0) : Type 0 where
  ingest_lines : List Line → Action Line
  ingest_batch : Option (List Line) → Action Line
  stop : Action Line
  turn : (notified slow : Bool) → Action Line

module _ {Line : Type 0} where
  min_key : Dict ℕ Line → Option ℕ
  min_key [] = none
  min_key ((k, l) ∷ d) = elim (min_key d) [ none ↦ some k | some m ↦ some (min k m) ]

  -- `min(self._line_results) - self._next_write_seq`, or 0 if nothing is buffered.
  unfoldable pub gap_of : Dict ℕ Line → ℕ → ℕ
  unfolding min_key
  gap_of d next = elim (min_key d) [ none ↦ 0 | some m ↦ m - next ]

  -- `while seq in self._line_results: ready += 1; seq += 1`
  unfoldable pub count_ready : ℕ → Dict ℕ Line → ℕ → ℕ
  count_ready zero d seq = 0
  count_ready (suc fuel) d seq =
      let rest = count_ready fuel d (seq + 1) in if has d seq then suc rest else 0

module _ {Line World : Type 0} where
  abbrev pub init : World → ℕ → Coordinator Line World
  init world scanned = record {
    line_results = [];
    next_write_seq = 0;
    apply_buffer_size = 0;
    stopped = false;
    total_scanned = 0;
    total_scanned_ref = scanned;
    pc = idle;
    world = world;
    applied = [];
  }

  -- (total, gap, out_of_order)
  unfoldable pub pending_state : Coordinator Line World → ℕ × ℕ × ℕ
  unfolding gap_of count_ready
  pending_state s =
      let total = length s.line_results in
      let gap =
        if has s.line_results s.next_write_seq then 0 else gap_of s.line_results s.next_write_seq in
      let ready = count_ready total s.line_results s.next_write_seq in (total, gap, total - ready)

  unfoldable pub buffer_depth : Coordinator Line World → ℕ × ℕ
  unfolding pending_state
  buffer_depth s = ((pending_state s).0, (pending_state s).1)

module _ {Line World : Type 0} (h : Hooks Line World) where
  -- The world changes only by the note to the probe.
  unfoldable pub can_accept : ℕ → Coordinator Line World → Bool × Coordinator Line World
  unfolding pending_state
  can_accept max_completed s =
      if leb max_completed (pending_state s).0
      then (
        false,
        record s {
          world = elim h.sched_probe [
            | none ↦ s.world
            | some p ↦ p.note_heavy_apply_backpressure s.world
          ];
        },
      )
      else (true, s)

  unfoldable pub store : List Line → Dict ℕ Line → Dict ℕ Line
  store [] d = d
  store (l ∷ ls) d = store ls (put d (h.seq l) l)

  unfoldable pub ingest : List Line → Coordinator Line World → Coordinator Line World
  ingest lines s =
      let d = store (map h.prep_fn lines) s.line_results in
      record s { line_results = d; apply_buffer_size = length d }

  abbrev items : Option (List Line) → List Line
  items none = []
  items (some ls) = ls

  -- What follows the call of `apply_fn`, up to the second region under the lock.
  unfoldable pub apply_line : ℕ → Line → World → World
  apply_line total line w =
      let (kept_any, w₁) = h.apply_fn line w in
      let w₂ : World = elim h.sched_probe [ none ↦ w₁ | some p ↦ p.note_apply_complete w₁ ] in
      let w₃ : World = elim h.publish_metrics [
        | none ↦ w₂
        | some publish ↦ if total % metrics_snapshot_interval == 0 then publish w₂ else w₂
      ] in
      let w₄ : World = elim h.sink_flush [
        | none ↦ w₃
        | some flush ↦ if ltb 0 total && (total % h.checkpoint_interval == 0) then flush w₃ else w₃
      ] in
      let w₅ : World = elim h.on_progress [
        | none ↦ w₄
        | some log ↦ if total % progress_log_interval == 0 then log line kept_any total w₄ else w₄
      ] in
      elim h.on_apply_complete [ none ↦ w₅ | some done ↦ done w₅ ]

  unfoldable pub finish : Line → Coordinator Line World → Coordinator Line World
  finish line s = record s {
    next_write_seq = s.next_write_seq + 1;
    total_scanned_ref = s.total_scanned;
    pc = idle;
    world = apply_line s.total_scanned line s.world;
    applied = s.applied ++ line ∷ [];
  }

  -- The test of the wait loop, and the pop behind it.
  unfoldable pub await_head : Coordinator Line World → Coordinator Line World
  await_head s = elim (get s.line_results s.next_write_seq) [
    | some line ↦
        let d = remove s.line_results s.next_write_seq in
        record s { line_results = d; apply_buffer_size = length d; pc = applying line }
    | none ↦
        if s.stopped
        then record s { pc = returned }
        else record s { pc = waiting (gap_of s.line_results s.next_write_seq) }
  ]

  -- The wait has ended; the loop goes back to its test.
  unfoldable pub wake : Bool → Bool → ℕ → Coordinator Line World → Coordinator Line World
  wake notified slow gap s = elim h.sched_probe [
    | none ↦ record s { pc = idle }
    | some p ↦
        if (if notified then false else ltb 0 gap)
          && (if has s.line_results s.next_write_seq then false else slow)
        then record s { pc = idle; world = p.note_ordering_wait gap s.world }
        else record s { pc = idle }
  ]

  unfoldable pub turn_at : Pc Line → Bool → Bool → Coordinator Line World → Coordinator Line World
  turn_at idle notified slow s = await_head s
  turn_at (waiting gap) notified slow s = wake notified slow gap s
  turn_at (applying line) notified slow s = finish line s
  turn_at returned notified slow s = s

  unfoldable pub step : Action Line → Coordinator Line World → Coordinator Line World
  unfolding ingest turn_at await_head wake finish
  step (ingest_lines lines) s = ingest lines s
  step (ingest_batch payload) s = ingest (items payload) s
  step stop s = record s { stopped = true }
  step (turn notified slow) s = turn_at s.pc notified slow s

  unfoldable pub run : List (Action Line) → Coordinator Line World → Coordinator Line World
  run [] s = s
  run (a ∷ as') s = run as' (step a s)
