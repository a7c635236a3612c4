-- ===== src/Coordinator/Examples.antt =====
-- Runs of the coordinator on three lines that arrive out of order.
use mathlib.Core.List.{cons≢nil}
use instant_ai_data_workflow.Prelude.{
  ℕ, zero, suc, ◌≤◌, ◌<◌, ◌≡◌, ◌≢◌, refl, sym, ◌∙◌, true, false, none, some, List, [], ◌∷◌, ◌++◌,
  map, arith, inl, inr, range_from, nat_eq, replicate,
}
use instant_ai_data_workflow.Prelude.Dict.{get, has, put, remove}
use instant_ai_data_workflow.Coordinator.{
  Hooks, Coordinator, Action, ingest_lines, ingest_batch, turn, init, apply_line, run, step, store,
  pending_state,
}
use instant_ai_data_workflow.Coordinator.Order.{run_order}
use instant_ai_data_workflow.Coordinator.Effects.{apply_all, run_deterministic, run_never_flushes}
use instant_ai_data_workflow.Coordinator.Progress.{Ingested, run_reaches}
use instant_ai_data_workflow.Coordinator.Gap.{run_blocked}

-- A line is its number; the world is the list of the lines written, and each flush adds 99.
abbrev hooks : Hooks ℕ (List ℕ)
hooks = record {
  seq = λ l. l;
  prep_fn = λ l. l;
  apply_fn = λ l w. (true, w ++ l ∷ []);
  on_apply_complete = none;
  on_progress = none;
  sched_probe = none;
  checkpoint_interval = 1;
  publish_metrics = none;
  sink_flush = some (λ w. w ++ 99 ∷ []);
}

abbrev acts : List (Action ℕ)
acts =
    ingest_lines (2 ∷ [])
    ∷ turn true false
    ∷ ingest_batch (some (1 ∷ []))
    ∷ turn true false
    ∷ turn true false
    ∷ ingest_lines (0 ∷ [])
    ∷ turn true false
    ∷ turn true false
    ∷ turn true false
    ∷ turn true false
    ∷ turn true false
    ∷ []

abbrev partial : List (Action ℕ)
partial = ingest_lines (2 ∷ []) ∷ ingest_batch (some (3 ∷ 1 ∷ [])) ∷ turn true false ∷ []

abbrev start : Coordinator ℕ (List ℕ)
start = init [] 7

program : Unit {0}
unfolding run apply_line step get has store put remove pending_state
program = tt

finished : (run hooks acts start).applied ≡ 0 ∷ 1 ∷ []
unfolding program
finished = refl

run_order_example :
    (run hooks acts start).applied
    ≡ map (λ k. k) (range_from 0 (run hooks acts start).next_write_seq)
run_order_example = run_order hooks (λ k. k) acts [] 7 (omega arith)

run_deterministic_example :
    (run hooks acts start).world
    ≡ apply_all hooks [] (map (λ k. k) (range_from 0 (run hooks acts start).next_write_seq))
run_deterministic_example = run_deterministic hooks (λ k. k) acts [] 7 refl (omega arith)

applied_some : (run hooks acts start).applied ≢ []
applied_some e = cons≢nil (sym finished ∙ e)

run_never_flushes_example :
    run hooks acts start ≡ run (record hooks { sink_flush = none }) acts start
run_never_flushes_example = run_never_flushes hooks acts [] 7

all-Ingested : (k : ℕ) → k < 3 → Ingested hooks k acts
all-Ingested zero lt = inr (inr (inl (inl refl)))
all-Ingested (suc zero) lt = inr (inl (inl refl))
all-Ingested (suc (suc zero)) lt = inl (inl refl)
all-Ingested (suc (suc (suc k))) lt = absurd (omega arith)

run_reaches_example : 3 ≤ (run hooks (acts ++ replicate 8 (turn true false)) start).next_write_seq
run_reaches_example = run_reaches hooks acts [] 7 3 (omega arith) all-Ingested

run_blocked_example : (run hooks partial start).next_write_seq ≤ 0
run_blocked_example = run_blocked hooks 0 partial [] 7 (λ b. grind arith)

abbrev held : Coordinator ℕ (List ℕ)
held = run hooks partial start

held-line_results : held.line_results ≡ (2, 2) ∷ (3, 3) ∷ (1, 1) ∷ []
unfolding program
held-line_results = refl

held_behind : (k : ℕ) → has held.line_results k ≡ true → held.next_write_seq ≤ k
unfolding program
held_behind k p = omega arith
