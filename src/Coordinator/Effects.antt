-- ===== src/Coordinator/Effects.antt =====
-- What the coordinator does to the world outside: which callbacks run, and how often.
use mathlib.Core.List.{foldl, foldl-append}
use instant_ai_data_workflow.Prelude.{
  ℕ, ◌≡◌, ◌≢◌, refl, ap, ◌∙◌, Bool, none, List, [], ◌∷◌, map, arith, All, range_from, inl, inr,
  Bool-cases, Option-cases, nat_eq,
}
use instant_ai_data_workflow.Prelude.Dict.{Dict, get, put}
use instant_ai_data_workflow.Coordinator.{
  Hooks, Pc, idle, waiting, applying, returned, Coordinator, Action, ingest_lines, ingest_batch,
  stop, turn, init, store, ingest, items, apply_line, finish, await_head, wake, turn_at, step, run,
}
use instant_ai_data_workflow.Coordinator.Order.{ActionFrom, run_order}

module _ {Line World : Type 0} (h : Hooks Line World) where
  -- The world after `apply_fn` and the callbacks of each line in turn.
  abbrev pub apply_all : World → List Line → World
  apply_all = foldl (λ w l. apply_line h 0 l w)

  record Inv (w₀ : World) (s : Coordinator Line World) : Type 0 where
    scanned : s.total_scanned ≡ 0
    reset : s.applied ≢ [] → s.total_scanned_ref ≡ 0
    effects : h.sched_probe ≡ none → s.world ≡ apply_all w₀ s.applied

  module _ (w₀ : World) where
    Inv-await_head : (s : Coordinator Line World) → Inv w₀ s → Inv w₀ (await_head h s)
    unfolding await_head
    Inv-await_head s v = elim (Option-cases (get s.line_results s.next_write_seq)) [
      | inl absent ↦
          rw (absent, await_head)
            (elim (Bool-cases s.stopped) [
              | inl e ↦ rw e (record { scanned = v.scanned; reset = v.reset; effects = v.effects })
              | inr e ↦ rw e (record { scanned = v.scanned; reset = v.reset; effects = v.effects })
            ])
      | inr (l, found) ↦
          rw (found, await_head)
            (record { scanned = v.scanned; reset = v.reset; effects = v.effects })
    ]

    Inv-wake :
        (notified slow : Bool) (gap : ℕ) (s : Coordinator Line World)
        → Inv w₀ s
        → Inv w₀ (wake h notified slow gap s)
    unfolding wake
    Inv-wake notified slow gap s v = ground arith

    Inv-finish : (l : Line) (s : Coordinator Line World) → Inv w₀ s → Inv w₀ (finish h l s)
    unfolding finish
    Inv-finish l s v = record {
      scanned = v.scanned;
      reset = λ _. v.scanned;
      effects = λ e. rw (v.scanned, v.effects e, foldl-append);
    }

    Inv-turn_at :
        (pc : Pc Line) (notified slow : Bool) (s : Coordinator Line World)
        → Inv w₀ s
        → Inv w₀ (turn_at h pc notified slow s)
    unfolding turn_at
    Inv-turn_at idle notified slow s v = Inv-await_head s v
    Inv-turn_at (waiting gap) notified slow s v = Inv-wake notified slow gap s v
    Inv-turn_at (applying line) notified slow s v = Inv-finish line s v
    Inv-turn_at returned notified slow s v = v

    Inv-step : (a : Action Line) (s : Coordinator Line World) → Inv w₀ s → Inv w₀ (step h a s)
    unfolding step ingest
    Inv-step (turn notified slow) s v = Inv-turn_at s.pc notified slow s v
    Inv-step _ s v = record { scanned = v.scanned; reset = v.reset; effects = v.effects }

    Inv-run :
        (acts : List (Action Line)) (s : Coordinator Line World) → Inv w₀ s → Inv w₀ (run h acts s)
    unfolding run
    Inv-run [] s v = v
    Inv-run (a ∷ as') s v = Inv-run as' (step h a s) (Inv-step a s v)

  Inv-init : (w : World) (n : ℕ) → Inv w (init w n)
  Inv-init w n = record { scanned = refl; reset = λ ne. absurd (ne refl); effects = λ _. refl }

  -- Where no probe is attached, and each ingested line, once prepared, is the corpus line with its
  -- sequence number, the world after any interleaving depends only on how many lines have been
  -- applied: it is the start world after the callbacks of the corpus lines 0, 1, 2, … in order.
  pub run_deterministic :
      (corpus : ℕ → Line) (acts : List (Action Line)) (w : World) (n : ℕ)
      → h.sched_probe ≡ none
      → All (ActionFrom h corpus) acts
      → (run h acts (init w n)).world
        ≡ apply_all w (map corpus (range_from 0 (run h acts (init w n)).next_write_seq))
  run_deterministic corpus acts w n e f =
      (Inv-run w acts (init w n) (Inv-init w n)).effects e
      ∙ ap (apply_all w) (run_order h corpus acts w n f)

  -- In every interleaving in which a line has been applied, `total_scanned` is still 0, and so is the
  -- counter that the coordinator shares with its owner, whatever it was before.
  pub run_never_counts :
      (acts : List (Action Line)) (w : World) (n : ℕ)
      → (run h acts (init w n)).applied ≢ []
      → ((run h acts (init w n)).total_scanned ≡ 0)
        × ((run h acts (init w n)).total_scanned_ref ≡ 0)
  run_never_counts acts w n some_applied =
      let v = Inv-run w acts (init w n) (Inv-init w n) in (v.scanned, v.reset some_applied)

  abbrev without_sink : Hooks Line World
  without_sink = record h { sink_flush = none }

  apply_line-flush : (l : Line) (w : World) → apply_line h 0 l w ≡ apply_line without_sink 0 l w
  unfolding apply_line
  apply_line-flush l w = ground arith

  store-flush : (ls : List Line) (d : Dict ℕ Line) → store h ls d ≡ store without_sink ls d
  unfolding store
  store-flush [] d = refl
  store-flush (l ∷ ls) d = store-flush ls (put d (h.seq l) l)

  finish-flush :
      (l : Line) (s : Coordinator Line World)
      → s.total_scanned ≡ 0
      → finish h l s ≡ finish without_sink l s
  unfolding finish
  finish-flush l s e = rw e (cc (apply_line-flush l s.world))

  turn_at-flush :
      (pc : Pc Line) (notified slow : Bool) (s : Coordinator Line World)
      → s.total_scanned ≡ 0
      → turn_at h pc notified slow s ≡ turn_at without_sink pc notified slow s
  unfolding turn_at await_head wake
  turn_at-flush (applying line) notified slow s e = finish-flush line s e
  turn_at-flush _ notified slow s e = refl

  ingest-flush :
      (ls : List Line) (s : Coordinator Line World) → ingest h ls s ≡ ingest without_sink ls s
  unfolding ingest
  ingest-flush ls s = rw (store-flush (map h.prep_fn ls) s.line_results)

  step-flush :
      (a : Action Line) (s : Coordinator Line World)
      → s.total_scanned ≡ 0
      → step h a s ≡ step without_sink a s
  unfolding step
  step-flush (ingest_lines lines) s e = ingest-flush lines s
  step-flush (ingest_batch payload) s e = ingest-flush (items h payload) s
  step-flush stop s e = refl
  step-flush (turn notified slow) s e = turn_at-flush s.pc notified slow s e

  run-flush :
      (w : World) (acts : List (Action Line)) (s : Coordinator Line World)
      → Inv w s
      → run h acts s ≡ run without_sink acts s
  unfolding run
  run-flush w [] s v = refl
  run-flush w (a ∷ as') s v =
      run-flush w as' (step h a s) (Inv-step w a s v)
      ∙ ap (run without_sink as') (step-flush a s v.scanned)

  -- The periodic flush of the sink never runs: every interleaving from a fresh coordinator leaves
  -- the same state, world included, as with no sink.
  pub run_never_flushes :
      (acts : List (Action Line)) (w : World) (n : ℕ)
      → run h acts (init w n) ≡ run (record h { sink_flush = none }) acts (init w n)
  run_never_flushes acts w n = run-flush w acts (init w n) (Inv-init w n)
