-- ===== src/Coordinator/Gap.antt =====
-- A sequence number that never arrives holds back every line behind it.
use instant_ai_data_workflow.Prelude.{
  ℕ, ◌≤◌, ◌<◌, ◌≡◌, refl, Bool, none, List, [], ◌∷◌, map, arith, nat_beq_iff, nat_eq, inl, inr,
}
use instant_ai_data_workflow.Prelude.Dict.{Dict, get, get-put, get-remove}
use instant_ai_data_workflow.Coordinator.{
  Hooks, Pc, idle, waiting, applying, returned, Coordinator, Action, ingest_lines, ingest_batch,
  stop, turn, init, store, ingest, items, finish, await_head, wake, turn_at, step, run,
}
use instant_ai_data_workflow.Coordinator.Progress.{Brings, Ingested}

module _ {Line World : Type 0} (h : Hooks Line World) (k : ℕ) where
  abbrev NotInFlight : Pc Line → ℕ → Type 0
  NotInFlight (applying l) next = next < k
  NotInFlight _ next = Unit

  record Inv (s : Coordinator Line World) : Type 0 where
    before : s.next_write_seq ≤ k
    absent : get s.line_results k ≡ none
    in_flight : NotInFlight s.pc s.next_write_seq

  get-store :
      (ls : List Line) (d : Dict ℕ Line)
      → ¬ Brings h k ls
      → get d k ≡ none
      → get (store h (map h.prep_fn ls) d) k ≡ none
  unfolding store
  get-store [] d nb e = e
  get-store (l ∷ ls) d nb e =
      get-store ls _ (λ b. nb (inr b))
        (ground (
          arith,
          get-put d (h.seq (h.prep_fn l)) (h.prep_fn l) k,
          nat_beq_iff (h.seq (h.prep_fn l)) k,
          λ (p : h.seq (h.prep_fn l) ≡ k). nb (inl p),
        ))

  Inv-ingest :
      (ls : List Line) (s : Coordinator Line World) → ¬ Brings h k ls → Inv s → Inv (ingest h ls s)
  unfolding ingest
  Inv-ingest ls s nb v = record {
    before = v.before;
    absent = get-store ls s.line_results nb v.absent;
    in_flight = v.in_flight;
  }

  Inv-turn :
      (pc : Pc Line) (notified slow : Bool) (s : Coordinator Line World)
      → s.pc ≡ pc
      → Inv s
      → Inv (turn_at h pc notified slow s)
  unfolding turn_at await_head wake finish
  Inv-turn idle notified slow s e v =
      ground (arith, get-remove s.line_results s.next_write_seq k, nat_beq_iff s.next_write_seq k)
  Inv-turn (waiting g) notified slow s e v = ground arith
  Inv-turn (applying l) notified slow s e v = ground arith
  Inv-turn returned notified slow s e v = v

  Inv-run :
      (acts : List (Action Line)) (s : Coordinator Line World)
      → ¬ Ingested h k acts
      → Inv s
      → Inv (run h acts s)
  unfolding run step
  Inv-run [] s ni v = v
  Inv-run (ingest_lines ls ∷ as') s ni v =
      Inv-run as' _ (λ i. ni (inr i)) (Inv-ingest ls s (λ b. ni (inl b)) v)
  Inv-run (ingest_batch p ∷ as') s ni v =
      Inv-run as' _ (λ i. ni (inr i)) (Inv-ingest (items h p) s (λ b. ni (inl b)) v)
  Inv-run (stop ∷ as') s ni v =
      Inv-run as' _ ni (record { before = v.before; absent = v.absent; in_flight = v.in_flight })
  Inv-run (turn b c ∷ as') s ni v = Inv-run as' _ ni (Inv-turn s.pc b c s refl v)

  -- If no ingest brings the number `k`, the coordinator never gets past it: whatever else arrives and
  -- however often the apply thread runs, `next_write_seq` stays at `k` or below.
  pub run_blocked :
      (acts : List (Action Line)) (w : World) (scanned : ℕ)
      → ¬ Ingested h k acts
      → (run h acts (init w scanned)).next_write_seq ≤ k
  unfolding get
  run_blocked acts w scanned ni =
      (Inv-run acts (init w scanned) ni
        (record { before = omega arith; absent = refl; in_flight = tt })).before
