-- ===== src/Coordinator/Order.antt =====
-- The order in which the coordinator applies lines, whatever the order in which they arrive.
use native.Mathlib.Numerals.{add-one}
use instant_ai_data_workflow.Prelude.{
  ℕ, zero, suc, ◌+◌, ◌≡◌, refl, ap, ◌∙◌, subst, Bool, some, List, [], ◌∷◌, ◌++◌, map, arith, All,
  range_from, inl, inr, Bool-cases, Option-cases, nat_beq_iff, nat_eq,
}
use instant_ai_data_workflow.Prelude.Dict.{Dict, get, put, remove, get-put, get-remove}
use instant_ai_data_workflow.Coordinator.{
  Hooks, Pc, idle, waiting, applying, returned, Coordinator, Action, ingest_lines, ingest_batch,
  stop, turn, init, store, ingest, items, finish, await_head, wake, turn_at, step, run,
}

map-range_from-suc :
    {A : Type 0} (f : ℕ → A) (start n : ℕ)
    → map f (range_from start (suc n)) ≡ map f (range_from start n) ++ f (start + n) ∷ []
map-range_from-suc f start zero = ap (λ k. f k ∷ []) (omega arith)
map-range_from-suc f start (suc n) =
    ap (λ t. f start ∷ t) (map-range_from-suc f (start + 1) n)
    ∙ ap (λ k. f start ∷ (map f (range_from (start + 1) n) ++ f k ∷ [])) (omega arith)

map-range_from_snoc :
    {A : Type 0} (f : ℕ → A) (start n : ℕ)
    → map f (range_from start (n + 1)) ≡ map f (range_from start n) ++ f (start + n) ∷ []
map-range_from_snoc f start n = rw add-one (map-range_from-suc f start n)

module _ {Line World : Type 0} (h : Hooks Line World) (corpus : ℕ → Line) where
  -- The prepared line with a sequence number is the one of the corpus with that number.
  abbrev pub LinesFrom : List Line → Type 0
  LinesFrom = All (λ l. h.prep_fn l ≡ corpus (h.seq (h.prep_fn l)))

  abbrev pub ActionFrom : Action Line → Type 0
  ActionFrom (ingest_lines lines) = LinesFrom lines
  ActionFrom (ingest_batch payload) = LinesFrom (items h payload)
  ActionFrom stop = Unit
  ActionFrom (turn notified slow) = Unit

  abbrev Keyed : Dict ℕ Line → Type 0
  Keyed d = (k : ℕ) (l : Line) → get d k ≡ some l → l ≡ corpus k

  abbrev InFlight : Pc Line → ℕ → Type 0
  InFlight (applying l) next = l ≡ corpus next
  InFlight _ next = Unit

  record Inv (s : Coordinator Line World) : Type 0 where
    keyed : Keyed s.line_results
    in_flight : InFlight s.pc s.next_write_seq
    order : s.applied ≡ map corpus (range_from 0 s.next_write_seq)

  Keyed-put :
      (d : Dict ℕ Line) (l : Line) → Keyed d → l ≡ corpus (h.seq l) → Keyed (put d (h.seq l) l)
  Keyed-put d l kd e k m p =
      ground (arith, get-put d (h.seq l) l k, kd k m, nat_beq_iff (h.seq l) k)

  Keyed-store :
      (ls : List Line) (d : Dict ℕ Line)
      → LinesFrom ls
      → Keyed d
      → Keyed (store h (map h.prep_fn ls) d)
  unfolding store
  Keyed-store [] d f kd = kd
  Keyed-store (l ∷ ls) d f kd = Keyed-store ls _ f.1 (Keyed-put d (h.prep_fn l) kd f.0)

  Keyed-remove : (d : Dict ℕ Line) (j : ℕ) → Keyed d → Keyed (remove d j)
  Keyed-remove d j kd k l p = ground (arith, get-remove d j k, kd k l)

  Inv-await_head : (s : Coordinator Line World) → Inv s → Inv (await_head h s)
  unfolding await_head
  Inv-await_head s v = elim (Option-cases (get s.line_results s.next_write_seq)) [
    | inl absent ↦
        rw (absent, await_head)
          (elim (Bool-cases s.stopped) [
            | inl e ↦ rw e (record { keyed = v.keyed; in_flight = tt; order = v.order })
            | inr e ↦ rw e (record { keyed = v.keyed; in_flight = tt; order = v.order })
          ])
    | inr (l, found) ↦
        rw (found, await_head)
          (record {
            keyed = Keyed-remove s.line_results s.next_write_seq v.keyed;
            in_flight = v.keyed s.next_write_seq l found;
            order = v.order;
          })
  ]

  Inv-wake :
      (notified slow : Bool) (gap : ℕ) (s : Coordinator Line World)
      → Inv s
      → Inv (wake h notified slow gap s)
  unfolding wake
  Inv-wake notified slow gap s v = ground arith

  Inv-finish :
      (l : Line) (s : Coordinator Line World)
      → l ≡ corpus s.next_write_seq
      → Inv s
      → Inv (finish h l s)
  unfolding finish
  Inv-finish l s e v = record {
    keyed = v.keyed;
    in_flight = tt;
    order =
        rw (map-range_from_snoc corpus 0 s.next_write_seq, v.order, e)
          (ap (λ k. map corpus (range_from 0 s.next_write_seq) ++ corpus k ∷ []) (omega arith));
  }

  Inv-turn_at :
      (pc : Pc Line) (notified slow : Bool) (s : Coordinator Line World)
      → s.pc ≡ pc
      → Inv s
      → Inv (turn_at h pc notified slow s)
  unfolding turn_at
  Inv-turn_at idle notified slow s e v = Inv-await_head s v
  Inv-turn_at (waiting gap) notified slow s e v = Inv-wake notified slow gap s v
  Inv-turn_at (applying line) notified slow s e v =
      Inv-finish line s (subst (λ pc. InFlight pc s.next_write_seq) e v.in_flight) v
  Inv-turn_at returned notified slow s e v = v

  Inv-ingest :
      (lines : List Line) (s : Coordinator Line World)
      → LinesFrom lines
      → Inv s
      → Inv (ingest h lines s)
  unfolding ingest
  Inv-ingest lines s f v = record {
    keyed = Keyed-store lines s.line_results f v.keyed;
    in_flight = v.in_flight;
    order = v.order;
  }

  Inv-step :
      (a : Action Line) (s : Coordinator Line World) → ActionFrom a → Inv s → Inv (step h a s)
  unfolding step
  Inv-step (ingest_lines lines) s f v = Inv-ingest lines s f v
  Inv-step (ingest_batch payload) s f v = Inv-ingest (items h payload) s f v
  Inv-step stop s f v = record { keyed = v.keyed; in_flight = v.in_flight; order = v.order }
  Inv-step (turn notified slow) s f v = Inv-turn_at s.pc notified slow s refl v

  Inv-run :
      (acts : List (Action Line)) (s : Coordinator Line World)
      → All ActionFrom acts
      → Inv s
      → Inv (run h acts s)
  unfolding run
  Inv-run [] s f v = v
  Inv-run (a ∷ as') s f v = Inv-run as' (step h a s) f.1 (Inv-step a s f.0 v)

  -- If each ingested line, once prepared, is the corpus line with its sequence number, then after any
  -- interleaving of ingests, stops and turns of the apply thread, the lines handed to `apply_fn` are
  -- the corpus lines 0, 1, 2, … up to `next_write_seq`, in that order, each once.
  pub run_order :
      (acts : List (Action Line)) (w : World) (n : ℕ)
      → All ActionFrom acts
      → (run h acts (init w n)).applied
        ≡ map corpus (range_from 0 (run h acts (init w n)).next_write_seq)
  unfolding get
  run_order acts w n f = (Inv-run acts (init w n) f start).order
    where
      start : Inv (init w n)
      start = record { keyed = λ k l p. cc; in_flight = tt; order = refl }
