-- ===== src/Coordinator/Progress.antt =====
-- Every line that the coordinator has been given, with no gap before it, is applied in the end.
use instant_ai_data_workflow.Prelude.{
  ℕ, zero, suc, ◌+◌, ◌-◌, ◌*◌, ◌≤◌, ◌<◌, ◌≡◌, ◌⊎◌, refl, Bool, true, false, List, [], ◌∷◌, ◌++◌,
  map, arith, All, inl, inr, nat_beq_iff, nat_eq, replicate, le_or_lt,
}
use instant_ai_data_workflow.Prelude.Dict.{Dict, has, has-put, has-remove, has-of_get-none}
use instant_ai_data_workflow.Coordinator.{
  Hooks, Pc, idle, waiting, applying, returned, Coordinator, Action, ingest_lines, ingest_batch,
  stop, turn, init, store, ingest, items, finish, await_head, wake, turn_at, step, run,
}

abbrev IsApplying : {Line : Type 0} → Pc Line → Type 0
IsApplying (applying l) = Unit
IsApplying _ = ⊥

abbrev IsRunning : {Line : Type 0} → Pc Line → Type 0
IsRunning returned = ⊥
IsRunning _ = Unit

-- How many turns the thread is away from popping the next line, at most.
abbrev distance : {Line : Type 0} → Pc Line → ℕ
distance (waiting g) = 2
distance (applying l) = 0
distance _ = 1

module _ {Line World : Type 0} (h : Hooks Line World) where
  abbrev pub Brings : ℕ → List Line → Type 0
  Brings k [] = ⊥
  Brings k (l ∷ ls) = (h.seq (h.prep_fn l) ≡ k) ⊎ Brings k ls

  -- An ingest of a line with this sequence number is among the actions.
  abbrev pub Ingested : ℕ → List (Action Line) → Type 0
  Ingested k [] = ⊥
  Ingested k (ingest_lines lines ∷ as') = Brings k lines ⊎ Ingested k as'
  Ingested k (ingest_batch payload ∷ as') = Brings k (items h payload) ⊎ Ingested k as'
  Ingested k (_ ∷ as') = Ingested k as'

  abbrev pub NoStop : Action Line → Type 0
  NoStop stop = ⊥
  NoStop _ = Unit

  -- A line with number `k` has been applied, is being applied, or waits in the buffer.
  abbrev Tracked : ℕ → Coordinator Line World → Type 0
  Tracked k s =
      (k < s.next_write_seq)
      ⊎ (IsApplying s.pc × (k ≡ s.next_write_seq))
      ⊎ (has s.line_results k ≡ true)

  abbrev Live : Coordinator Line World → Type 0
  Live s = (s.stopped ≡ false) × IsRunning s.pc

  has-store :
      (ls : List Line) (d : Dict ℕ Line) (k : ℕ) → has d k ≡ true → has (store h ls d) k ≡ true
  unfolding store
  has-store [] d k p = p
  has-store (l ∷ ls) d k p = has-store ls _ k (ground (arith, has-put d (h.seq l) l k))

  Brings-store :
      (ls : List Line) (d : Dict ℕ Line) (k : ℕ)
      → Brings k ls
      → has (store h (map h.prep_fn ls) d) k ≡ true
  unfolding store
  Brings-store [] d k b = elim b [ ]
  Brings-store (l ∷ ls) d k (inl e) = has-store (map h.prep_fn ls) _ k (
      ground (
        arith,
        has-put d (h.seq (h.prep_fn l)) (h.prep_fn l) k,
        nat_beq_iff (h.seq (h.prep_fn l)) k,
      ))
  Brings-store (l ∷ ls) d k (inr b) = Brings-store ls _ k b

  Tracked-ingest :
      (ls : List Line) (s : Coordinator Line World) (k : ℕ)
      → Tracked k s
      → Tracked k (ingest h ls s)
  unfolding ingest
  Tracked-ingest ls s k (inl a) = inl a
  Tracked-ingest ls s k (inr (inl b)) = inr (inl b)
  Tracked-ingest ls s k (inr (inr c)) = inr (inr (has-store (map h.prep_fn ls) s.line_results k c))

  Tracked-Brings :
      (ls : List Line) (s : Coordinator Line World) (k : ℕ)
      → Brings k ls
      → Tracked k (ingest h ls s)
  unfolding ingest
  Tracked-Brings ls s k b = inr (inr (Brings-store ls s.line_results k b))

  Tracked-turn :
      (pc : Pc Line) (notified slow : Bool) (s : Coordinator Line World) (k : ℕ)
      → s.pc ≡ pc
      → Tracked k s
      → Tracked k (turn_at h pc notified slow s)
  unfolding turn_at await_head wake finish
  Tracked-turn idle notified slow s k e t = ground (
    arith,
    has-remove s.line_results s.next_write_seq k,
    nat_beq_iff s.next_write_seq k,
    has-of_get-none s.line_results s.next_write_seq,
  )
  Tracked-turn (waiting g) notified slow s k e t = ground arith
  Tracked-turn (applying l) notified slow s k e t = ground arith
  Tracked-turn returned notified slow s k e t = t

  Tracked-step :
      (a : Action Line) (s : Coordinator Line World) (k : ℕ) → Tracked k s → Tracked k (step h a s)
  unfolding step
  Tracked-step (ingest_lines lines) s k t = Tracked-ingest lines s k t
  Tracked-step (ingest_batch payload) s k t = Tracked-ingest (items h payload) s k t
  Tracked-step stop s k t = t
  Tracked-step (turn notified slow) s k t = Tracked-turn s.pc notified slow s k refl t

  Tracked-run :
      (acts : List (Action Line)) (s : Coordinator Line World) (k : ℕ)
      → Tracked k s ⊎ Ingested k acts
      → Tracked k (run h acts s)
  unfolding run step
  Tracked-run [] s k (inl t) = t
  Tracked-run [] s k (inr b) = elim b [ ]
  Tracked-run (a ∷ as') s k (inl t) = Tracked-run as' (step h a s) k (inl (Tracked-step a s k t))
  Tracked-run (ingest_lines ls ∷ as') s k (inr (inl b)) =
      Tracked-run as' _ k (inl (Tracked-Brings ls s k b))
  Tracked-run (ingest_lines ls ∷ as') s k (inr (inr i)) = Tracked-run as' _ k (inr i)
  Tracked-run (ingest_batch p ∷ as') s k (inr (inl b)) =
      Tracked-run as' _ k (inl (Tracked-Brings (items h p) s k b))
  Tracked-run (ingest_batch p ∷ as') s k (inr (inr i)) = Tracked-run as' _ k (inr i)
  Tracked-run (stop ∷ as') s k (inr i) = Tracked-run as' _ k (inr i)
  Tracked-run (turn b c ∷ as') s k (inr i) = Tracked-run as' _ k (inr i)

  Live-turn :
      (pc : Pc Line) (notified slow : Bool) (s : Coordinator Line World)
      → s.pc ≡ pc
      → Live s
      → Live (turn_at h pc notified slow s)
  unfolding turn_at await_head wake finish
  Live-turn idle notified slow s e v = ground arith
  Live-turn (waiting g) notified slow s e v = ground arith
  Live-turn (applying l) notified slow s e v = (v.0, tt)
  Live-turn returned notified slow s e v = v

  Live-step : (a : Action Line) (s : Coordinator Line World) → NoStop a → Live s → Live (step h a s)
  unfolding step ingest
  Live-step (ingest_lines lines) s n v = v
  Live-step (ingest_batch payload) s n v = v
  Live-step stop s n v = elim n [ ]
  Live-step (turn notified slow) s n v = Live-turn s.pc notified slow s refl v

  Live-run :
      (acts : List (Action Line)) (s : Coordinator Line World)
      → All NoStop acts
      → Live s
      → Live (run h acts s)
  unfolding run
  Live-run [] s n v = v
  Live-run (a ∷ as') s n v = Live-run as' (step h a s) n.1 (Live-step a s n.0 v)

  abbrev remaining : ℕ → Coordinator Line World → ℕ
  remaining n s = 2 * (n - s.next_write_seq) + distance s.pc

  -- With its next line tracked, a turn brings the thread nearer to `n`.
  remaining-turn :
      (pc : Pc Line) (notified slow : Bool) (n : ℕ) (s : Coordinator Line World)
      → s.pc ≡ pc
      → Live s
      → s.next_write_seq < n
      → Tracked s.next_write_seq s
      → remaining n (turn_at h pc notified slow s) < remaining n s
  unfolding turn_at await_head wake finish
  remaining-turn idle notified slow n s e v lt t =
      ground (arith, has-of_get-none s.line_results s.next_write_seq)
  remaining-turn (waiting g) notified slow n s e v lt t = ground arith
  remaining-turn (applying l) notified slow n s e v lt t = ground arith
  remaining-turn returned notified slow n s e v lt t = ground arith

  next-le-turn :
      (pc : Pc Line) (notified slow : Bool) (s : Coordinator Line World)
      → s.next_write_seq ≤ (turn_at h pc notified slow s).next_write_seq
  unfolding turn_at await_head wake finish
  next-le-turn idle notified slow s = ground arith
  next-le-turn (waiting g) notified slow s = ground arith
  next-le-turn (applying l) notified slow s = omega arith
  next-le-turn returned notified slow s = omega arith

  turns_reach :
      (fuel n : ℕ) (s : Coordinator Line World) (notified slow : Bool)
      → Live s
      → ((k : ℕ) → k < n → Tracked k s)
      → (remaining n s ≤ fuel) ⊎ (n ≤ s.next_write_seq)
      → n ≤ (run h (replicate fuel (turn notified slow)) s).next_write_seq
  unfolding run step
  turns_reach zero n s notified slow v t (inl m) = omega arith
  turns_reach zero n s notified slow v t (inr m) = m
  turns_reach (suc fuel) n s notified slow v t m =
      turns_reach fuel n (turn_at h s.pc notified slow s) notified slow
        (Live-turn s.pc notified slow s refl v)
        (λ k lt. Tracked-turn s.pc notified slow s k refl (t k lt)) (next m)
    where
      next :
          (remaining n s ≤ suc fuel) ⊎ (n ≤ s.next_write_seq)
          → (remaining n (turn_at h s.pc notified slow s) ≤ fuel)
            ⊎ (n ≤ (turn_at h s.pc notified slow s).next_write_seq)
      next (inr done) = inr (omega (arith, next-le-turn s.pc notified slow s))
      next (inl m) = elim (le_or_lt n s.next_write_seq) [
        | inl done ↦ inr (omega (arith, next-le-turn s.pc notified slow s))
        | inr lt ↦ inl (omega (arith, remaining-turn s.pc notified slow n s refl v lt (t _ lt)))
      ]

  run-append :
      (xs ys : List (Action Line)) (s : Coordinator Line World)
      → run h (xs ++ ys) s ≡ run h ys (run h xs s)
  unfolding run
  run-append [] ys s = refl
  run-append (a ∷ xs) ys s = run-append xs ys (step h a s)

  remaining-le :
      (pc : Pc Line) (n : ℕ) (s : Coordinator Line World)
      → 2 * (n - s.next_write_seq) + distance pc ≤ 2 * n + 2
  remaining-le idle n s = omega arith
  remaining-le (waiting g) n s = omega arith
  remaining-le (applying l) n s = omega arith
  remaining-le returned n s = omega arith

  abbrev turns : ℕ → List (Action Line)
  turns n = replicate n (turn true false)

  -- After any interleaving with no stop that has ingested the numbers below `n`, in whatever order
  -- and batches, `2 * n + 2` more turns of the apply thread take `next_write_seq` to `n` at least.
  pub run_reaches :
      (acts : List (Action Line)) (w : World) (scanned n : ℕ)
      → All NoStop acts
      → ((k : ℕ) → k < n → Ingested k acts)
      → n ≤ (run h (acts ++ turns (2 * n + 2)) (init w scanned)).next_write_seq
  run_reaches acts w scanned n ns all = rw run-append (
      turns_reach (2 * n + 2) n (run h acts (init w scanned)) true false
        (Live-run acts (init w scanned) ns (refl, tt))
        (λ k lt. Tracked-run acts (init w scanned) k (inr (all k lt)))
        (inl (remaining-le _ n (run h acts (init w scanned)))))
