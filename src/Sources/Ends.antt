-- ===== src/Sources/Ends.antt =====
-- The end of the reading of the sources: the turns that the loop takes.
use native.Mathlib.Nat.{mul-suc}
use instant_ai_data_workflow.Prelude.{
  ℕ, zero, suc, ◌+◌, ◌*◌, ◌%◌, ◌≤◌, ◌≡◌, refl, sym, ap, subst, ◌∙◌, inl, inr, false, Option, some,
  List, ◌==◌, String, nat_eq, string_eq, arith, Bool-cases, length, get_elem?, le_or_lt,
}
use instant_ai_data_workflow.Prelude.Dict.{get, has-of_get}
use instant_ai_data_workflow.Sources.{Handle, Sources, Row, scheduled, read_line, turn, loop}
use instant_ai_data_workflow.Sources.Turns.{
  total, reads, Running, turn-idle, turn-live, read_line-schedule, live_or_idle, ticked-Running,
  read_line-Running, tick_reaches, alive-reads, find_active, get_elem?-bound,
}

abbrev Ended : ℕ → Sources → ℕ → Type 0
Ended fuel s active = (loop fuel s active).1.1 ≡ 0

-- From any state with so many reads left, and with any fuel from a number on, the loop ends.
abbrev EndsFrom : ℕ → ℕ → List String → Type 0
EndsFrom left enough schedule =
    (s : Sources) (active : ℕ)
    → Running s active
    → s.schedule ≡ schedule
    → total reads s.handles ≡ left
    → (fuel : ℕ) → enough ≤ fuel
    → Ended fuel s active

loop-stop : (fuel : ℕ) (s : Sources) (active : ℕ) → active ≡ 0 → Ended fuel s active
unfolding loop
loop-stop zero s active h = h
loop-stop (suc fuel) s active h = rw (loop, h) refl

loop-turn :
    (fuel : ℕ) (s : Sources) (active : ℕ)
    → Ended fuel (turn s active).1.0 (turn s active).1.1
    → Ended (suc fuel) s active
unfolding loop
loop-turn fuel s active ended = elim (Bool-cases (active == 0)) [
  | inl stop ↦ rw (loop, stop) ground arith
  | inr more ↦ rw (loop, more) ended
]

scheduled_at :
    (schedule : List String) (tick i : ℕ) (name : String)
    → tick % length schedule ≡ i
    → get_elem? schedule i ≡ some name
    → scheduled schedule tick ≡ name
unfolding scheduled
scheduled_at schedule tick i name reached placed = rw (scheduled, reached, placed) refl

-- The loop ends if the source whose turn it is can be read.
ends_reading :
    (left enough : ℕ) (schedule : List String)
    → EndsFrom left enough schedule
    → (s : Sources) (active : ℕ) (h : Handle) → Running s active
    → s.schedule ≡ schedule
    → total reads s.handles ≡ suc left
    → get s.handles (scheduled s.schedule s.tick) ≡ some h
    → h.exhausted ≡ false
    → (fuel : ℕ) → enough ≤ fuel
    → Ended (suc fuel) s active
ends_reading left enough schedule ends s active h r eq todo found live fuel le =
    let name = scheduled s.schedule s.tick in
    let ticked = record s { tick = s.tick + 1 } in
    let after = (read_line name h h.left ticked active).1 in
    let (still, fewer) =
      read_line-Running ticked active name h (ticked-Running s active r) found live h.left refl in
    loop-turn fuel s active (
      subst (λ (t : Option Row × (Sources × ℕ)). Ended fuel t.1.0 t.1.1)
        (sym (turn-live s active h found live))
        (ends after.0 after.1 still (read_line-schedule ticked active name h h.left ∙ eq)
          (omega (arith, fewer, todo)) fuel le))

-- The loop ends if the source that is reached in `wait` turns can be read.
ends_waiting :
    (left enough : ℕ) (schedule : List String)
    → EndsFrom left enough schedule
    → (wait : ℕ) (s : Sources) (active : ℕ) (h : Handle) → Running s active
    → s.schedule ≡ schedule
    → total reads s.handles ≡ suc left
    → get s.handles (scheduled s.schedule (s.tick + wait)) ≡ some h
    → h.exhausted ≡ false
    → (fuel : ℕ) → wait + suc enough ≤ fuel
    → Ended fuel s active
ends_waiting left enough schedule ends wait s active h r eq todo found live zero le =
    absurd (omega (arith, le))
ends_waiting left enough schedule ends zero s active h r eq todo found live (suc fuel) le =
    let here : s.tick + 0 ≡ s.tick = omega arith in
    ends_reading left enough schedule ends s active h r eq todo
      (subst (λ (n : ℕ). get s.handles (scheduled s.schedule n) ≡ some h) here found) live fuel
      (omega (arith, le))
ends_waiting left enough schedule ends (suc wait) s active h r eq todo found live (suc fuel) le =
    elim (live_or_idle s) [
      | inl (first, found_first, live_first) ↦
          ends_reading left enough schedule ends s active first r eq todo found_first live_first
            fuel (omega (arith, le))
      | inr idle ↦
          let next : s.tick + suc wait ≡ s.tick + 1 + wait = omega arith in
          loop-turn fuel s active (
            subst (λ (t : Option Row × (Sources × ℕ)). Ended fuel t.1.0 t.1.1)
              (sym (turn-idle s active idle))
              (ends_waiting left enough schedule ends wait (record s { tick = s.tick + 1 }) active h
                (ticked-Running s active r) eq todo
                (subst (λ (n : ℕ). get s.handles (scheduled s.schedule n) ≡ some h) next found) live
                fuel (omega (arith, le))))
    ]

-- `length schedule` turns for each read that is left are enough.
ends_from : (left : ℕ) (schedule : List String) → EndsFrom left (length schedule * left) schedule
ends_from zero schedule s active r eq todo fuel le =
    loop-stop fuel s active (omega (arith, alive-reads s.handles, r.counted, todo))
ends_from (suc left) schedule s active r eq todo fuel le = elim (le_or_lt active 0) [
  | inl stop ↦ loop-stop fuel s active (omega (arith, stop))
  | inr more ↦
      let (name, h, found, live) =
        find_active s.handles r.distinct (omega (arith, more, r.counted)) in
      let (i, placed) = r.covered name (has-of_get s.handles name h found) in
      let (wait, short, reached) =
        tick_reaches s.tick (length s.schedule) i (get_elem?-bound s.schedule i name placed) in
      let soon : scheduled s.schedule (s.tick + wait) ≡ name =
        scheduled_at s.schedule (s.tick + wait) i name reached placed in
      ends_waiting left (length schedule * left) schedule (ends_from left schedule) wait s active h
        r eq todo (ap (get s.handles) soon ∙ found) live fuel
        (omega (arith, short, le, ap length eq, mul-suc (length schedule) left))
]

pub loop-ends :
    (s : Sources) (active : ℕ)
    → Running s active
    → (fuel : ℕ) → length s.schedule * total reads s.handles ≤ fuel
    → (loop fuel s active).1.1 ≡ 0
loop-ends s active r fuel le =
    ends_from (total reads s.handles) s.schedule s active r refl refl fuel le
