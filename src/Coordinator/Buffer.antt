-- ===== src/Coordinator/Buffer.antt =====
-- What `pending_state` reports: the lines buffered, those ready in a row, and the gap.
use instant_ai_data_workflow.Prelude.{
  ℕ, zero, suc, ◌+◌, ◌-◌, ◌≤◌, ◌<◌, ◌≡◌, refl, true, false, none, some, [], ◌∷◌, arith, nat_beq_iff,
  nat_eq, inl, inr, Bool-cases, Option-cases, le_or_lt, length,
}
use instant_ai_data_workflow.Prelude.Dict.{Dict, has, remove, has-remove}
use instant_ai_data_workflow.Coordinator.{Coordinator, min_key, gap_of, count_ready, pending_state}

module _ {Line : Type 0} where
  length-remove-le : (d : Dict ℕ Line) (k : ℕ) → length (remove d k) ≤ length d
  unfolding remove
  length-remove-le [] k = omega arith
  length-remove-le ((j, l) ∷ d) k = ground (arith, length-remove-le d k)

  length-remove-lt : (d : Dict ℕ Line) (k : ℕ) → has d k ≡ true → length (remove d k) < length d
  unfolding remove has
  length-remove-lt [] k p = ground arith
  length-remove-lt ((j, l) ∷ d) k p = ground (arith, length-remove-lt d k, length-remove-le d k)

  -- A run of numbers that are all keys is no longer than the dict.
  run-le-length :
      (m : ℕ) (d : Dict ℕ Line) (seq : ℕ)
      → ((i : ℕ) → i < m → has d (seq + i) ≡ true)
      → m ≤ length d
  run-le-length zero d seq all = omega arith
  run-le-length (suc m) d seq all =
      omega (arith, run-le-length m (remove d seq) (seq + 1) rest, length-remove-lt d seq first)
    where
      first : has d seq ≡ true
      first = let e : seq + 0 ≡ seq = omega arith in rw e at (all 0 (omega arith))

      rest : (i : ℕ) → i < m → has (remove d seq) (seq + 1 + i) ≡ true
      rest i lt =
          let e : seq + suc i ≡ seq + 1 + i = omega arith in
          let q : has d (seq + 1 + i) ≡ true = rw e at (all (suc i) (omega arith)) in
          ground (arith, has-remove d seq (seq + 1 + i), nat_beq_iff seq (seq + 1 + i))

  count_ready-all :
      (fuel : ℕ) (d : Dict ℕ Line) (seq i : ℕ) → i < count_ready fuel d seq → has d (seq + i) ≡ true
  unfolding count_ready
  count_ready-all zero d seq i lt = ground arith
  count_ready-all (suc fuel) d seq zero lt =
      let e : seq + 0 ≡ seq = omega arith in rw e (ground arith)
  count_ready-all (suc fuel) d seq (suc i) lt =
      let e : seq + suc i ≡ seq + 1 + i = omega arith in
      rw e (ground (arith, count_ready-all fuel d (seq + 1) i))

  -- If the loop stops before its fuel, the number behind the run is no key.
  count_ready-stops :
      (fuel : ℕ) (d : Dict ℕ Line) (seq : ℕ)
      → (count_ready fuel d seq < fuel)
      → has d (seq + count_ready fuel d seq) ≡ false
  unfolding count_ready
  count_ready-stops zero d seq lt = ground arith
  count_ready-stops (suc fuel) d seq lt = elim (Bool-cases (has d seq)) [
    | inl e ↦
        let q : seq + suc (count_ready fuel d (seq + 1)) ≡ seq + 1 + count_ready fuel d (seq + 1) =
          omega arith in
        rw (e, q) (count_ready-stops fuel d (seq + 1) (ground arith))
    | inr e ↦ let q : seq + 0 ≡ seq = omega arith in rw (e, q) e
  ]

  count_ready-le-length : (fuel : ℕ) (d : Dict ℕ Line) (seq : ℕ) → count_ready fuel d seq ≤ length d
  count_ready-le-length fuel d seq =
      run-le-length (count_ready fuel d seq) d seq (count_ready-all fuel d seq)

  -- The length of the buffer is enough fuel: at the number behind the run the loop stops by its test.
  count_ready-ends :
      (d : Dict ℕ Line) (seq : ℕ) → has d (seq + count_ready (length d) d seq) ≡ false
  count_ready-ends d seq = elim (le_or_lt (length d) (count_ready (length d) d seq)) [
    | inr lt ↦ count_ready-stops (length d) d seq lt
    | inl full ↦ elim (Bool-cases (has d (seq + count_ready (length d) d seq))) [
      | inr e ↦ e
      | inl e ↦
          absurd
            (omega (arith, run-le-length (suc (count_ready (length d) d seq)) d seq (longer e)))
    ]
  ]
    where
      longer :
          has d (seq + count_ready (length d) d seq) ≡ true
          → (i : ℕ) → i < suc (count_ready (length d) d seq)
          → has d (seq + i) ≡ true
      longer e i lt = elim (le_or_lt (count_ready (length d) d seq) i) [
        | inl ge ↦ let q : count_ready (length d) d seq ≡ i = omega arith in rw q at e
        | inr below ↦ count_ready-all (length d) d seq i below
      ]

  min_key-has : (d : Dict ℕ Line) (m : ℕ) → min_key d ≡ some m → has d m ≡ true
  unfolding min_key has
  min_key-has [] m p = ground arith
  min_key-has ((k, l) ∷ d) m p = ground (arith, min_key-has d m)

  min_key-none : (d : Dict ℕ Line) (j : ℕ) → min_key d ≡ none → has d j ≡ false
  unfolding min_key has
  min_key-none [] j p = refl
  min_key-none ((k, l) ∷ d) j p = ground arith

  min_key-le : (d : Dict ℕ Line) (m j : ℕ) → min_key d ≡ some m → has d j ≡ true → m ≤ j
  unfolding min_key has
  min_key-le [] m j p q = ground arith
  min_key-le ((k, l) ∷ d) m j p q = elim (Option-cases (min_key d)) [
    | inl e ↦ ground (arith, min_key-none d j e)
    | inr (r, e) ↦ ground (arith, min_key-le d r j e)
  ]

module _ {Line World : Type 0} (s : Coordinator Line World) where
  -- `pending_state` counts the buffered lines exactly: the numbers from `next_write_seq` on that it
  -- calls ready are all buffered, the one behind them is not, and ready and out-of-order lines
  -- together are the whole buffer.
  pub pending_ready :
      (ready : ℕ) × (ready + (pending_state s).2 ≡ (pending_state s).0)
      × ((pending_state s).0 ≡ length s.line_results)
      × ((i : ℕ) → i < ready → has s.line_results (s.next_write_seq + i) ≡ true)
      × (has s.line_results (s.next_write_seq + ready) ≡ false)
  unfolding pending_state
  pending_ready = (
    count_ready (length s.line_results) s.line_results s.next_write_seq,
    omega (arith, count_ready-le-length (length s.line_results) s.line_results s.next_write_seq),
    refl,
    count_ready-all (length s.line_results) s.line_results s.next_write_seq,
    count_ready-ends s.line_results s.next_write_seq,
  )

  -- While the head is missing and every buffered number lies behind it, `gap` is the distance to the
  -- first buffered number: no buffered number is nearer, and the one at that distance is buffered.
  pub pending_gap :
      (j : ℕ)
      → has s.line_results s.next_write_seq ≡ false
      → has s.line_results j ≡ true
      → ((k : ℕ) → has s.line_results k ≡ true → s.next_write_seq ≤ k)
      → (s.next_write_seq + (pending_state s).1 ≤ j)
        × (has s.line_results (s.next_write_seq + (pending_state s).1) ≡ true)
  unfolding pending_state gap_of
  pending_gap j head there behind = elim (Option-cases (min_key s.line_results)) [
    | inl e ↦ absurd (absent e)
    | inr (m, e) ↦
        let q : s.next_write_seq + (m - s.next_write_seq) ≡ m =
          omega (arith, behind m (min_key-has s.line_results m e)) in
        rw (head, e, gap_of, q)
          (min_key-le s.line_results m j e there, min_key-has s.line_results m e)
  ]
    where
      absent : min_key s.line_results ≡ none → ⊥
      absent e = cc (min_key-none s.line_results j e)
