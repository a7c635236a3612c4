-- ===== src/Packer/Balance.antt =====
-- The running statistics of a packer agree with its rows.
use instant_ai_data_workflow.Prelude.{
  ℕ, zero, suc, ◌+◌, ◌*◌, ◌≤◌, ◌≡◌, ◌⊎◌, refl, sym, ◌∙◌, subst, none, some, arith, length, inl, inr,
  Option-cases,
}
use instant_ai_data_workflow.Packer.{PackRow, PackStats, record_stats, Packer}
use instant_ai_data_workflow.Packer.Pack.{pack_one, pack_many}
use instant_ai_data_workflow.Packer.Rows.{pack_one-eq_some, pack_one-length}

-- The counters of a packer agree with the rows of `n` places that they count.
pub record Balanced (n : ℕ) (s : PackStats) : Type 0 where
  pub places : s.used + s.pad ≡ s.slots
  pub rows : s.slots ≡ s.seqs * n

record_stats-Balanced :
    (n : ℕ) (s : PackStats) (row : PackRow)
    → length row.input_ids ≡ n
    → row.padding_count ≤ n
    → Balanced n s
    → Balanced n (record_stats s row n)
unfolding record_stats
record_stats-Balanced n s row len pad b = record { places = omega arith; rows = omega arith }

-- `pack_one` returns a row or none.
pack_one-cases :
    (p : Packer)
    → ((row : PackRow) × (pack_one p ≡ (some row, (pack_one p).1))) ⊎ ((pack_one p).0 ≡ none)
pack_one-cases p = elim (Option-cases (pack_one p).0) [
  | inl e ↦ inr e
  | inr (row, e) ↦ inl (row, ground arith)
]

pack_one-seq_len : (p : Packer) → (pack_one p).1.seq_len ≡ p.seq_len
unfolding pack_one
pack_one-seq_len p = ground arith

pack_one-none : (p : Packer) → (pack_one p).0 ≡ none → (pack_one p).1.stats ≡ p.stats
unfolding pack_one
pack_one-none p e = ground arith

pack_one-Balanced :
    (p : Packer) → Balanced p.seq_len p.stats → Balanced p.seq_len (pack_one p).1.stats
pack_one-Balanced p b = elim (pack_one-cases p) [
  | inr e ↦ rw (pack_one-none p e) b
  | inl (row, e) ↦
      let (_, _, _, _, _, next) = pack_one-eq_some p (pack_one p).1 row e in
      let (len, _, pad) = pack_one-length p (pack_one p).1 row e in
      subst (λ (q : Packer). Balanced p.seq_len q.stats) (sym next)
        (record_stats-Balanced p.seq_len p.stats row len pad b)
]

pack_many-step :
    (n count : ℕ) (p : Packer)
    → p.seq_len ≡ n
    → Balanced n p.stats
    → Balanced n (pack_many count p).1.stats
unfolding pack_many
pack_many-step n zero p e b = b
pack_many-step n (suc count) p e b = elim (Option-cases (pack_one p).0) [
  | inl absent ↦ rw (absent, pack_many) first
  | inr (r, found) ↦
      rw (found, pack_many) (pack_many-step n count (pack_one p).1 (pack_one-seq_len p ∙ e) first)
]
  where
    first : Balanced n (pack_one p).1.stats
    first =
        subst (λ (m : ℕ). Balanced m (pack_one p).1.stats) e
          (pack_one-Balanced p (subst (λ (m : ℕ). Balanced m p.stats) (sym e) b))

-- From balanced counters, however many rows are asked for, used and padded places add up to the
-- places counted, which are those of the rows counted.
pub pack_many-Balanced :
    (count : ℕ) (p : Packer)
    → Balanced p.seq_len p.stats
    → Balanced p.seq_len (pack_many count p).1.stats
pack_many-Balanced count p b = pack_many-step p.seq_len count p refl b
