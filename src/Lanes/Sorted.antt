-- ===== src/Lanes/Sorted.antt =====
-- Sorting and merging of lane buffers: order and content.
use mathlib.Core.List.Perm
use mathlib.Core.List.{Perm, perm_middle}
use instant_ai_data_workflow.Prelude.{
  ℕ, ◌≤◌, [], ◌∷◌, ◌++◌, arith, leb, All, inl, inr, Bool-cases, append-nil,
}
use instant_ai_data_workflow.Lanes.{Payload, Buffer, insert, sort, merge, merge_sorted}

module _ {Body : Type 0} where
  -- Every payload has this number or a later one.
  abbrev pub From : ℕ → Buffer Body → Type 0
  From n = All (λ p. n ≤ p.seq)

  abbrev pub IsSorted : Buffer Body → Type 0
  IsSorted [] = Unit
  IsSorted (p ∷ ps) = From p.seq ps × IsSorted ps

  pub From-trans : (m n : ℕ) (ps : Buffer Body) → m ≤ n → From n ps → From m ps
  From-trans m n [] h f = tt
  From-trans m n (p ∷ ps) h f = (omega arith, From-trans m n ps h f.1)

  From-insert :
      (n : ℕ) (p : Payload Body) (qs : Buffer Body) → n ≤ p.seq → From n qs → From n (insert p qs)
  unfolding insert
  From-insert n p [] h f = (h, tt)
  From-insert n p (q ∷ qs) h f = ground (arith, From-insert n p qs)

  insert-IsSorted : (p : Payload Body) (qs : Buffer Body) → IsSorted qs → IsSorted (insert p qs)
  unfolding insert
  insert-IsSorted p [] s = (tt, tt)
  insert-IsSorted p (q ∷ qs) s =
      ground (arith, insert-IsSorted p qs, From-insert q.seq p qs, From-trans p.seq q.seq qs)

  pub sort-IsSorted : (ps : Buffer Body) → IsSorted (sort ps)
  unfolding sort
  sort-IsSorted [] = tt
  sort-IsSorted (p ∷ ps) = insert-IsSorted p (sort ps) (sort-IsSorted ps)

  From-merge : (n : ℕ) (ps qs : Buffer Body) → From n ps → From n qs → From n (merge ps qs)
  unfolding merge
  From-merge n [] qs f g = g
  From-merge n (p ∷ ps) [] f g = f
  From-merge n (p ∷ ps) (q ∷ qs) f g =
      ground (arith, From-merge n ps (q ∷ qs), From-merge n (p ∷ ps) qs)

  merge-IsSorted : (ps qs : Buffer Body) → IsSorted ps → IsSorted qs → IsSorted (merge ps qs)
  unfolding merge
  merge-IsSorted [] qs s t = t
  merge-IsSorted (p ∷ ps) [] s t = s
  merge-IsSorted (p ∷ ps) (q ∷ qs) s t = elim (Bool-cases (leb p.seq q.seq)) [
    | inl e ↦
        ground (
          arith,
          merge-IsSorted ps (q ∷ qs),
          From-merge p.seq ps (q ∷ qs),
          From-trans p.seq q.seq qs,
        )
    | inr e ↦
        ground (
          arith,
          merge-IsSorted (p ∷ ps) qs,
          From-merge q.seq (p ∷ ps) qs,
          From-trans q.seq p.seq ps,
        )
  ]

  pub merge_sorted-IsSorted :
      (buf incoming : Buffer Body) → IsSorted buf → IsSorted (merge_sorted buf incoming)
  unfolding merge_sorted
  merge_sorted-IsSorted buf [] s = s
  merge_sorted-IsSorted [] (q ∷ qs) s = sort-IsSorted (q ∷ qs)
  merge_sorted-IsSorted (p ∷ ps) (q ∷ qs) s =
      merge-IsSorted (p ∷ ps) (sort (q ∷ qs)) s (sort-IsSorted (q ∷ qs))

  insert-perm : (p : Payload Body) (qs : Buffer Body) → Perm (insert p qs) (p ∷ qs)
  unfolding insert
  insert-perm p [] = Perm.rfl
  insert-perm p (q ∷ qs) = elim (Bool-cases (leb p.seq q.seq)) [
    | inl e ↦ rw (e, insert) Perm.rfl
    | inr e ↦ rw (e, insert) (Perm.trans (Perm.cons q (insert-perm p qs)) (Perm.swap p q qs))
  ]

  pub sort-perm : (ps : Buffer Body) → Perm (sort ps) ps
  unfolding sort
  sort-perm [] = Perm.rfl
  sort-perm (p ∷ ps) = Perm.trans (insert-perm p (sort ps)) (Perm.cons p (sort-perm ps))

  merge-perm : (ps qs : Buffer Body) → Perm (merge ps qs) (ps ++ qs)
  unfolding merge
  merge-perm [] qs = Perm.rfl
  merge-perm (p ∷ ps) [] = rw append-nil Perm.rfl
  merge-perm (p ∷ ps) (q ∷ qs) = elim (Bool-cases (leb p.seq q.seq)) [
    | inl e ↦ rw (e, merge) (Perm.cons p (merge-perm ps (q ∷ qs)))
    | inr e ↦
        rw (e, merge)
          (Perm.trans (Perm.cons q (merge-perm (p ∷ ps) qs)) (Perm.symm (perm_middle (p ∷ ps) qs)))
  ]

  pub merge_sorted-perm :
      (buf incoming : Buffer Body) → Perm (merge_sorted buf incoming) (buf ++ incoming)
  unfolding merge_sorted
  merge_sorted-perm buf [] = rw append-nil Perm.rfl
  merge_sorted-perm [] (q ∷ qs) = sort-perm (q ∷ qs)
  merge_sorted-perm (p ∷ ps) (q ∷ qs) =
      Perm.trans (merge-perm (p ∷ ps) (sort (q ∷ qs)))
        (Perm.append_left (p ∷ ps) (sort-perm (q ∷ qs)))
