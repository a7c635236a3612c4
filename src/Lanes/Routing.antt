-- ===== src/Lanes/Routing.antt =====
-- Routing survivors to the lanes: nothing is lost, and each lane stays sorted.
use mathlib.Core.List.Perm
use mathlib.Core.List.{Perm, perm_middle}
use instant_ai_data_workflow.Prelude.{
  ℕ, suc, ◌+◌, ◌≤◌, ◌≡◌, ◌≢◌, refl, sym, ◌∙◌, subst, [], ◌∷◌, ◌++◌, arith, length, length-append,
  append-nil,
}
use instant_ai_data_workflow.Prelude.Perms.{perm-length}
use instant_ai_data_workflow.Lanes.{
  Lane, normal, large, huge, Payload, Buffer, insert_sorted, survivor_lane,
}
use instant_ai_data_workflow.Lanes.Buffers.{
  LaneBuffers, lane_buffer, with_lane, route_one, in_lane, merge_lane, route_many, total,
}
use instant_ai_data_workflow.Lanes.Sorted.{
  From, IsSorted, From-trans, merge_sorted-IsSorted, merge_sorted-perm,
}
use instant_ai_data_workflow.Lanes.Bisect.{UpTo, insert_sorted-splits}

module _ {Body : Type 0} where
  UpTo-From :
      (n : ℕ) (xs ys : Buffer Body) (p : Payload Body)
      → IsSorted (xs ++ ys)
      → UpTo p.seq xs
      → From (suc p.seq) ys
      → From n (xs ++ ys)
      → n ≤ p.seq
      → From n (xs ++ p ∷ ys) × IsSorted (xs ++ p ∷ ys)
  UpTo-From n [] ys p s u f g le = ((le, g), (From-trans p.seq (suc p.seq) ys (omega arith) f, s))
  UpTo-From n (x ∷ xs) ys p s u f g le =
      let rest = UpTo-From n xs ys p s.1 u.1 f g.1 le in
      let above = UpTo-From x.seq xs ys p s.1 u.1 f s.0 u.0 in ((g.0, rest.0), (above.0, rest.1))

  From-zero : (ps : Buffer Body) → From 0 ps
  From-zero [] = tt
  From-zero (p ∷ ps) = (omega arith, From-zero ps)

  pub insert_sorted-IsSorted :
      (buf : Buffer Body) (p : Payload Body) → IsSorted buf → IsSorted (insert_sorted buf p)
  insert_sorted-IsSorted buf p s =
      let (before, after, whole, placed, u, f) = insert_sorted-splits buf p s in
      rw placed
        (UpTo-From 0 before after p (rw whole s) u f (From-zero (before ++ after)) (omega arith)).1

  insert-perm_end :
      (before after : Buffer Body) (p : Payload Body)
      → Perm (before ++ p ∷ after) ((before ++ after) ++ p ∷ [])
  insert-perm_end before after p = Perm.trans (perm_middle before after) (
      Perm.symm (
        subst (λ t. Perm ((before ++ after) ++ p ∷ []) (p ∷ t)) (append-nil (before ++ after))
          (perm_middle (before ++ after) [])))

  pub insert_sorted-perm :
      (buf : Buffer Body) (p : Payload Body)
      → IsSorted buf
      → Perm (insert_sorted buf p) (buf ++ p ∷ [])
  insert_sorted-perm buf p s =
      let (before, after, whole, placed, u, f) = insert_sorted-splits buf p s in
      subst (λ t. Perm t (buf ++ p ∷ [])) (sym placed)
        (subst (λ t. Perm (before ++ p ∷ after) (t ++ p ∷ [])) whole
          (insert-perm_end before after p))

  abbrev pub AllSorted : LaneBuffers Body → Type 0
  AllSorted b = (lane : Lane) → IsSorted (lane_buffer b lane)

  -- A lane holds `buf` and is sorted.
  abbrev Holds : Buffer Body → Buffer Body → Type 0
  Holds buf content = IsSorted buf × Perm buf content

  Holds-same : (buf : Buffer Body) → IsSorted buf → Holds buf (buf ++ [])
  Holds-same buf s = (s, rw append-nil Perm.rfl)

  merge_lane_self :
      (b : LaneBuffers Body) (lane : Lane) (ps : Buffer Body)
      → IsSorted (lane_buffer b lane)
      → Holds (lane_buffer (merge_lane b lane ps) lane) (lane_buffer b lane ++ ps)
  unfolding merge_lane with_lane lane_buffer
  merge_lane_self b lane [] s = Holds-same (lane_buffer b lane) s
  merge_lane_self b normal (p ∷ ps) s =
      (merge_sorted-IsSorted b.normal_buf (p ∷ ps) s, merge_sorted-perm b.normal_buf (p ∷ ps))
  merge_lane_self b large (p ∷ ps) s =
      (merge_sorted-IsSorted b.large_buf (p ∷ ps) s, merge_sorted-perm b.large_buf (p ∷ ps))
  merge_lane_self b huge (p ∷ ps) s =
      (merge_sorted-IsSorted b.huge_buf (p ∷ ps) s, merge_sorted-perm b.huge_buf (p ∷ ps))

  merge_lane-ne :
      (b : LaneBuffers Body) (l m : Lane) (ps : Buffer Body)
      → l ≢ m
      → lane_buffer (merge_lane b l ps) m ≡ lane_buffer b m
  unfolding merge_lane with_lane lane_buffer
  merge_lane-ne b l m [] ne = refl
  merge_lane-ne b l m (p ∷ ps) ne = ground arith

  -- The three merges of `route_many`.
  abbrev merge_lanes : LaneBuffers Body → Buffer Body → LaneBuffers Body
  merge_lanes b ss =
      merge_lane (merge_lane (merge_lane b normal (in_lane normal ss)) large (in_lane large ss))
        huge (in_lane huge ss)

  merge_lanes-Holds :
      (b : LaneBuffers Body) (ss : Buffer Body) (m : Lane)
      → AllSorted b
      → Holds (lane_buffer (merge_lanes b ss) m) (lane_buffer b m ++ in_lane m ss)
  merge_lanes-Holds b ss normal s =
      rw
        (
          merge_lane-ne _ huge normal (in_lane huge ss) (λ e. cc),
          merge_lane-ne _ large normal (in_lane large ss) (λ e. cc),
        )
        (merge_lane_self b normal (in_lane normal ss) (s normal))
  merge_lanes-Holds b ss large s =
      let b₁ = merge_lane b normal (in_lane normal ss) in
      let same = merge_lane-ne b normal large (in_lane normal ss) (λ e. cc) in
      rw (merge_lane-ne _ huge large (in_lane huge ss) (λ e. cc), ← same)
        (merge_lane_self b₁ large (in_lane large ss) (rw same (s large)))
  merge_lanes-Holds b ss huge s =
      let b₁ = merge_lane b normal (in_lane normal ss) in
      let b₂ = merge_lane b₁ large (in_lane large ss) in
      let same : lane_buffer b₂ huge ≡ lane_buffer b huge =
        merge_lane-ne b₁ large huge (in_lane large ss) (λ e. cc)
        ∙ merge_lane-ne b normal huge (in_lane normal ss) (λ e. cc) in
      rw (← same) (merge_lane_self b₂ huge (in_lane huge ss) (rw same (s huge)))

  insert_sorted-Holds :
      (buf : Buffer Body) (p : Payload Body)
      → IsSorted buf
      → Holds (insert_sorted buf p) (buf ++ p ∷ [])
  insert_sorted-Holds buf p s = (insert_sorted-IsSorted buf p s, insert_sorted-perm buf p s)

  route_one-Holds :
      (b : LaneBuffers Body) (p : Payload Body) (l m : Lane)
      → survivor_lane p ≡ l
      → AllSorted b
      → Holds (lane_buffer (route_one b p) m) (lane_buffer b m ++ in_lane m (p ∷ []))
  unfolding route_one in_lane with_lane lane_buffer
  route_one-Holds b p normal normal e s =
      rw (e, route_one, in_lane) (insert_sorted-Holds b.normal_buf p (s normal))
  route_one-Holds b p large large e s =
      rw (e, route_one, in_lane) (insert_sorted-Holds b.large_buf p (s large))
  route_one-Holds b p huge huge e s =
      rw (e, route_one, in_lane) (insert_sorted-Holds b.huge_buf p (s huge))
  route_one-Holds b p l m e s = rw (e, route_one, in_lane) (Holds-same (lane_buffer b m) (s m))

  -- Routing sorted survivors or unsorted ones, one or many, leaves each lane sorted, and holding what
  -- it held before together with exactly the survivors of that lane.
  pub route_many-Holds :
      (b : LaneBuffers Body) (survivors : Buffer Body) (lane : Lane)
      → AllSorted b
      → IsSorted (lane_buffer (route_many b survivors) lane)
        × Perm
            (lane_buffer (route_many b survivors) lane)
            (lane_buffer b lane ++ in_lane lane survivors)
  unfolding route_many
  route_many-Holds b [] lane s = Holds-same (lane_buffer b lane) (s lane)
  route_many-Holds b (p ∷ []) lane s = route_one-Holds b p (survivor_lane p) lane refl s
  route_many-Holds b (p ∷ q ∷ ps) lane s = merge_lanes-Holds b (p ∷ q ∷ ps) lane s

  length-in_lane :
      (ss : Buffer Body)
      → length (in_lane normal ss) + length (in_lane large ss) + length (in_lane huge ss)
        ≡ length ss
  unfolding in_lane
  length-in_lane [] = refl
  length-in_lane (p ∷ ps) = ground (arith, length-in_lane ps)

  Holds-length :
      (buf xs ys : Buffer Body) → Holds buf (xs ++ ys) → length buf ≡ length xs + length ys
  Holds-length buf xs ys h = perm-length h.1 ∙ length-append xs ys

  -- From sorted lanes, routing grows the number of buffered payloads by the number of survivors.
  pub total-route_many :
      (b : LaneBuffers Body) (survivors : Buffer Body)
      → AllSorted b
      → total (route_many b survivors) ≡ total b + length survivors
  unfolding total lane_buffer
  total-route_many b ss s = omega (
    arith,
    length-in_lane ss,
    Holds-length _ b.normal_buf (in_lane normal ss) (route_many-Holds b ss normal s),
    Holds-length _ b.large_buf (in_lane large ss) (route_many-Holds b ss large s),
    Holds-length _ b.huge_buf (in_lane huge ss) (route_many-Holds b ss huge s),
  )
