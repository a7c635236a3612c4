-- ===== src/Lanes.antt =====
-- src/indw/schedule/dispatch/lanes.py: the survivors of the fast stages, in three lanes by the size of
-- the document, each lane sorted by sequence number; and `lane_worker_slots` of
-- src/indw/schedule/config/tune.py.
--
-- A payload is its sequence number, the two places where its tier may stand, and a body. Python's
-- stable `list.sort` is `sort`.
pub mod Buffers
pub mod Sorted
pub mod Bisect
pub mod Routing
pub mod Picking
pub mod Shares
mod Examples
use instant_ai_data_workflow.Prelude.{
  ℕ, zero, suc, ◌+◌, ◌-◌, ◌/◌, min, max, Bool, true, false, ◌&&◌, Option, none, some, List, [], ◌∷◌,
  ◌++◌, ltb, leb, ◌==◌, if◌then◌else◌, length, take, drop, nat_eq, string_eq, String,
}

pub data Lane : Type 0 where
  normal large huge : Lane

abbrev pub all_lanes : List Lane
all_lanes = normal ∷ large ∷ huge ∷ []

-- `admission` is the tier of the admission record, if the payload has one.
pub record Payload (Body : Type 0) : Type 0 where
  pub seq : ℕ
  pub doc_tier : String
  pub admission : Option String
  pub body : Body

unfoldable pub lane_of_tier : String → Lane
lane_of_tier tier = if tier == "huge" then huge else if tier == "large" then large else normal

-- LaneWorkerSlots
pub record LaneWorkerSlots : Type 0 where
  pub normal_slots : ℕ
  pub large_slots : ℕ
  pub huge_slots : ℕ

unfoldable pub slot_limit : LaneWorkerSlots → Lane → ℕ
slot_limit s huge = s.huge_slots
slot_limit s large = s.large_slots
slot_limit s normal = s.normal_slots

-- `fast_share` is the test `tune.fast_worker_share >= 0.4`.
unfoldable pub lane_worker_slots : Bool → ℕ → LaneWorkerSlots
lane_worker_slots fast_share heavy_workers =
    let n = max 1 heavy_workers in
    let h = max 1 (n / 5) in
    let l = max 1 (n / 4) in
    let m = max 2 (n - h - l) in
    let wide = fast_share && leb n 8 in
    let m' = if wide then max m (n - 2) else m in
    let h' = if wide then min h 1 else h in
    let over = m' + l + h' - n in
    if n == 1
    then record { normal_slots = 1; large_slots = 1; huge_slots = 1 }
    else if n == 2
    then record { normal_slots = 2; large_slots = 1; huge_slots = 0 }
    else if leb n 4
    then record {
      normal_slots = max 2 (n - 1);
      large_slots = 1;
      huge_slots = if ltb n 4 then 0 else 1;
    }
    else record {
      normal_slots = if ltb 0 over then max 1 (m' - over) else m';
      large_slots = l;
      huge_slots = h';
    }

abbrev pub Buffer : Type 0 → Type 0
Buffer Body = List (Payload Body)

module _ {Body : Type 0} where
  -- `buf[i].seq`; the code reads inside the list only.
  unfoldable pub seq_at : Buffer Body → ℕ → ℕ
  seq_at [] i = 0
  seq_at (p ∷ ps) zero = p.seq
  seq_at (p ∷ ps) (suc i) = seq_at ps i

  -- The binary search of `_insert_sorted`: the final `lo`.
  unfoldable pub bisect : ℕ → Buffer Body → ℕ → ℕ → ℕ → ℕ
  bisect zero buf seq lo hi = lo
  bisect (suc fuel) buf seq lo hi =
      let mid = (lo + hi) / 2 in
      let right = bisect fuel buf seq (mid + 1) hi in
      let left = bisect fuel buf seq lo mid in
      if ltb lo hi then (if leb (seq_at buf mid) seq then right else left) else lo

  unfoldable pub insert_sorted : Buffer Body → Payload Body → Buffer Body
  unfolding bisect seq_at
  insert_sorted buf payload =
      let i = bisect (length buf) buf payload.seq 0 (length buf) in
      take i buf ++ payload ∷ drop i buf

  -- `incoming.sort(key=_survivor_seq)`: stable
  unfoldable pub insert : Payload Body → Buffer Body → Buffer Body
  insert p [] = p ∷ []
  insert p (q ∷ qs) = let rest = insert p qs in if leb p.seq q.seq then p ∷ q ∷ qs else q ∷ rest

  unfoldable pub sort : Buffer Body → Buffer Body
  unfolding insert
  sort [] = []
  sort (p ∷ ps) = insert p (sort ps)

  -- The two-pointer loop of `_merge_sorted`, over what is left of both lists, and its two tails.
  unfoldable pub merge : Buffer Body → Buffer Body → Buffer Body
  merge [] qs = qs
  merge (p ∷ ps) [] = p ∷ ps
  merge (p ∷ ps) (q ∷ qs) = elim (leb p.seq q.seq) [
    | true ↦ p ∷ merge ps (q ∷ qs)
    | false ↦ q ∷ merge (p ∷ ps) qs
  ]

  unfoldable pub merge_sorted : Buffer Body → Buffer Body → Buffer Body
  unfolding merge sort
  merge_sorted buf [] = buf
  merge_sorted [] (q ∷ qs) = sort (q ∷ qs)
  merge_sorted (p ∷ ps) (q ∷ qs) = merge (p ∷ ps) (sort (q ∷ qs))

  unfoldable pub survivor_lane : Payload Body → Lane
  unfolding lane_of_tier
  survivor_lane p =
      lane_of_tier
        (if p.doc_tier == "" then elim p.admission [ none ↦ "" | some t ↦ t ] else p.doc_tier)
