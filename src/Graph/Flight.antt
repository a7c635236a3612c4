-- ===== src/Graph/Flight.antt =====
-- The survivors that wait in a lane or are at a heavy worker.
use instant_ai_data_workflow.Prelude.{
  ℕ, zero, suc, ◌+◌, ◌≡◌, inl, inr, refl, ap, ◌∙◌, Bool, true, false, ◌||◌, ◌&&◌, not, Option, none,
  some, List, [], ◌∷◌, ◌++◌, max, ltb, arith, if◌then◌else◌, nat_eq, Option-cases,
}
use instant_ai_data_workflow.Lanes.{
  all_lanes, Lane, normal, large, huge, Payload, Buffer, slot_limit,
}
use instant_ai_data_workflow.Lanes.Buffers.{
  LaneBuffers, lane_buffer, with_lane, total, empty, has_buffered_seq, pop_seq, pop_lanes,
  pop_target_seq, pick_lane_batch,
}
use instant_ai_data_workflow.Lanes.Picking.{pop_seq-perm, pick_lane_batch-splits}
use mathlib.Core.List.{Perm, perm_append_comm}
use mathlib.Core.List.Perm
use instant_ai_data_workflow.Prelude.{sym, subst, append_assoc, append-nil}
use instant_ai_data_workflow.Graph.{
  Alloc, Heavy, Graph, called, queue_full, pending_lane, dispatch_heavy_chunk, lane_loop, each_lane,
  submit_heavy_lanes,
}

-- The payloads of the batches at the heavy workers.
unfoldable pub sent_payloads : {Body : Type 0} → List (Heavy Body) → Buffer Body
sent_payloads [] = []
sent_payloads (h ∷ hs) = h.chunk ++ sent_payloads hs

-- The payloads that wait in a lane.
unfoldable pub waiting : {Body : Type 0} → LaneBuffers Body → Buffer Body
waiting b = b.normal_buf ++ (b.large_buf ++ b.huge_buf)

-- The survivors that wait in a lane or are at a heavy worker.
unfoldable pub in_flight : {Row Body Line : Type 0} → Graph Row Body Line → Buffer Body
unfolding waiting sent_payloads
in_flight s = waiting s.lane_buffers ++ sent_payloads s.pending_heavy

module _ {A : Type 0} where
  eq-perm : {xs ys : List A} → xs ≡ ys → Perm xs ys
  eq-perm {xs = xs} e = subst (λ (z : List A). Perm xs z) e Perm.rfl

  move_front : (xs ys zs : List A) → Perm (xs ++ (ys ++ zs)) (ys ++ (xs ++ zs))
  move_front xs ys zs =
      Perm.trans (eq-perm (sym (append_assoc xs ys zs))) (
        Perm.trans (Perm.append_right zs (perm_append_comm xs ys))
          (eq-perm (append_assoc ys xs zs)))

sent_payloads-append :
    {Body : Type 0} (hs : List (Heavy Body)) (h : Heavy Body)
    → sent_payloads (hs ++ h ∷ []) ≡ sent_payloads hs ++ h.chunk
unfolding sent_payloads
sent_payloads-append [] h = append-nil h.chunk
sent_payloads-append (k ∷ hs) h =
    ap (λ xs. k.chunk ++ xs) (sent_payloads-append hs h)
    ∙ sym (append_assoc k.chunk (sent_payloads hs) h.chunk)

module _ {Body : Type 0} where
  -- Payloads taken out of a lane, in whatever order.
  waiting-with_lane :
      (b : LaneBuffers Body) (lane : Lane) (batch rest : Buffer Body)
      → Perm (lane_buffer b lane) (batch ++ rest)
      → Perm (waiting b) (batch ++ waiting (with_lane b lane rest))
  unfolding waiting with_lane lane_buffer
  waiting-with_lane b normal batch rest p =
      Perm.trans (Perm.append_right (b.large_buf ++ b.huge_buf) p)
        (eq-perm (append_assoc batch rest (b.large_buf ++ b.huge_buf)))
  waiting-with_lane b large batch rest p =
      Perm.trans
        (Perm.append_left b.normal_buf (
          Perm.trans (Perm.append_right b.huge_buf p)
            (eq-perm (append_assoc batch rest b.huge_buf))))
        (move_front b.normal_buf batch (rest ++ b.huge_buf))
  waiting-with_lane b huge batch rest p =
      Perm.trans
        (Perm.append_left b.normal_buf
          (Perm.trans (Perm.append_left b.large_buf p) (move_front b.large_buf batch rest)))
        (move_front b.normal_buf batch (b.large_buf ++ rest))

  pop_lanes-waiting :
      (lanes : List Lane) (b : LaneBuffers Body) (target : ℕ) (p : Payload Body) (lane : Lane)
      (left : LaneBuffers Body)
      → pop_lanes lanes b target ≡ some (p, lane, left)
      → Perm (waiting b) (p ∷ waiting left)
  unfolding pop_lanes
  pop_lanes-waiting [] b target p lane left e = absurd (ground arith)
  pop_lanes-waiting (l ∷ ls) b target p lane left e =
      elim (Option-cases (pop_seq (lane_buffer b l) target)) [
        | inl absent ↦ pop_lanes-waiting ls b target p lane left (ground arith)
        | inr ((q, rest), found) ↦
            let taken = waiting-with_lane b l (q ∷ []) rest (pop_seq-perm _ target q rest found) in
            let same : with_lane b l rest ≡ left = ground arith in
            let same_p : q ≡ p = ground arith in rw (← same, ← same_p) taken
      ]

if_either :
    {A : Type 0} (P : A → Type 0) (b : Bool) (x y : A)
    → (b ≡ true → P x)
    → (b ≡ false → P y)
    → P (if b then x else y)
if_either P true x y p q = p refl
if_either P false x y p q = q refl

option_either :
    {A B : Type 0} (P : A → Type 0) (o : Option B) (x : A) (g : B → A)
    → P x
    → ((b : B) → o ≡ some b → P (g b))
    → P (elim o [ none ↦ x | some b ↦ g b ])
option_either P none x g p q = p
option_either P (some b) x g p q = q b refl

room_of : (b full : Bool) → (not b || full) ≡ false → full ≡ false
room_of true full e = e
room_of false full e = absurd (ground arith)

buffer_either :
    {A Body : Type 0} (P : A → Type 0) (l : Buffer Body) (x y : A)
    → P x
    → P y
    → P (elim l [ [] ↦ x | _ ∷ _ ↦ y ])
buffer_either P [] x y p q = p
buffer_either P (z ∷ zs) x y p q = q

module _ {Row Body Line : Type 0} (alloc : Alloc) (can_submit : ℕ → Bool)
    (always : (n : ℕ) → can_submit n ≡ true) where
  dispatch_heavy_chunk-in_flight :
      (chunk : Buffer Body) (lane : Lane) (head_priority : Bool) (s : Graph Row Body Line)
      → queue_full alloc can_submit s ≡ false
      → Perm
          (chunk ++ in_flight s)
          (in_flight (dispatch_heavy_chunk alloc can_submit chunk lane head_priority s).1)
  unfolding dispatch_heavy_chunk in_flight called
  dispatch_heavy_chunk-in_flight [] lane head_priority s room = Perm.rfl
  dispatch_heavy_chunk-in_flight (p ∷ ps) lane head_priority s room =
      let h : Heavy Body = record { hid = s.next_heavy_id; chunk = p ∷ ps; lane = lane } in
      let w = waiting s.lane_buffers in
      let sent = sent_payloads s.pending_heavy in
      rw (dispatch_heavy_chunk, room, always s.can_submit_calls)
        (Perm.trans (perm_append_comm (p ∷ ps) (w ++ sent)) (
          eq-perm (
            append_assoc w sent (p ∷ ps)
            ∙ ap (λ xs. w ++ xs) (sym (sent_payloads-append s.pending_heavy h)))))

  -- What was in flight before the survivors of a batch were taken out of the lanes is in flight when
  -- the batch is submitted.
  taken_and_sent :
      (s : Graph Row Body Line) (batch : Buffer Body) (lane : Lane) (head_priority : Bool)
      (left : LaneBuffers Body)
      → queue_full alloc can_submit s ≡ false
      → Perm (waiting s.lane_buffers) (batch ++ waiting left)
      → Perm (in_flight s) (
          in_flight
            (dispatch_heavy_chunk alloc can_submit batch lane head_priority
              (record (called alloc can_submit s) { lane_buffers = left })).1)
  unfolding in_flight called queue_full
  taken_and_sent s batch lane head_priority left room p =
      let s₂ : Graph Row Body Line = record s {
        can_submit_calls = s.can_submit_calls + 1;
        lane_buffers = left;
      } in
      let sent = sent_payloads s.pending_heavy in
      Perm.trans (Perm.append_right sent p) (
        Perm.trans (eq-perm (append_assoc batch (waiting left) sent))
          (dispatch_heavy_chunk-in_flight batch lane head_priority s₂ room))

  called-in_flight :
      (s : Graph Row Body Line) → Perm (in_flight s) (in_flight (called alloc can_submit s))
  unfolding called in_flight
  called-in_flight s = Perm.rfl

  lane_loop-in_flight :
      (fuel gap : ℕ) (lane : Lane) (s : Graph Row Body Line)
      → Perm (in_flight s) (in_flight (lane_loop alloc can_submit fuel gap lane s))
  unfolding lane_loop
  lane_loop-in_flight zero gap lane s = Perm.rfl
  lane_loop-in_flight (suc fuel) gap lane s =
      let slot =
        ltb (pending_lane lane s.pending_heavy) (max 1 (slot_limit alloc.lane_slots lane)) in
      let stop = not (can_submit s.can_submit_calls) || queue_full alloc can_submit s in
      let buf = lane_buffer s.lane_buffers lane in
      let picked = pick_lane_batch buf lane alloc.heavy_batch gap (some alloc.heavy_batch) in
      let s₂ : Graph Row Body Line = record (called alloc can_submit s) {
        lane_buffers = with_lane s.lane_buffers lane picked.1;
      } in
      let sent = dispatch_heavy_chunk alloc can_submit picked.0 lane false s₂ in
      let rest = lane_loop alloc can_submit fuel gap lane sent.1 in
      let keeps : Graph Row Body Line → Type 0 = λ t. Perm (in_flight s) (in_flight t) in
      let go_on = if sent.0 then rest else sent.1 in
      let tried = if stop then called alloc can_submit s else go_on in
      buffer_either keeps buf s (if slot then tried else s) Perm.rfl (
        if_either keeps slot tried s
          (λ free.
            if_either keeps stop (called alloc can_submit s) go_on (λ refused. called-in_flight s)
              (λ allowed.
                let front =
                  pick_lane_batch-splits buf lane alloc.heavy_batch gap (some alloc.heavy_batch) in
                let out =
                  waiting-with_lane s.lane_buffers lane picked.0 picked.1 (eq-perm (sym front)) in
                let room = room_of (can_submit s.can_submit_calls) _ allowed in
                let round =
                  taken_and_sent s picked.0 lane false (with_lane s.lane_buffers lane picked.1) room
                    out in
                if_either keeps sent.0 rest sent.1
                  (λ submitted. Perm.trans round (lane_loop-in_flight fuel gap lane sent.1))
                  (λ unsent. round)))
          (λ busy. Perm.rfl))

  each_lane-in_flight :
      (lanes : List Lane) (gap : ℕ) (s : Graph Row Body Line)
      → Perm (in_flight s) (in_flight (each_lane alloc can_submit lanes gap s))
  unfolding each_lane
  each_lane-in_flight [] gap s = Perm.rfl
  each_lane-in_flight (lane ∷ lanes) gap s =
      Perm.trans (lane_loop-in_flight _ gap lane s) (each_lane-in_flight lanes gap _)

  -- Where `can_submit` always agrees, `_submit_heavy_lanes` loses no survivor and submits none twice:
  -- the survivors that wait in a lane or are at a heavy worker are the same afterwards, each as often,
  -- whatever the gap, the next number and the state.
  pub submit_heavy_lanes-in_flight :
      (gap head : ℕ) (s : Graph Row Body Line)
      → Perm (in_flight s) (in_flight (submit_heavy_lanes alloc can_submit gap head s))
  unfolding submit_heavy_lanes pop_target_seq
  submit_heavy_lanes-in_flight gap head s =
      let s₁ = called alloc can_submit s in
      let everywhere = each_lane alloc can_submit (normal ∷ large ∷ huge ∷ []) gap s₁ in
      let all =
        Perm.trans (called-in_flight s) (each_lane-in_flight (normal ∷ large ∷ huge ∷ []) gap s₁) in
      let keeps : Graph Row Body Line → Type 0 = λ t. Perm (in_flight s) (in_flight t) in
      let full = queue_full alloc can_submit s in
      let refused = not (can_submit s.can_submit_calls) || empty s.lane_buffers in
      let held = ltb alloc.survivor_cap (total s.lane_buffers) && ltb 0 gap in
      let behind = ltb 0 gap && has_buffered_seq s.lane_buffers head in
      let found = pop_target_seq s.lane_buffers head in
      let send : Payload Body × Lane × LaneBuffers Body → Graph Row Body Line = λ r.
        (dispatch_heavy_chunk alloc can_submit (r.0 ∷ []) r.1 true
          (record s₁ { lane_buffers = r.2 })).1 in
      let first : Graph Row Body Line = elim found [ none ↦ everywhere | some r ↦ send r ] in
      let chosen = if behind then first else everywhere in
      let open_gate = if held then s₁ else chosen in
      let asked = if refused then s₁ else open_gate in
      if_either keeps full s asked (λ e. Perm.rfl)
        (λ room.
          if_either keeps refused s₁ open_gate (λ e. called-in_flight s)
            (λ e₁.
              if_either keeps held s₁ chosen (λ e. called-in_flight s)
                (λ e₂.
                  if_either keeps behind first everywhere
                    (λ e. option_either keeps found everywhere send all (λ r is_found.
                      taken_and_sent s (r.0 ∷ []) r.1 true r.2 room
                        (pop_lanes-waiting all_lanes s.lane_buffers head r.0 r.1 r.2 is_found)))
                    (λ e. all))))
