-- ===== src/Sources/Numbers.antt =====
-- What the reader thread puts on the queue.
use instant_ai_data_workflow.Prelude.{
  ℕ, ◌+◌, ◌≡◌, refl, sym, ap, ◌∙◌, inl, inr, max, true, false, ◌||◌, Option, none, some, List, [],
  ◌∷◌, ◌++◌, append_assoc, append-nil, map, ◌==◌, String, nat_eq, arith, leb, length, Bool-cases,
  All,
}
use instant_ai_data_workflow.Sources.{Sources}
use instant_ai_data_workflow.Sources.Reader.{
  Item, Emission, Moment, Reader, emit_batch, make_item, add_item, read_rows, reader_thread,
}

-- The items of the batches of a queue.
unfoldable pub items_of {ℓ} : {A : Type ℓ} → List (Option (List A)) → List A
items_of [] = []
items_of (none ∷ q) = items_of q
items_of (some b ∷ q) = b ++ items_of q

-- The stop event is not set, and the batch is taken.
unfoldable pub Quiet : Emission → Type 0
Quiet e = (e.stopped ≡ false) × (e.taken ≡ true)

-- The stop event is not set at a row.
unfoldable pub Undisturbed : Moment → Type 0
Undisturbed m = (m.stop ≡ false) × Quiet m.emission

items_of-append {ℓ} :
    {A : Type ℓ} (p q : List (Option (List A))) → items_of (p ++ q) ≡ items_of p ++ items_of q
unfolding items_of
items_of-append [] q = refl
items_of-append (none ∷ p) q = items_of-append p q
items_of-append (some b ∷ p) q =
    ap (λ xs. b ++ xs) (items_of-append p q) ∙ sym (append_assoc b (items_of p) (items_of q))

append_batch {ℓ} :
    {A : Type ℓ} (bs : List A) (b : A) → map some bs ++ some b ∷ [] ≡ map some (bs ++ b ∷ [])
append_batch [] b = refl
append_batch (x ∷ xs) b = ap (λ ys. some x ∷ ys) (append_batch xs b)

-- Messages that are all batches.
Batched {ℓ} : {A : Type ℓ} → List (Option (List A)) → Type ℓ
Batched {A = A} q = (batches : List (List A)) × (q ≡ map some batches)

Batched-append {ℓ} :
    {A : Type ℓ} (q : List (Option (List A))) (b : List A) → Batched q → Batched (q ++ some b ∷ [])
unfolding Batched
Batched-append q b (batches, eq) =
    (batches ++ b ∷ [], ap (λ xs. xs ++ some b ∷ []) eq ∙ append_batch batches b)

length-zero {ℓ} : {A : Type ℓ} (xs : List A) → (length xs == 0) ≡ true → xs ≡ []
length-zero [] empty = refl
length-zero (x ∷ xs) empty = absurd (ground (arith, empty))

module _ {Json Provenance : Type 0} (parse : String → Option Json)
    (provenance_for : Json → String → Option Provenance) (checksum : String → String)
    (decimal : ℕ → String) where
  -- The items of rows, numbered from `seq` on.
  unfoldable pub items_from : ℕ → List Moment → List (Item Json Provenance)
  unfolding make_item
  items_from seq [] = []
  items_from seq (m ∷ ms) =
      make_item parse provenance_for checksum decimal seq m.row ∷ items_from (seq + 1) ms

module _ {Json Provenance : Type 0} (stream_batch chunk_size : ℕ) where
  -- The items that the thread has made: those on the queue and those of its batch.
  made : Reader Json Provenance → List (Item Json Provenance)
  made r = items_of r.read_queue ++ r.batch

  emit_batch-made :
      (e : Emission) (r : Reader Json Provenance)
      → Quiet e
      → (made (emit_batch stream_batch chunk_size e r) ≡ made r)
        × ((emit_batch stream_batch chunk_size e r).batch ≡ [])
        × ((emit_batch stream_batch chunk_size e r).seq ≡ r.seq)
  unfolding made emit_batch Quiet items_of
  emit_batch-made e r (running, taken) = elim (Bool-cases (length r.batch == 0)) [
    | inl empty ↦ rw (emit_batch, empty) (refl, length-zero r.batch empty, refl)
    | inr more ↦
        rw (emit_batch, more, running, taken)
          (
            append-nil (items_of (r.read_queue ++ some r.batch ∷ []))
                ∙ items_of-append r.read_queue (some r.batch ∷ [])
                ∙ ap (λ xs. items_of r.read_queue ++ xs) (append-nil r.batch),
            refl,
            refl,
          )
  ]

  emit_batch-Batched :
      (e : Emission) (r : Reader Json Provenance)
      → Batched r.read_queue
      → Batched (emit_batch stream_batch chunk_size e r).read_queue
  unfolding emit_batch
  emit_batch-Batched e r b = elim (Bool-cases ((length r.batch == 0) || e.stopped)) [
    | inl early ↦ rw (emit_batch, early) b
    | inr due ↦ elim (Bool-cases e.taken) [
      | inl put ↦ rw (emit_batch, due, put) (Batched-append r.read_queue r.batch b)
      | inr lost ↦ rw (emit_batch, due, lost) b
    ]
  ]

  module _ (parse : String → Option Json) (provenance_for : Json → String → Option Provenance)
      (checksum : String → String) (decimal : ℕ → String) where
    add_item-made :
        (m : Moment) (r : Reader Json Provenance)
        → Quiet m.emission
        → let after = add_item stream_batch chunk_size parse provenance_for checksum decimal m r in
          (made after ≡ made r ++ make_item parse provenance_for checksum decimal r.seq m.row ∷ [])
          × (after.seq ≡ r.seq + 1)
    unfolding add_item made
    add_item-made m r quiet =
        let added : Reader Json Provenance = record r {
          batch = r.batch ++ make_item parse provenance_for checksum decimal r.seq m.row ∷ [];
          seq = r.seq + 1;
        } in
        let joined : made added
            ≡ made r ++ make_item parse provenance_for checksum decimal r.seq m.row ∷ [] =
          sym (
            append_assoc (items_of r.read_queue) r.batch
              (make_item parse provenance_for checksum decimal r.seq m.row ∷ [])) in
        elim (Bool-cases (leb added.batch_target (length added.batch) || m.late)) [
          | inl due ↦
              let (same, empty, seq) = emit_batch-made m.emission added quiet in
              rw (add_item, due) (same ∙ joined, seq)
          | inr early ↦ rw (add_item, early) (joined, refl)
        ]

    read_rows-made :
        (ms : List Moment) (r : Reader Json Provenance)
        → All Undisturbed ms
        → made (read_rows stream_batch chunk_size parse provenance_for checksum decimal ms r)
          ≡ made r ++ items_from parse provenance_for checksum decimal r.seq ms
    unfolding read_rows items_from Undisturbed
    read_rows-made [] r calm = sym (append-nil (made r))
    read_rows-made (m ∷ ms) r ((going, quiet), calm) =
        let after = add_item stream_batch chunk_size parse provenance_for checksum decimal m r in
        let (one, seq) = add_item-made m r quiet in
        rw (read_rows, going)
          (read_rows-made ms after calm
            ∙ ap (λ (n : ℕ). made after ++ items_from parse provenance_for checksum decimal n ms)
                seq
            ∙ ap (λ xs. xs ++ items_from parse provenance_for checksum decimal (r.seq + 1) ms) one
            ∙ append_assoc (made r) _
                (items_from parse provenance_for checksum decimal (r.seq + 1) ms))

    add_item-Batched :
        (m : Moment) (r : Reader Json Provenance)
        → Batched r.read_queue
        → Batched
            (add_item stream_batch chunk_size parse provenance_for checksum decimal m r).read_queue
    unfolding add_item
    add_item-Batched m r b =
        let added : Reader Json Provenance = record r {
          batch = r.batch ++ make_item parse provenance_for checksum decimal r.seq m.row ∷ [];
          seq = r.seq + 1;
        } in
        elim (Bool-cases (leb added.batch_target (length added.batch) || m.late)) [
          | inl due ↦ rw (add_item, due) (emit_batch-Batched m.emission added b)
          | inr early ↦ rw (add_item, early) b
        ]

    read_rows-Batched :
        (ms : List Moment) (r : Reader Json Provenance)
        → Batched r.read_queue
        → Batched
            (read_rows stream_batch chunk_size parse provenance_for checksum decimal ms
              r).read_queue
    unfolding read_rows
    read_rows-Batched [] r b = b
    read_rows-Batched (m ∷ ms) r b =
        let after = add_item stream_batch chunk_size parse provenance_for checksum decimal m r in
        elim (Bool-cases m.stop) [
          | inl stop ↦ rw (read_rows, stop) b
          | inr going ↦ rw (read_rows, going) (read_rows-Batched ms after (add_item-Batched m r b))
        ]

    -- If the stop event is never set and the queue takes each batch, however often it was full
    -- before, then the reader thread puts batches on the queue and then the sentinel, once and
    -- last; and the batches hold, one after the other, one item for each row that the sources
    -- yield, in their order, with the sequence numbers 0, 1, 2, …
    pub reader_thread-items :
        (moments : List Moment) (last : Emission) (interleaved : Sources)
        → All Undisturbed moments
        → Quiet last
        → let r =
            (reader_thread stream_batch chunk_size parse provenance_for checksum decimal moments
              last interleaved).0 in
          (items_of r.read_queue ≡ items_from parse provenance_for checksum decimal 0 moments)
          × (batches : List (List (Item Json Provenance))) × (r.read_queue
              ≡ map some batches ++ none ∷ [])
    unfolding reader_thread made items_of Batched
    reader_thread-items moments last interleaved calm quiet =
        let started : Reader Json Provenance = record {
          batch = [];
          seq = 0;
          batch_target = max 1 stream_batch;
          batches_emitted = 0;
          block_events = 0;
          read_queue = [];
        } in
        let read =
          read_rows stream_batch chunk_size parse provenance_for checksum decimal moments started in
        let (same, empty, seq) = emit_batch-made last read quiet in
        let (batches, all_batches) =
          emit_batch-Batched last read (read_rows-Batched moments started ([], refl)) in
        let final = emit_batch stream_batch chunk_size last read in
        (
          items_of-append final.read_queue (none ∷ [])
              ∙ ap (λ xs. items_of final.read_queue ++ xs) (sym empty)
              ∙ same
              ∙ read_rows-made moments started calm,
          batches,
          ap (λ q. q ++ none ∷ []) all_batches,
        )
