-- ===== src/Spool/Fifo.antt =====
-- The spool queue against a queue that is a list of messages.
use instant_ai_data_workflow.Prelude.{
  ℕ, ◌+◌, ◌≤◌, ◌<◌, ◌≡◌, inl, inr, refl, ap, ◌∙◌, ◌||◌, List, [], ◌∷◌, ◌++◌, ltb, ◌==◌, arith,
  if◌then◌else◌, length, map, nat_eq, Bool-cases, Option-cases, Option, none, some, String, All,
}
use instant_ai_data_workflow.Prelude.Dict.{Dict, get, put, remove}
use instant_ai_data_workflow.Spool.{
  Spool, Reply, stored, queue_full, queue_empty, put_raised, message, Request, put_item, get_item,
  open_spool, write_message, spool_put, spool_get, replies,
}

module _ {Msg : Type 0} (dumps : Msg → Option String) where
  -- What a queue that is a list does with a message for which it has room: it refuses one without a
  -- text.
  unfoldable pub list_put : Option String → Msg → List Msg → Reply Msg × List Msg
  list_put none m q = (put_raised, q)
  list_put (some text) m q = (stored, q ++ m ∷ [])

  -- The specification: a first-in first-out list, bounded unless `maxsize` is 0.
  unfoldable pub list_handle : ℕ → Request Msg → List Msg → Reply Msg × List Msg
  unfolding list_put
  list_handle maxsize (put_item m) q =
      if maxsize == 0 || ltb (length q) maxsize then list_put (dumps m) m q else (queue_full, q)
  list_handle maxsize get_item [] = (queue_empty, [])
  list_handle maxsize get_item (m ∷ q) = (message m, q)

  unfoldable pub list_replies : ℕ → List (Request Msg) → List Msg → List (Reply Msg)
  unfolding list_handle
  list_replies maxsize [] q = []
  list_replies maxsize (r ∷ rs) q =
      let (reply, q') = list_handle maxsize r q in reply ∷ list_replies maxsize rs q'

module _ {Msg : Type 0} (dumps : Msg → Option String) (loads : String → Option Msg) where
  -- The text of the message, if it has one, is read as the message itself.
  unfoldable pub ReadsBack : Request Msg → Type 0
  ReadsBack (put_item m) = (text : String) → dumps m ≡ some text → loads text ≡ some m
  ReadsBack get_item = Unit

  -- The files hold the messages of the list, one each. Their numbers go up, all of them behind `low` and
  -- none behind `high`.
  Holding : ℕ → ℕ → Dict ℕ String → List Msg → Type 0
  Holding low high [] [] = low ≤ high
  Holding low high [] (m ∷ q) = ⊥
  Holding low high ((n, text) ∷ d) [] = ⊥
  Holding low high ((n, text) ∷ d) (m ∷ q) = (low < n) × (loads text ≡ some m) × Holding n high d q

  names : Dict ℕ String → List ℕ
  names d = map (λ p. p.0) d

  -- The spool whose pending names are those of its files.
  listed : ℕ → ℕ → Dict ℕ String → Spool
  listed maxsize seq d = record { maxsize = maxsize; seq = seq; pending = names d; files = d }

  Holding-le : (low high : ℕ) (d : Dict ℕ String) (q : List Msg) → Holding low high d q → low ≤ high
  unfolding Holding
  Holding-le low high [] [] h = h
  Holding-le low high [] (m ∷ q) h = absurd h
  Holding-le low high ((n, text) ∷ d) [] h = absurd h
  Holding-le low high ((n, text) ∷ d) (m ∷ q) h = omega (arith, h.0, Holding-le n high d q h.2)

  Holding-raise :
      (low high : ℕ) (d : Dict ℕ String) (q : List Msg)
      → Holding low high d q
      → Holding low (high + 1) d q
  unfolding Holding
  Holding-raise low high [] [] h = omega (arith, h)
  Holding-raise low high [] (m ∷ q) h = h
  Holding-raise low high ((n, text) ∷ d) [] h = h
  Holding-raise low high ((n, text) ∷ d) (m ∷ q) h = (h.0, h.1, Holding-raise n high d q h.2)

  Holding-lower :
      (low low' high : ℕ) (d : Dict ℕ String) (q : List Msg)
      → low' ≤ low
      → Holding low high d q
      → Holding low' high d q
  unfolding Holding
  Holding-lower low low' high [] [] le h = omega (arith, h)
  Holding-lower low low' high [] (m ∷ q) le h = h
  Holding-lower low low' high ((n, text) ∷ d) [] le h = h
  Holding-lower low low' high ((n, text) ∷ d) (m ∷ q) le h = (omega (arith, h.0), h.1, h.2)

  put_behind :
      (low high : ℕ) (d : Dict ℕ String) (q : List Msg) (text : String)
      → Holding low high d q
      → put d (high + 1) text ≡ d ++ (high + 1, text) ∷ []
  unfolding put Holding
  put_behind low high [] q text h = refl
  put_behind low high ((n, old) ∷ d) [] text h = absurd h
  put_behind low high ((n, old) ∷ d) (m ∷ q) text h =
      ground (arith, put_behind n high d q text h.2, Holding-le n high d q h.2)

  Holding-put :
      (low high : ℕ) (d : Dict ℕ String) (q : List Msg) (text : String) (m : Msg)
      → loads text ≡ some m
      → Holding low high d q
      → Holding low (high + 1) (d ++ (high + 1, text) ∷ []) (q ++ m ∷ [])
  unfolding Holding
  Holding-put low high [] [] text m reads h = (omega (arith, h), reads, omega arith)
  Holding-put low high [] (m' ∷ q) text m reads h = absurd h
  Holding-put low high ((n, old) ∷ d) [] text m reads h = absurd h
  Holding-put low high ((n, old) ∷ d) (m' ∷ q) text m reads h =
      (h.0, h.1, Holding-put n high d q text m reads h.2)

  remove_before :
      (n low high : ℕ) (d : Dict ℕ String) (q : List Msg)
      → n ≤ low
      → Holding low high d q
      → remove d n ≡ d
  unfolding remove Holding
  remove_before n low high [] q le h = refl
  remove_before n low high ((k, text) ∷ d) [] le h = absurd h
  remove_before n low high ((k, text) ∷ d) (m ∷ q) le h =
      ground (arith, remove_before n k high d q (omega (arith, h.0)) h.2, h.0)

  names-append :
      (d : Dict ℕ String) (n : ℕ) (text : String) → names (d ++ (n, text) ∷ []) ≡ names d ++ n ∷ []
  unfolding names
  names-append [] n text = refl
  names-append ((k, old) ∷ d) n text = ap (λ x. k ∷ x) (names-append d n text)

  length-names :
      (low high : ℕ) (d : Dict ℕ String) (q : List Msg)
      → Holding low high d q
      → length (names d) ≡ length q
  unfolding names Holding
  length-names low high [] [] h = refl
  length-names low high [] (m ∷ q) h = absurd h
  length-names low high ((n, text) ∷ d) [] h = absurd h
  length-names low high ((n, text) ∷ d) (m ∷ q) h = omega (arith, length-names n high d q h.2)

  get-listed_nil :
      (maxsize seq : ℕ)
      → spool_get dumps loads (listed maxsize seq []) ≡ (queue_empty, listed maxsize seq [])
  unfolding spool_get listed names
  get-listed_nil maxsize seq = refl

  get-listed_cons :
      (maxsize seq n : ℕ) (text : String) (m : Msg) (d : Dict ℕ String) (q : List Msg)
      → loads text ≡ some m
      → Holding n seq d q
      → spool_get dumps loads (listed maxsize seq ((n, text) ∷ d))
        ≡ (message m, listed maxsize seq d)
  unfolding spool_get listed names get remove
  get-listed_cons maxsize seq n text m d q reads h =
      ground (arith, reads, remove_before n n seq d q (omega arith) h)

  put-listed :
      (maxsize seq : ℕ) (d : Dict ℕ String) (q : List Msg) (m : Msg)
      → Holding 0 seq d q
      → spool_put dumps loads m (listed maxsize seq d) ≡ (
          if maxsize == 0 || ltb (length q) maxsize
          then write_message dumps loads (dumps m) (listed maxsize seq d)
          else (queue_full, listed maxsize seq d))
  unfolding spool_put listed
  put-listed maxsize seq d q m h = rw (length-names 0 seq d q h) refl

  write-listed :
      (maxsize seq : ℕ) (d : Dict ℕ String) (q : List Msg) (text : String)
      → Holding 0 seq d q
      → write_message dumps loads (some text) (listed maxsize seq d)
        ≡ (stored, listed maxsize (seq + 1) (d ++ (seq + 1, text) ∷ []))
  unfolding write_message listed
  write-listed maxsize seq d q text h =
      rw (put_behind 0 seq d q text h, names-append d (seq + 1) text) refl

  write-raised :
      (maxsize seq : ℕ) (d : Dict ℕ String)
      → write_message dumps loads none (listed maxsize seq d)
        ≡ (put_raised, listed maxsize (seq + 1) d)
  unfolding write_message listed
  write-raised maxsize seq d = refl

  replies-listed :
      (rs : List (Request Msg)) (maxsize seq : ℕ) (d : Dict ℕ String) (q : List Msg)
      → All ReadsBack rs
      → Holding 0 seq d q
      → (replies dumps loads rs (listed maxsize seq d)).0 ≡ list_replies dumps maxsize rs q
  unfolding replies list_replies Holding ReadsBack list_handle
  replies-listed [] maxsize seq d q back h = refl
  replies-listed (get_item ∷ rs) maxsize seq [] [] back h =
      rw (get-listed_nil maxsize seq)
        (ap (λ x. queue_empty ∷ x) (replies-listed rs maxsize seq [] [] back.1 h))
  replies-listed (get_item ∷ rs) maxsize seq [] (m ∷ q) back h = absurd h
  replies-listed (get_item ∷ rs) maxsize seq ((n, text) ∷ d) [] back h = absurd h
  replies-listed (get_item ∷ rs) maxsize seq ((n, text) ∷ d) (m ∷ q) back h =
      rw (get-listed_cons maxsize seq n text m d q h.1 h.2) (
        ap (λ x. message m ∷ x)
          (replies-listed rs maxsize seq d q back.1 (Holding-lower n 0 seq d q (omega arith) h.2)))
  replies-listed (put_item m ∷ rs) maxsize seq d q back h =
      elim (Bool-cases (maxsize == 0 || ltb (length q) maxsize)) [
        | inl room ↦ elim (Option-cases (dumps m)) [
          | inl raised ↦
              let p : spool_put dumps loads m (listed maxsize seq d)
                  ≡ (put_raised, listed maxsize (seq + 1) d) =
                put-listed maxsize seq d q m h ∙ rw (room, raised) (write-raised maxsize seq d) in
              let l : list_handle dumps maxsize (put_item m) q ≡ (put_raised, q) =
                rw (list_handle, room, raised) refl in
              rw (p, l)
                (ap (λ x. put_raised ∷ x)
                  (replies-listed rs maxsize (seq + 1) d q back.1 (Holding-raise 0 seq d q h)))
          | inr (text, given) ↦
              let d' = d ++ (seq + 1, text) ∷ [] in
              let p : spool_put dumps loads m (listed maxsize seq d)
                  ≡ (stored, listed maxsize (seq + 1) d') =
                put-listed maxsize seq d q m h
                ∙ rw (room, given) (write-listed maxsize seq d q text h) in
              let l : list_handle dumps maxsize (put_item m) q ≡ (stored, q ++ m ∷ []) =
                rw (list_handle, room, given) refl in
              rw (p, l)
                (ap (λ x. stored ∷ x)
                  (replies-listed rs maxsize (seq + 1) d' (q ++ m ∷ []) back.1
                    (Holding-put 0 seq d q text m (back.0 text given) h)))
        ]
        | inr full ↦
            let p : spool_put dumps loads m (listed maxsize seq d)
                ≡ (queue_full, listed maxsize seq d) =
              put-listed maxsize seq d q m h ∙ rw full refl in
            let l : list_handle dumps maxsize (put_item m) q ≡ (queue_full, q) =
              rw (list_handle, full) refl in
            rw (p, l) (ap (λ x. queue_full ∷ x) (replies-listed rs maxsize seq d q back.1 h))
      ]

  -- Opened on an empty directory, the spool queue answers every sequence of requests as the
  -- first-in first-out list of the same bound, where each message put that has a text is read back from
  -- its text: no message is lost, repeated, changed or out of order, and one without a text is refused
  -- and leaves the queue as it was.
  pub replies-list_replies :
      (rs : List (Request Msg)) (maxsize : ℕ)
      → All ReadsBack rs
      → (replies dumps loads rs (open_spool maxsize [])).0 ≡ list_replies dumps maxsize rs []
  unfolding listed names Holding
  replies-list_replies rs maxsize back = replies-listed rs maxsize 0 [] [] back (omega arith)
