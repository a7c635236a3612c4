-- ===== src/Sources/Whole.antt =====
-- The lines that the reading of the sources yields, source by source.
use instant_ai_data_workflow.Prelude.{
  ℕ, zero, suc, ◌+◌, ◌≡◌, refl, sym, ap, subst, ◌∙◌, inl, inr, true, false, Option, none, some,
  List, [], ◌∷◌, ◌++◌, append_assoc, ◌==◌, if◌then◌else◌, String, nat_eq, string_eq, arith,
  Bool-cases,
}
use instant_ai_data_workflow.Prelude.Dict.{Dict, get, put, get-put}
use instant_ai_data_workflow.Sources.{
  Handle, Sources, Row, scheduled, read_line, turn, with_row, loop,
}
use instant_ai_data_workflow.Sources.Turns.{
  total, alive, Running, turn-idle, turn-live, ticked-Running, read_line-Running, live_or_idle,
}

-- The rows of one source.
unfoldable pub of_source : String → List Row → List Row
of_source name [] = []
of_source name (r ∷ rows) = if r.name == name then r ∷ of_source name rows else of_source name rows

-- Lines as rows, with the numbers from `line_no` on.
unfoldable pub numbered : String → String → ℕ → List String → List Row
numbered name path line_no [] = []
numbered name path line_no (line ∷ lines) =
    record { name = name; path = path; line_no = line_no; line = line }
    ∷ numbered name path (line_no + 1) lines

unfoldable pub handle_rows : String → Handle → List Row
unfolding numbered
handle_rows name h = if h.exhausted then [] else numbered name h.path h.next_no h.left

-- The rows of a source that are still to come.
unfoldable pub pending : String → Dict String Handle → List Row
unfolding handle_rows
pending name d = elim (get d name) [ none ↦ [] | some h ↦ handle_rows name h ]

-- What a turn yields of a source is what it takes from the rows to come.
Takes : String → Option Row × (Sources × ℕ) → Dict String Handle → Type 0
Takes name t d = of_source name (with_row t.0 []) ++ pending name t.1.0.handles ≡ pending name d

pub pending-put :
    (name : String) (d : Dict String Handle) (key : String) (new : Handle)
    → pending name (put d key new) ≡ (if key == name then handle_rows name new else pending name d)
unfolding pending
pending-put name d key new = elim (Bool-cases (key == name)) [
  | inl same ↦ rw (pending, get-put d key new name, same) refl
  | inr apart ↦ rw (pending, get-put d key new name, apart) refl
]

pending-found :
    (d : Dict String Handle) (name : String) (h : Handle)
    → get d name ≡ some h
    → pending name d ≡ handle_rows name h
unfolding pending
pending-found d name h found = rw (pending, found) refl

read_line-Takes :
    (s : Sources) (active : ℕ) (key : String) (h : Handle)
    → get s.handles key ≡ some h
    → h.exhausted ≡ false
    → (left : List String) → h.left ≡ left
    → (name : String) → Takes name (read_line key h left s active) s.handles
unfolding Takes read_line of_source with_row handle_rows
read_line-Takes s active key h found live [] eq name =
    let new : Handle = record h { exhausted = true } in
    pending-put name s.handles key new ∙ elim (Bool-cases (key == name)) [
      | inl same ↦
          let k : key ≡ name = ground (arith, string_eq.same_key_iff key name, same) in
          let none_left : handle_rows name h ≡ [] = rw (handle_rows, live, eq) refl in
          let before =
            pending-found s.handles name h (subst (λ n. get s.handles n ≡ some h) k found) in
          rw same (sym none_left ∙ sym before)
      | inr apart ↦ rw apart refl
    ]
read_line-Takes s active key h found live (line ∷ left) eq name =
    let new : Handle = record h { left = left; next_no = h.next_no + 1 } in
    elim (Bool-cases (key == name)) [
      | inl same ↦
          let k : key ≡ name = ground (arith, string_eq.same_key_iff key name, same) in
          let first : Row = record {
            name = name;
            path = h.path;
            line_no = h.next_no;
            line = line;
          } in
          let one_less : first ∷ handle_rows name new ≡ handle_rows name h =
            rw (handle_rows, live, eq) refl in
          let before =
            pending-found s.handles name h (subst (λ n. get s.handles n ≡ some h) k found) in
          rw (same, pending-put name s.handles key new, same)
            (ap
                (λ (n : String).
                  record { name = n; path = h.path; line_no = h.next_no; line = line }
                  ∷ handle_rows name new)
                k
              ∙ one_less
              ∙ sym before)
      | inr apart ↦ rw (apart, pending-put name s.handles key new, apart) refl
    ]

turn-Takes : (s : Sources) (active : ℕ) (name : String) → Takes name (turn s active) s.handles
unfolding Takes with_row of_source
turn-Takes s active name = elim (live_or_idle s) [
  | inl (h, found, live) ↦
      subst (λ (t : Option Row × (Sources × ℕ)). Takes name t s.handles)
        (sym (turn-live s active h found live))
        (read_line-Takes (record s { tick = s.tick + 1 }) active (scheduled s.schedule s.tick) h
          found live h.left refl name)
  | inr idle ↦
      subst (λ (t : Option Row × (Sources × ℕ)). Takes name t s.handles)
        (sym (turn-idle s active idle)) refl
]

turn-Running :
    (s : Sources) (active : ℕ) → Running s active → Running (turn s active).1.0 (turn s active).1.1
turn-Running s active r = elim (live_or_idle s) [
  | inl (h, found, live) ↦
      subst (λ (t : Option Row × (Sources × ℕ)). Running t.1.0 t.1.1)
        (sym (turn-live s active h found live))
        ((read_line-Running (record s { tick = s.tick + 1 }) active (scheduled s.schedule s.tick) h
          (ticked-Running s active r) found live h.left refl).0)
  | inr idle ↦
      subst (λ (t : Option Row × (Sources × ℕ)). Running t.1.0 t.1.1)
        (sym (turn-idle s active idle)) (ticked-Running s active r)
]

pub loop-Running :
    (fuel : ℕ) (s : Sources) (active : ℕ)
    → Running s active
    → Running (loop fuel s active).1.0 (loop fuel s active).1.1
unfolding loop
loop-Running zero s active r = r
loop-Running (suc fuel) s active r = elim (Bool-cases (active == 0)) [
  | inl stop ↦ rw (loop, stop) r
  | inr more ↦
      rw (loop, more)
        (loop-Running fuel (turn s active).1.0 (turn s active).1.1 (turn-Running s active r))
]

of_source-with_row :
    (name : String) (o : Option Row) (rows : List Row)
    → of_source name (with_row o rows) ≡ of_source name (with_row o []) ++ of_source name rows
unfolding of_source with_row
of_source-with_row name none rows = refl
of_source-with_row name (some r) rows = elim (Bool-cases (r.name == name)) [
  | inl same ↦ rw same refl
  | inr apart ↦ rw apart refl
]

-- What was yielded of a source and what is still to come are what was to come, however long the loop ran.
pub loop-pending :
    (fuel : ℕ) (s : Sources) (active : ℕ) (name : String)
    → of_source name (loop fuel s active).0 ++ pending name (loop fuel s active).1.0.handles
      ≡ pending name s.handles
unfolding loop of_source Takes
loop-pending zero s active name = refl
loop-pending (suc fuel) s active name = elim (Bool-cases (active == 0)) [
  | inl stop ↦ rw (loop, stop) refl
  | inr more ↦
      let t = turn s active in
      let rest = loop fuel t.1.0 t.1.1 in
      rw (loop, more)
        (ap (λ xs. xs ++ pending name rest.1.0.handles) (of_source-with_row name t.0 rest.0)
          ∙ append_assoc (of_source name (with_row t.0 [])) (of_source name rest.0)
              (pending name rest.1.0.handles)
          ∙ ap (λ xs. of_source name (with_row t.0 []) ++ xs) (loop-pending fuel t.1.0 t.1.1 name)
          ∙ turn-Takes s active name)
]

pub ended-pending :
    (d : Dict String Handle) (name : String) → total alive d ≡ 0 → pending name d ≡ []
unfolding pending total alive get handle_rows
ended-pending [] name none_left = refl
ended-pending ((key, h) ∷ d) name none_left = elim (Bool-cases h.exhausted) [
  | inr live ↦ absurd (ground (arith, live, none_left))
  | inl dead ↦ elim (Bool-cases (key == name)) [
    | inl same ↦ rw (pending, same, handle_rows, dead) refl
    | inr apart ↦ rw (pending, apart) (ended-pending d name (ground (arith, none_left, dead)))
  ]
]
