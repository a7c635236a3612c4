-- ===== src/Sources/Files.antt =====
-- The reading of the files of the raw directory, from the opening to the end.
use instant_ai_data_workflow.Prelude.{
  ℕ, zero, suc, ◌*◌, ◌≤◌, ◌≡◌, refl, sym, ap, subst, ◌∙◌, inl, inr, false, Option, none, some, List,
  [], ◌∷◌, ◌++◌, append-nil, ◌==◌, if◌then◌else◌, String, nat_eq, string_eq, arith, Bool-cases,
  Option-cases, length, drop, get_elem?, le_or_lt,
}
use instant_ai_data_workflow.Prelude.Dict.{Dict, get, put, has-of_get}
use instant_ai_data_workflow.Sources.{
  Handle, Sources, Row, RawFile, loop, iterate, open_handles, open_sources, load_mix_weights,
  count_active,
}
use instant_ai_data_workflow.Sources.Turns.{total, reads, Running, find_active}
use instant_ai_data_workflow.Sources.Opened.{open_sources-Running, load_mix_weights-Positive}
use instant_ai_data_workflow.Sources.Ends.{loop-ends}
use instant_ai_data_workflow.Sources.Whole.{
  of_source, numbered, handle_rows, pending, loop-Running, loop-pending, ended-pending, pending-put,
}

-- The file whose handle a name has: the last of the name.
unfoldable pub last_named : List RawFile → String → Option RawFile
last_named [] name = none
last_named (f ∷ fs) name = elim (last_named fs name) [
  | none ↦ if f.name == name then some f else none
  | some g ↦ some g
]

-- The rows that a file holds behind its offset.
unfoldable pub rows_of_file : (String → ℕ) → String → Option RawFile → List Row
unfolding numbered
rows_of_file line_offset name none = []
rows_of_file line_offset name (some f) =
    numbered name f.path (line_offset f.name) (drop (line_offset f.name) f.lines)

-- The turns that are enough: a round of the schedule for each line and for each end of a file.
unfoldable pub enough : Sources → ℕ
unfolding total reads
enough s = length s.schedule * total reads s.handles

no_turn_left : (fuel : ℕ) (s : Sources) → loop fuel s 0 ≡ ([], (s, 0))
unfolding loop
no_turn_left zero s = refl
no_turn_left (suc fuel) s = refl

all_closed :
    (s : Sources)
    → Running s (count_active s.handles)
    → s.schedule ≡ []
    → count_active s.handles ≡ 0
all_closed s r empty = elim (le_or_lt (count_active s.handles) 0) [
  | inl stop ↦ omega (arith, stop)
  | inr more ↦
      let (name, h, found, live) =
        find_active s.handles r.distinct (omega (arith, more, r.counted)) in
      let (i, placed) = r.covered name (has-of_get s.handles name h found) in
      let missing : get_elem? [] i ≡ some name =
        subst (λ xs. get_elem? xs i ≡ some name) empty placed in
      absurd (ground (arith, missing))
]

loop_of_schedule :
    (fuel : ℕ) (s : Sources)
    → Running s (count_active s.handles)
    → (names : List String) → s.schedule ≡ names
    → (elim names as (λ x. List Row × (Sources × ℕ)) [
      | [] ↦ ([], (s, 0))
      | y ∷ ys ↦ loop fuel s (count_active s.handles)
    ])
      ≡ loop fuel s (count_active s.handles)
loop_of_schedule fuel s r [] eq = sym (ap (loop fuel s) (all_closed s r eq) ∙ no_turn_left fuel s)
loop_of_schedule fuel s r (x ∷ xs) eq = refl

iterate-loop :
    (fuel : ℕ) (s : Sources)
    → Running s (count_active s.handles)
    → iterate fuel s ≡ loop fuel s (count_active s.handles)
unfolding iterate
iterate-loop fuel s r = loop_of_schedule fuel s r s.schedule refl

open_handles-pending :
    (line_offset : String → ℕ) (name : String) (files : List RawFile) (d : Dict String Handle)
    → pending name (open_handles line_offset files d) ≡ elim (last_named files name) [
      | none ↦ pending name d
      | some f ↦ rows_of_file line_offset name (some f)
    ]
unfolding open_handles last_named rows_of_file handle_rows
open_handles-pending line_offset name [] d = refl
open_handles-pending line_offset name (f ∷ fs) d =
    let h : Handle = record {
      path = f.path;
      left = drop (line_offset f.name) f.lines;
      next_no = line_offset f.name;
      exhausted = false;
    } in
    elim (Option-cases (last_named fs name)) [
      | inr (g, later) ↦
          rw later (open_handles-pending line_offset name fs (put d f.name h) ∙ rw later refl)
      | inl last ↦ elim (Bool-cases (f.name == name)) [
        | inl same ↦
            rw (last, same)
              (open_handles-pending line_offset name fs (put d f.name h)
                ∙ rw last (pending-put name d f.name h ∙ rw same refl))
        | inr apart ↦
            rw (last, apart)
              (open_handles-pending line_offset name fs (put d f.name h)
                ∙ rw last (pending-put name d f.name h ∙ rw apart refl))
      ]
    ]

opened-Running :
    (files : List RawFile) (line_offset : String → ℕ) (resolved : List (List (String × ℕ)))
    (source_names : List String)
    → let s = open_sources files line_offset (load_mix_weights resolved source_names) in
      Running s (count_active s.handles)
opened-Running files line_offset resolved source_names =
    open_sources-Running files line_offset (load_mix_weights resolved source_names)
      (load_mix_weights-Positive resolved source_names)

opened-pending :
    (files : List RawFile) (line_offset : String → ℕ) (weights : Dict String ℕ) (name : String)
    → pending name (open_sources files line_offset weights).handles
      ≡ rows_of_file line_offset name (last_named files name)
unfolding open_sources pending get rows_of_file
opened-pending files line_offset weights name =
    open_handles-pending line_offset name files [] ∙ elim (Option-cases (last_named files name)) [
      | inl missing ↦ rw missing refl
      | inr (f, found) ↦ rw found refl
    ]

-- Whatever the resolved files say of the mix, and wherever the offsets stand, the generator comes to its
-- end: with `enough` turns, its count of the open sources is 0.
pub iterate-ends :
    (files : List RawFile) (line_offset : String → ℕ) (resolved : List (List (String × ℕ)))
    (source_names : List String) (fuel : ℕ)
    → let s = open_sources files line_offset (load_mix_weights resolved source_names) in
      enough s ≤ fuel → (iterate fuel s).1.1 ≡ 0
unfolding enough
iterate-ends files line_offset resolved source_names fuel le =
    let s : Sources = open_sources files line_offset (load_mix_weights resolved source_names) in
    let r = opened-Running files line_offset resolved source_names in
    ap (λ (t : List Row × (Sources × ℕ)). t.1.1) (iterate-loop fuel s r)
    ∙ loop-ends s (count_active s.handles) r fuel le

-- Whatever the resolved files say of the mix, with `enough` turns the generator yields of each
-- name the lines of the last file of that name, from its line offset on, each once, in their order
-- and with their numbers; of a name without a file it yields none.
pub iterate-rows :
    (files : List RawFile) (line_offset : String → ℕ) (resolved : List (List (String × ℕ)))
    (source_names : List String) (fuel : ℕ)
    → let s = open_sources files line_offset (load_mix_weights resolved source_names) in
      enough s ≤ fuel
      → (name : String)
      → of_source name (iterate fuel s).0 ≡ rows_of_file line_offset name (last_named files name)
unfolding enough
iterate-rows files line_offset resolved source_names fuel le name =
    let s : Sources = open_sources files line_offset (load_mix_weights resolved source_names) in
    let active = count_active s.handles in
    let r = opened-Running files line_offset resolved source_names in
    let done = loop-ends s active r fuel le in
    let nothing =
      ended-pending (loop fuel s active).1.0.handles name
        (sym (loop-Running fuel s active r).counted ∙ done) in
    let yielded = of_source name (loop fuel s active).0 in
    ap (λ (t : List Row × (Sources × ℕ)). of_source name t.0) (iterate-loop fuel s r)
    ∙ sym (append-nil yielded)
    ∙ ap (λ xs. yielded ++ xs) (sym nothing)
    ∙ loop-pending fuel s active name
    ∙ opened-pending files line_offset (load_mix_weights resolved source_names) name
