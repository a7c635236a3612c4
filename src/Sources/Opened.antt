-- ===== src/Sources/Opened.antt =====
-- The sources as they are opened: the schedule has a place for each of them.
use instant_ai_data_workflow.Prelude.{
  ℕ, zero, suc, ◌<◌, ◌≡◌, refl, ap, ◌∙◌, inl, inr, Bool, true, some, List, [], ◌∷◌, ◌++◌, map, max,
  ◌==◌, if◌then◌else◌, String, nat_eq, string_eq, arith, Bool-cases, get_elem?, replicate,
}
use instant_ai_data_workflow.Prelude.Dict.{Dict, get, put, has, get-put}
use instant_ai_data_workflow.Sources.{
  Handle, RawFile, contains, name_gt, insert_name, sorted_names, weight_of, repeated,
  weighted_schedule, names_of, open_handles, open_sources, count_active, mix_of, load_mix_weights,
}
use instant_ai_data_workflow.Sources.Turns.{Running, Distinct, put-Distinct, count_active-total}

contains_place :
    (xs : List String) (name : String)
    → contains xs name ≡ true
    → (i : ℕ) × (get_elem? xs i ≡ some name)
unfolding contains
contains_place [] name held = absurd (ground (arith, held))
contains_place (x ∷ xs) name held = elim (Bool-cases (x == name)) [
  | inl same ↦ (0, ap some (ground (arith, same, string_eq.same_key_iff x name)))
  | inr other ↦
      let (i, placed) = contains_place xs name (ground (arith, held, other)) in (suc i, placed)
]

contains-names_of :
    (d : Dict String Handle) (name : String) → contains (names_of d) name ≡ has d name
unfolding contains names_of has
contains-names_of [] name = refl
contains-names_of ((key, h) ∷ d) name =
    ap (λ (b : Bool). if key == name then true else b) (contains-names_of d name)

contains-insert_name :
    (x : String) (ys : List String) (name : String)
    → contains (insert_name x ys) name ≡ (if x == name then true else contains ys name)
unfolding contains insert_name
contains-insert_name x [] name = refl
contains-insert_name x (y ∷ ys) name = elim (Bool-cases (name_gt x y)) [
  | inl behind ↦ rw behind (ground (arith, contains-insert_name x ys name))
  | inr before ↦ rw before refl
]

contains-sorted_names :
    (xs : List String) (name : String) → contains (sorted_names xs) name ≡ contains xs name
unfolding contains sorted_names
contains-sorted_names [] name = refl
contains-sorted_names (x ∷ xs) name =
    contains-insert_name x (sorted_names xs) name
    ∙ ap (λ (b : Bool). if x == name then true else b) (contains-sorted_names xs name)

contains-append_replicate :
    (n : ℕ) (x : String) (ys : List String) (name : String)
    → 0 < n
    → contains (replicate n x ++ ys) name ≡ (if x == name then true else contains ys name)
unfolding contains
contains-append_replicate zero x ys name pos = absurd (omega (arith, pos))
contains-append_replicate (suc zero) x ys name pos = refl
contains-append_replicate (suc (suc n)) x ys name pos =
    ground (arith, contains-append_replicate (suc n) x ys name (omega arith))

-- Every source has a turn in each round.
pub Positive : Dict String ℕ → Type 0
Positive weights = (name : String) → 0 < weight_of weights name

contains-repeated :
    (weights : Dict String ℕ)
    → Positive weights
    → (xs : List String) (name : String) → contains (repeated weights xs) name ≡ contains xs name
unfolding contains repeated Positive
contains-repeated weights pos [] name = refl
contains-repeated weights pos (x ∷ xs) name =
    contains-append_replicate (weight_of weights x) x (repeated weights xs) name (pos x)
    ∙ ap (λ (b : Bool). if x == name then true else b) (contains-repeated weights pos xs name)

open_handles-Distinct :
    (line_offset : String → ℕ) (files : List RawFile) (d : Dict String Handle)
    → Distinct d
    → Distinct (open_handles line_offset files d)
unfolding open_handles
open_handles-Distinct line_offset [] d distinct = distinct
open_handles-Distinct line_offset (f ∷ fs) d distinct =
    open_handles-Distinct line_offset fs (put d f.name _) (put-Distinct d f.name _ distinct)

pub open_sources-Running :
    (files : List RawFile) (line_offset : String → ℕ) (weights : Dict String ℕ)
    → Positive weights
    → let s = open_sources files line_offset weights in Running s (count_active s.handles)
unfolding open_sources weighted_schedule Distinct
open_sources-Running files line_offset weights pos =
    let d : Dict String Handle = open_handles line_offset files [] in
    record {
      distinct = open_handles-Distinct line_offset files [] tt;
      counted = count_active-total d;
      covered = λ name held. contains_place (repeated weights (sorted_names (names_of d))) name (
          contains-repeated weights pos (sorted_names (names_of d)) name
          ∙ contains-sorted_names (names_of d) name
          ∙ contains-names_of d name
          ∙ held);
    }

Positive-put :
    (weights : Dict String ℕ) (name : String) (w : ℕ)
    → Positive weights
    → 0 < w
    → Positive (put weights name w)
unfolding Positive weight_of
Positive-put weights name w pos more other = elim (Bool-cases (name == other)) [
  | inl same ↦ rw (weight_of, get-put weights name w other, same) more
  | inr apart ↦ rw (weight_of, get-put weights name w other, apart) (pos other)
]

mix_of-Positive :
    (source_names : List String) (entries : List (String × ℕ)) (weights : Dict String ℕ)
    → Positive weights
    → Positive (mix_of source_names entries weights)
unfolding mix_of
mix_of-Positive source_names [] weights pos = pos
mix_of-Positive source_names ((name, pct) ∷ entries) weights pos =
    elim (Bool-cases (contains source_names name)) [
      | inl used ↦ rw used (
          mix_of-Positive source_names entries (put weights name (max 1 pct))
            (Positive-put weights name (max 1 pct) pos (omega arith)))
      | inr unused ↦ rw unused (mix_of-Positive source_names entries weights pos)
    ]

ones-Positive : (names : List String) → Positive (map (λ (name : String). (name, 1)) names)
unfolding Positive weight_of get
ones-Positive [] name = omega arith
ones-Positive (x ∷ xs) name = elim (Bool-cases (x == name)) [
  | inl same ↦ rw (weight_of, same) (omega arith)
  | inr other ↦ rw (weight_of, other) (ones-Positive xs name)
]

empty-Positive : Positive []
unfolding Positive weight_of get
empty-Positive name = omega arith

or_else-Positive :
    (weights other : Dict String ℕ)
    → Positive weights
    → Positive other
    → Positive (elim weights [ [] ↦ other | w ∷ ws ↦ w ∷ ws ])
or_else-Positive [] other pos pos_other = pos_other
or_else-Positive (w ∷ ws) other pos pos_other = pos

pub load_mix_weights-Positive :
    (resolved : List (List (String × ℕ))) (source_names : List String)
    → Positive (load_mix_weights resolved source_names)
unfolding load_mix_weights
load_mix_weights-Positive [] source_names = ones-Positive source_names
load_mix_weights-Positive (raw ∷ resolved) source_names =
    or_else-Positive (mix_of source_names raw []) (load_mix_weights resolved source_names)
      (mix_of-Positive source_names raw [] empty-Positive)
      (load_mix_weights-Positive resolved source_names)
