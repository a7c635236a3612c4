-- ===== src/Sources.antt =====
-- The reading of the sources: `_weighted_schedule`, `_SourceHandle` and `_InterleavedSources` of
-- src/indw/schedule/core.py, and `load_mix_weights` of src/indw/schedule/read/sources.py.
--
-- A file is the list of its lines, each with its line break, so `readline` is empty at the end only.
-- `line_no` starts at -1 in the code: `next_no` is one more than it. The code's generator is `rows`, which
-- takes fuel for the turns of its loop and returns the tuples that it yields with the state behind them.
pub mod Turns
pub mod Opened
pub mod Ends
pub mod Whole
pub mod Files
pub mod Reader
pub mod Numbers
mod Examples
use Prim.Native.Nat.{Ordering}
use Prim.Native.String.{compare}
use instant_ai_data_workflow.Prelude.{
  ℕ, zero, suc, ◌+◌, ◌-◌, ◌%◌, max, Bool, true, false, not, Option, none, some, List, [], ◌∷◌, ◌++◌,
  map, ◌==◌, if◌then◌else◌, String, nat_eq, string_eq, drop, length, replicate, get_elem?,
}
use instant_ai_data_workflow.Prelude.Dict.{Dict, get, put, has}

pub record Handle : Type 0 where
  pub path : String
  pub left : List String
  pub next_no : ℕ
  pub exhausted : Bool

pub record Sources : Type 0 where
  pub handles : Dict String Handle
  pub schedule : List String
  pub tick : ℕ

-- What the generator yields.
pub record Row : Type 0 where
  pub name : String
  pub path : String
  pub line_no : ℕ
  pub line : String

-- A file of the raw directory, with `path.parent.name`.
pub record RawFile : Type 0 where
  pub name : String
  pub path : String
  pub lines : List String

-- `x > y` of strings, by code points.
unfoldable pub name_gt : String → String → Bool
name_gt x y = elim (compare x y) [ Ordering.gt ↦ true | _ ↦ false ]

-- `sorted` of names.
unfoldable pub insert_name : String → List String → List String
unfolding name_gt
insert_name x [] = x ∷ []
insert_name x (y ∷ ys) = if name_gt x y then y ∷ insert_name x ys else x ∷ y ∷ ys

unfoldable pub sorted_names : List String → List String
unfolding insert_name
sorted_names [] = []
sorted_names (x ∷ xs) = insert_name x (sorted_names xs)

unfoldable pub weight_of : Dict String ℕ → String → ℕ
unfolding get
weight_of weights name = elim (get weights name) [ none ↦ 1 | some w ↦ w ]

-- `weights[name]` of each name in turn.
unfoldable pub repeated : Dict String ℕ → List String → List String
unfolding weight_of
repeated weights [] = []
repeated weights (x ∷ xs) = replicate (weight_of weights x) x ++ repeated weights xs

-- The schedule of the names of the open files; a name without a weight has the weight 1.
unfoldable pub weighted_schedule : Dict String ℕ → List String → List String
unfolding repeated sorted_names
weighted_schedule weights names = repeated weights (sorted_names names)

unfoldable pub open_handles : (String → ℕ) → List RawFile → Dict String Handle → Dict String Handle
unfolding put
open_handles line_offset [] handles = handles
open_handles line_offset (f ∷ fs) handles = open_handles line_offset fs (
    put handles f.name record {
      path = f.path;
      left = drop (line_offset f.name) f.lines;
      next_no = line_offset f.name;
      exhausted = false;
    })

unfoldable pub names_of : Dict String Handle → List String
names_of [] = []
names_of ((name, h) ∷ d) = name ∷ names_of d

unfoldable pub open_sources : List RawFile → (String → ℕ) → Dict String ℕ → Sources
unfolding open_handles weighted_schedule names_of
open_sources files line_offset weights =
    let handles = open_handles line_offset files [] in
    record { handles = handles; schedule = weighted_schedule weights (names_of handles); tick = 0 }

-- The number of handles that are not exhausted, which `active` starts with.
unfoldable pub count_active : Dict String Handle → ℕ
count_active [] = 0
count_active ((name, h) ∷ d) = (if h.exhausted then 0 else 1) + count_active d

unfoldable pub scheduled : List String → ℕ → String
scheduled schedule tick = elim (get_elem? schedule (tick % length schedule)) [
  | none ↦ ""
  | some name ↦ name
]

-- The reading of a line from a handle that is not exhausted.
unfoldable pub read_line : String → Handle → List String → Sources → ℕ → Option Row × (Sources × ℕ)
unfolding put
read_line name h [] s active =
    (none, (record s { handles = put s.handles name record h { exhausted = true } }, active - 1))
read_line name h (line ∷ left) s active = (
  some record { name = name; path = h.path; line_no = h.next_no; line = line },
  (
    record s { handles = put s.handles name record h { left = left; next_no = h.next_no + 1 } },
    active,
  ),
)

-- One turn of the loop of `__iter__`.
unfoldable pub turn : Sources → ℕ → Option Row × (Sources × ℕ)
unfolding get scheduled read_line
turn s active =
    let ticked = record s { tick = s.tick + 1 } in
    elim (get s.handles (scheduled s.schedule s.tick)) [
      | none ↦ (none, (ticked, active))
      | some h ↦
          if h.exhausted
          then (none, (ticked, active))
          else read_line (scheduled s.schedule s.tick) h h.left ticked active
    ]

unfoldable pub with_row : Option Row → List Row → List Row
with_row none rows = rows
with_row (some row) rows = row ∷ rows

-- `while active > 0`, for as many turns as there is fuel.
unfoldable pub loop : ℕ → Sources → ℕ → List Row × (Sources × ℕ)
unfolding turn with_row
loop zero s active = ([], (s, active))
loop (suc fuel) s active =
    let next = turn s active in
    let rest = loop fuel next.1.0 next.1.1 in
    if active == 0 then ([], (s, active)) else (with_row next.0 rest.0, rest.1)

-- `__iter__`.
unfoldable pub iterate : ℕ → Sources → List Row × (Sources × ℕ)
unfolding count_active loop
iterate fuel s = elim s.schedule [
  | [] ↦ ([], (s, 0))
  | _ ∷ _ ↦ loop fuel s (count_active s.handles)
]

unfoldable pub close_handles : Dict String Handle → Dict String Handle
close_handles [] = []
close_handles ((name, h) ∷ d) = (name, record h { exhausted = true }) ∷ close_handles d

unfoldable pub close : Sources → Sources
unfolding close_handles
close s = record s { handles = close_handles s.handles }

unfoldable pub contains : List String → String → Bool
contains [] name = false
contains (x ∷ xs) name = if x == name then true else contains xs name

-- The entries of `sources` in one of the resolved files: the stripped name and `mix_pct`, where a
-- percentage that is not positive is 0.
unfoldable pub mix_of : List String → List (String × ℕ) → Dict String ℕ → Dict String ℕ
unfolding put contains
mix_of source_names [] weights = weights
mix_of source_names ((name, mix_pct) ∷ entries) weights =
    mix_of source_names entries
      (if contains source_names name then put weights name (max 1 mix_pct) else weights)

-- `load_mix_weights`, on what `iter_resolved_sources` yields.
unfoldable pub load_mix_weights : List (List (String × ℕ)) → List String → Dict String ℕ
unfolding mix_of
load_mix_weights [] source_names = map (λ (name : String). (name, 1)) source_names
load_mix_weights (raw ∷ resolved) source_names = elim (mix_of source_names raw []) [
  | [] ↦ load_mix_weights resolved source_names
  | w ∷ ws ↦ w ∷ ws
]
