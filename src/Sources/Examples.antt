-- ===== src/Sources/Examples.antt =====
-- Two files that are read in turn, the second from its second line on, and tests of the schedule and
-- of the closing.
use instant_ai_data_workflow.Prelude.{
  ℕ, ◌≤◌, ◌≡◌, refl, List, [], ◌∷◌, String, if◌then◌else◌, ◌==◌, string_eq, arith, map,
}
use instant_ai_data_workflow.Sources.{
  Sources, Row, RawFile, iterate, open_sources, load_mix_weights, close, count_active,
}
use instant_ai_data_workflow.Sources.Files.{
  iterate-ends, iterate-rows, enough, last_named, rows_of_file,
}
use instant_ai_data_workflow.Prelude.{true, false, Option, none, some, ◌++◌, length, nat_eq}
use instant_ai_data_workflow.Sources.Reader.{Item, Emission, Moment, reader_thread}
use instant_ai_data_workflow.Sources.Numbers.{
  items_of, items_from, Quiet, Undisturbed, reader_thread-items,
}
use instant_ai_data_workflow.Sources.Whole.{of_source}

abbrev files : List RawFile
files =
    record { name = "web"; path = "raw/web/a.jsonl"; lines = "w0\n" ∷ "w1\n" ∷ "w2\n" ∷ [] }
    ∷ record { name = "code"; path = "raw/code/a.jsonl"; lines = "c0\n" ∷ "c1\n" ∷ [] }
    ∷ []

abbrev line_offset : String → ℕ
line_offset name = if name == "code" then 1 else 0

abbrev resolved : List (List (String × ℕ))
resolved = [] ∷ (("web", 2) ∷ ("code", 0) ∷ ("old", 5) ∷ []) ∷ []

abbrev opened : Sources
opened = open_sources files line_offset (load_mix_weights resolved ("web" ∷ "code" ∷ []))

the_schedule : opened.schedule ≡ "code" ∷ "web" ∷ "web" ∷ []
unfolding open_sources load_mix_weights
the_schedule = refl

the_lines : map (λ (r : Row). r.line) (iterate 18 opened).0 ≡ "c1\n" ∷ "w0\n" ∷ "w1\n" ∷ "w2\n" ∷ []
unfolding iterate open_sources load_mix_weights
the_lines = refl

all_closed : count_active (close opened).handles ≡ 0
unfolding count_active close open_sources
all_closed = refl

bound : enough opened ≤ 18
unfolding enough open_sources load_mix_weights
bound = omega arith

iterate-ends_example : (iterate 18 opened).1.1 ≡ 0
iterate-ends_example = iterate-ends files line_offset resolved ("web" ∷ "code" ∷ []) 18 bound

iterate-rows_example :
    of_source "code" (iterate 18 opened).0
    ≡ record { name = "code"; path = "raw/code/a.jsonl"; line_no = 1; line = "c1\n" } ∷ []
unfolding last_named rows_of_file
iterate-rows_example = iterate-rows files line_offset resolved ("web" ∷ "code" ∷ []) 18 bound "code"

abbrev put_at_once : Emission
put_at_once = record { stopped = false; full = 2; taken = true }

abbrev moment : String → ℕ → Moment
moment line line_no = record {
  row = record { name = "web"; path = "raw/web/a.jsonl"; line_no = line_no; line = line };
  stop = false;
  late = false;
  emission = put_at_once;
}

abbrev moments : List Moment
moments = moment "w0\n" 0 ∷ moment "w1\n" 1 ∷ moment "w2\n" 2 ∷ moment "w3\n" 3 ∷ []

abbrev parse : String → Option String
parse line = if line == "w1\n" then none else some line

abbrev no_provenance : String → String → Option String
no_provenance row name = none

abbrev same : String → String
same s = s

abbrev decimal : ℕ → String
decimal n = if n == 0 then "0" else "1"

-- The first batch has one item, the second two, and the last what is left.
the_batches :
    map {B = ℕ}
      (λ (b : Option (List (Item String String))). elim b [ none ↦ 0 | some items ↦ length items ])
      (reader_thread 1 4 parse no_provenance same decimal moments put_at_once opened).0.read_queue
    ≡ 1 ∷ 2 ∷ 1 ∷ 0 ∷ []
unfolding reader_thread
the_batches = refl

reader_thread-items_example :
    let r = (reader_thread 1 4 parse no_provenance same decimal moments put_at_once opened).0 in
    (items_of r.read_queue ≡ items_from parse no_provenance same decimal 0 moments)
    × (batches : List (List (Item String String))) × (r.read_queue ≡ map some batches ++ none ∷ [])
unfolding Undisturbed Quiet
reader_thread-items_example =
    reader_thread-items 1 4 parse no_provenance same decimal moments put_at_once opened
      (
        (refl, (refl, refl)),
        ((refl, (refl, refl)), ((refl, (refl, refl)), ((refl, (refl, refl)), tt))),
      )
      (refl, refl)
