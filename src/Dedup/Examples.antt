-- ===== src/Dedup/Examples.antt =====
-- A stream with repeats, over a cache of one place and batches of two rows.
use instant_ai_data_workflow.Prelude.{
  ◌≡◌, ◌⊎◌, inl, inr, refl, true, false, Option, none, some, List, [], ◌∷◌, ◌==◌, arith,
  if◌then◌else◌, length, String, string_eq, nat_eq, Bool-cases, Option-cases,
}
use instant_ai_data_workflow.Prelude.Dict.{
  Dict, get, put, has, get-put, has-of_get, has-of_get-none,
}
use instant_ai_data_workflow.Dedup.{Answer, LruCache, Row, Table, HashIndex}
use instant_ai_data_workflow.Dedup.Known.{Coherent, staged}
use instant_ai_data_workflow.Dedup.Seen.{contains, ExactHashDedup, Arrival, answers}
use instant_ai_data_workflow.Dedup.Answers.{remembers, Valid, ValidAt, reference, answers-reference}
use instant_ai_data_workflow.Dedup.Shards.{
  Sharded, sharded_answers, sharded_remembers, sharded_answers-reference,
}

abbrev Slot : Type 0
Slot = Option (String × Answer)

unfoldable find_slot : Slot → String → Option Answer
find_slot none k = none
find_slot (some (j, a)) k = if j == k then some a else none

slot_write :
    (c : Slot) (k : String) (a : Answer) (j : String)
    → (find_slot (some (k, a)) j ≡ (if k == j then some a else find_slot c j))
      ⊎ (find_slot (some (k, a)) j ≡ none)
unfolding find_slot
slot_write c k a j = elim (Bool-cases (k == j)) [
  | inl same ↦ inl (ground arith)
  | inr other ↦ inr (ground arith)
]

abbrev one_slot : LruCache Slot
one_slot = record {
  find = find_slot;
  touch = λ c k. c;
  write = λ c k a. some (k, a);
  find-touch = λ c k j. refl;
  find-write = slot_write;
}

unfoldable insert_row : Dict String String → Row → Dict String String
insert_row t (k, s, w) = if has t k then t else put t k s

insert_row-get :
    (t : Dict String String) (k s w j : String)
    → get (insert_row t (k, s, w)) j
      ≡ elim (get t k) [ some _ ↦ get t j | none ↦ if k == j then some s else get t j ]
unfolding insert_row
insert_row-get t k s w j = elim (Option-cases (get t k)) [
  | inl absent ↦ ground (arith, has-of_get-none t k absent, get-put t k s j)
  | inr (v, present) ↦ ground (arith, has-of_get t k v present)
]

abbrev rows : Table (Dict String String)
rows = record {
  select_source = λ t k. get t k;
  select_count = λ t. length t;
  insert_or_ignore = insert_row;
  select-insert = insert_row-get;
}

abbrev index : HashIndex Slot (Dict String String)
index = record {
  batch_size = 2;
  table = ("a", "trained") ∷ [];
  pending = [];
  pending_ts = "";
  pending_by_digest = [];
  lookup_cache = record { cache = none; hits = 0; misses = 0 };
  stats = record { inserted = 0; duplicates = 0; lookups = 0; cache_hits = 0 };
}

abbrev fresh : ExactHashDedup Slot (Dict String String)
fresh = record { index = some index; seen = []; duplicates = 0; kept = 0; skipped_trained = 0 }

abbrev arrival : String → Arrival
arrival d = record { now = "noon"; digest = d; source = "web" }

abbrev stream : List Arrival
stream = arrival "b" ∷ arrival "a" ∷ arrival "c" ∷ arrival "b" ∷ arrival "d" ∷ arrival "c" ∷ []

program : Unit {0}
unfolding answers reference
program = tt

answered : (answers one_slot rows stream fresh).0 ≡ false ∷ true ∷ false ∷ true ∷ false ∷ true ∷ []
unfolding answers find_slot insert_row get put has
answered = refl

index-Coherent : Coherent one_slot rows index
unfolding find_slot has staged
index-Coherent = record { listed = λ k. refl; cached = λ k a e. absurd (ground arith) }

fresh-Valid : Valid one_slot rows fresh
unfolding Valid ValidAt contains
fresh-Valid = (index-Coherent, λ k h. absurd (ground arith))

answers-reference_example :
    (answers one_slot rows stream fresh).0 ≡ reference (remembers one_slot rows fresh) [] stream
answers-reference_example = answers-reference one_slot rows stream fresh fresh-Valid

abbrev shards : Sharded Slot (Dict String String)
shards = record { shards = 2; dedup_at = λ j. fresh }

sharded_answers-reference_example :
    (sharded_answers one_slot rows (λ d. 1) stream shards).0
    ≡ reference (sharded_remembers one_slot rows (λ d. 1) shards) [] stream
sharded_answers-reference_example =
    sharded_answers-reference one_slot rows (λ d. 1) stream shards (λ j. fresh-Valid)
