-- ===== src/Spool/Examples.antt =====
-- Requests to a queue of two places, and a queue opened over a file that was left.
use instant_ai_data_workflow.Prelude.{
  ◌≡◌, refl, Option, none, some, List, [], ◌∷◌, length, nat_eq, string_eq, String, All, ◌==◌,
  if◌then◌else◌, Bool-cases, inl, inr, arith,
}
use instant_ai_data_workflow.Prelude.Dict.{get, put, remove}
use instant_ai_data_workflow.Spool.{
  stored, queue_full, queue_empty, put_raised, message, Request, put_item, get_item, open_spool,
  spool_put, replies,
}
use instant_ai_data_workflow.Spool.Fifo.{list_replies, ReadsBack, replies-list_replies}
use instant_ai_data_workflow.Spool.Restart.{spool_put-open_spool}

-- A codec that has no text for one message, and reads each other text as itself.
abbrev dumps : String → Option String
dumps m = if m == "?" then none else some m

abbrev loads : String → Option String
loads text = some text

abbrev requests : List (Request String)
requests =
    put_item "a"
    ∷ put_item "?"
    ∷ put_item "b"
    ∷ put_item "c"
    ∷ get_item
    ∷ put_item "d"
    ∷ get_item
    ∷ get_item
    ∷ get_item
    ∷ []

replied :
    (replies dumps loads requests (open_spool 2 [])).0
    ≡ stored
      ∷ put_raised
      ∷ stored
      ∷ queue_full
      ∷ message "a"
      ∷ stored
      ∷ message "b"
      ∷ message "d"
      ∷ queue_empty
      ∷ []
unfolding replies get put remove
replied = refl

reads_back : (m text : String) → dumps m ≡ some text → loads text ≡ some m
reads_back m text given = elim (Bool-cases (m == "?")) [
  | inl refused ↦ absurd (ground (arith, given, refused))
  | inr kept ↦ ground (arith, given, kept)
]

requests-ReadsBack : All (ReadsBack dumps loads) requests
unfolding ReadsBack
requests-ReadsBack = (
  reads_back "a",
  (
    reads_back "?",
    (reads_back "b", (reads_back "c", (tt, (reads_back "d", (tt, (tt, (tt, tt))))))),
  ),
)

replies-list_replies_example :
    (replies dumps loads requests (open_spool 2 [])).0 ≡ list_replies dumps 2 requests []
replies-list_replies_example = replies-list_replies dumps loads requests 2 requests-ReadsBack

spool_put-open_spool_example :
    ((spool_put dumps loads "new" (open_spool 2 ((1, "old") ∷ []))).0 ≡ stored)
    × (get (spool_put dumps loads "new" (open_spool 2 ((1, "old") ∷ []))).1.files 1 ≡ some "new")
    × (length (spool_put dumps loads "new" (open_spool 2 ((1, "old") ∷ []))).1.files ≡ 1)
unfolding get
spool_put-open_spool_example =
    spool_put-open_spool dumps loads 2 ((1, "old") ∷ []) "old" "new" "new" refl refl
