-- ===== src/Spool.antt =====
-- `FilesystemSpoolQueue` of src/indw/schedule/graph/queues.py: a queue with one file for each message.
--
-- A file is named by its number, in twelve digits, so that the order of the names is that of the
-- numbers. `put` and `get` are one pass of their loops with the lock held; what a pass does is what
-- the call does without blocking, and a blocking call is repeated passes. `dumps` and `loads` are
-- those of src/indw/store/io/json_codec.py, which call orjson; `none` stands for their exceptions.
pub mod Fifo
pub mod Restart
mod Examples
use instant_ai_data_workflow.Prelude.{
  String, ℕ, zero, suc, ◌+◌, Bool, true, false, ◌||◌, Option, none, some, List, [], ◌∷◌, ◌++◌, ltb,
  leb, ◌==◌, if◌then◌else◌, length, nat_eq,
}
use instant_ai_data_workflow.Prelude.Dict.{Dict, get, put, remove}

pub record Spool : Type 0 where
  pub maxsize : ℕ
  pub seq : ℕ
  pub pending : List ℕ
  pub files : Dict ℕ String

-- What a pass of `put` or `get` tells. `missing` stands for the exception of a file that is gone, and
-- `put_raised` and `get_raised` for those of `dumps` and `loads`.
pub data Reply (Msg : Type 0) : Type 0 where
  stored : Reply Msg
  queue_full : Reply Msg
  queue_empty : Reply Msg
  missing : Reply Msg
  put_raised : Reply Msg
  get_raised : Reply Msg
  message : Msg → Reply Msg

pub data Request (Msg : Type 0) : Type 0 where
  put_item : Msg → Request Msg
  get_item : Request Msg

unfoldable pub insert_number : ℕ → List ℕ → List ℕ
insert_number n [] = n ∷ []
insert_number n (m ∷ ms) = let rest = insert_number n ms in if leb n m then n ∷ m ∷ ms else m ∷ rest

-- `sorted(self._root.glob('*.msg'))`
unfoldable pub sorted_names : Dict ℕ String → List ℕ
unfolding insert_number
sorted_names [] = []
sorted_names ((n, m) ∷ d) = insert_number n (sorted_names d)

-- A new queue over the files of its directory.
abbrev pub open_spool : ℕ → Dict ℕ String → Spool
open_spool maxsize files = record { maxsize = maxsize; seq = 0; pending = []; files = files }

unfoldable pub refresh_pending : Spool → Spool
unfolding sorted_names
refresh_pending s = elim s.pending [ [] ↦ record s { pending = sorted_names s.files } | _ ∷ _ ↦ s ]

unfoldable pub qsize : Spool → ℕ × Spool
unfolding refresh_pending
qsize s = let s' = refresh_pending s in (length s'.pending, s')

unfoldable pub full : Spool → Bool
unfolding qsize
full s = if s.maxsize == 0 then false else leb s.maxsize (qsize s).0

module _ {Msg : Type 0} (dumps : Msg → Option String) (loads : String → Option Msg) where
  -- The number is taken before the message is turned into a text.
  unfoldable pub write_message : Option String → Spool → Reply Msg × Spool
  write_message none s = (put_raised, record s { seq = s.seq + 1 })
  write_message (some text) s =
      let seq = s.seq + 1 in
      (
        stored,
        record s { seq = seq; pending = s.pending ++ seq ∷ []; files = put s.files seq text },
      )

  unfoldable pub spool_put : Msg → Spool → Reply Msg × Spool
  unfolding write_message
  spool_put item s =
      if s.maxsize == 0 || ltb (length s.pending) s.maxsize
      then write_message (dumps item) s
      else (queue_full, s)

  -- The file is removed only behind `loads`.
  unfoldable pub read_message : ℕ → Option Msg → Spool → Reply Msg × Spool
  read_message n none s = (get_raised, s)
  read_message n (some raw) s = (message raw, record s { files = remove s.files n })

  -- The head of the pending names: the file is read, and removed.
  unfoldable pub take_head : List ℕ → Spool → Reply Msg × Spool
  unfolding read_message
  take_head [] s = (queue_empty, s)
  take_head (n ∷ ns) s = elim (get s.files n) [
    | none ↦ (missing, record s { pending = ns })
    | some text ↦ read_message n (loads text) (record s { pending = ns })
  ]

  unfoldable pub spool_get : Spool → Reply Msg × Spool
  unfolding refresh_pending take_head
  spool_get s = let s' = refresh_pending s in take_head s'.pending s'

  unfoldable pub handle : Request Msg → Spool → Reply Msg × Spool
  unfolding spool_put spool_get
  handle (put_item m) s = spool_put m s
  handle get_item s = spool_get s

  unfoldable pub replies : List (Request Msg) → Spool → List (Reply Msg) × Spool
  unfolding handle
  replies [] s = ([], s)
  replies (r ∷ rs) s =
      let (reply, s₁) = handle r s in let (rest, s₂) = replies rs s₁ in (reply ∷ rest, s₂)
