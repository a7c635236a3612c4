-- ===== src/Spool/Restart.antt =====
-- A spool queue that is opened over the files of an earlier one.
use instant_ai_data_workflow.Prelude.{ℕ, ◌≡◌, Option, some, String, [], ◌∷◌, arith, length, nat_eq}
use instant_ai_data_workflow.Prelude.Dict.{Dict, get, put, get-put}
use instant_ai_data_workflow.Spool.{stored, open_spool, write_message, spool_put}

length-put_old :
    (d : Dict ℕ String) (k : ℕ) (old v : String)
    → get d k ≡ some old
    → length (put d k v) ≡ length d
unfolding get put
length-put_old [] k old v e = absurd (ground arith)
length-put_old ((j, w) ∷ d) k old v e = ground (arith, length-put_old d k old v)

module _ {Msg : Type 0} (dumps : Msg → Option String) (loads : String → Option Msg) where
  -- Where an earlier queue has left a file with the number 1, the first `put` after the queue is opened
  -- again, of a message that has a text, reports success and writes over that file: there are no more
  -- files than before, and the message that stood there is replaced.
  pub spool_put-open_spool :
      (maxsize : ℕ) (files : Dict ℕ String) (old text : String) (item : Msg)
      → get files 1 ≡ some old
      → dumps item ≡ some text
      → ((spool_put dumps loads item (open_spool maxsize files)).0 ≡ stored)
        × (get (spool_put dumps loads item (open_spool maxsize files)).1.files 1 ≡ some text)
        × (length (spool_put dumps loads item (open_spool maxsize files)).1.files ≡ length files)
  unfolding spool_put write_message
  spool_put-open_spool maxsize files old text item e given = (
    ground (arith, given),
    ground (arith, given, get-put files 1 text 1),
    ground (arith, given, length-put_old files 1 old text e),
  )
