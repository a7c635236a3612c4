-- ===== src/Stages.antt =====
-- The document context of src/indw/schedule/state/context.py and its payload between workers.
--
-- A value of type `V` stands for a Python object that these modules only pass on. A payload is a dict
-- with known keys, so it is a record; a missing key is `none`. A file of the store
-- holds its text, and is named by its path; `mapped` is `_SURVIVOR_MMAP`. The stage names are those of
-- src/indw/schedule/dispatch/alloc.py.
pub mod Survivor
pub mod Engine
pub mod Pools
pub mod HeavyPools
pub mod Outcomes
pub mod RoundTrip
pub mod Conserved
pub mod Batches
pub mod Keeps
pub mod Finished
pub mod Intel
pub mod Cleaning
pub mod Ended
pub mod Parts
mod Examples
use Prim.Native.String.{count}
use instant_ai_data_workflow.Prelude.{
  ℕ, ◌+◌, Bool, true, false, ◌&&◌, ◌||◌, not, Option, none, some, List, [], ◌∷◌, ◌++◌, ltb, ◌==◌,
  if◌then◌else◌, String, nat_eq, string_eq,
}
use instant_ai_data_workflow.Prelude.Dict.{Dict}

pub data Kind : Type 0 where
  processed : Kind
  blank : Kind
  parse_error : Kind
  empty_text : Kind

-- A cleaned part of a document, with the hash of its text and the cleaning result.
pub record Chunk (V : Type 0) : Type 0 where
  pub chunk_text : String
  pub content_hash : String
  pub clean_result : V

pub record Context (V : Type 0) : Type 0 where
  pub seq : ℕ
  pub src_name : String
  pub line_no : ℕ
  pub row : Option (Dict String V)
  pub provenance : Option V
  pub text : String
  pub meaningful_chars : ℕ
  pub kind : Kind
  pub fp : Option V
  pub fp_scan : Option V
  pub pci_fp : Option V
  pub language_assessment : Option V
  pub acim_intel : Option V
  pub acim_route : Option V
  pub lci : Option V
  pub doc_tier : String
  pub admission : Option V
  pub ingest_meta : Option V
  pub raw_features : Option V
  pub doc_content_hash : String
  pub cleaning_rejects : List (String × ℕ)
  pub chunks : List (Chunk V)
  pub stage_trace : List String

pub record Payload (V : Type 0) : Type 0 where
  pub seq : ℕ
  pub src_name : String
  pub line_no : ℕ
  pub provenance : Option V
  pub text : String
  pub kind : Kind
  pub meaningful_chars : ℕ
  pub language_assessment : Option V
  pub stage_trace : List String
  pub doc_tier : String
  pub admission : Option V
  pub ingest_meta : Option V
  pub doc_content_hash : String
  pub text_store_key : Option String
  pub work_dir : Option String
  pub raw_features : Option V
  pub row : Option (Dict String V)
  pub pci_fp : Option V
  pub acim_intel : Option V
  pub acim_route : Option V
  pub lci : Option V
  pub stage0_cleared : Bool

pub record Store : Type 0 where
  pub files : Dict String String
  pub mapped : Dict String String

-- What the context asks of Python values: a text as a value, and whether a value is that text; the
-- name of a number; the path of a key below a work directory; the fingerprint of a dict.
pub record Values (V : Type 0) : Type 0 where
  pub text_value : String → V
  pub is_text : V → String → Bool
  pub number_name : ℕ → String
  pub store_path : String → String → String
  pub fingerprint_from_raw : V → Option V
  pub threshold : ℕ

-- `_work_dir` and keys are texts that may be missing or empty.
abbrev pub truthy : Option String → Option String
truthy none = none
truthy (some s) = if s == "" then none else some s

unfoldable pub last_is : String → List String → Bool
last_is stage [] = false
last_is stage (s ∷ []) = s == stage
last_is stage (s ∷ (t ∷ ts)) = last_is stage (t ∷ ts)

module _ {V : Type 0} where
  unfoldable pub mark : String → Context V → Context V
  unfolding last_is
  mark stage ctx =
      if last_is stage ctx.stage_trace
      then ctx
      else record ctx { stage_trace = ctx.stage_trace ++ stage ∷ [] }

  unfoldable pub reject : String → Context V → Context V
  reject reason ctx = record ctx {
    cleaning_rejects = ctx.cleaning_rejects ++ (reason, count ctx.text) ∷ [];
  }
