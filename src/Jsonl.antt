-- ===== src/Jsonl.antt =====
-- `count_jsonl_lines`, `parse_jsonl_line` and `resolve_jsonl_line_count` of
-- src/indw/store/io/jsonl.py.
--
-- A file is its text, or absent. `loads` is `orjson.loads`; `none` stands for what it raises, and for
-- what the conversions of the record's fields raise.
pub mod Count
mod Examples
use Prim.Native.Char.{Char, code}
use Prim.Native.String.{len}
use instant_ai_data_workflow.Prelude.{
  ℕ, ◌+◌, ◌-◌, ◌/◌, max, Bool, true, false, not, ◌&&◌, ◌||◌, Option, none, some, ltb, leb, ◌==◌,
  if◌then◌else◌, String, nat_eq, string_eq,
}
use instant_ai_data_workflow.Sink.{SourceMeta, write_source_line_meta}

-- The bytes that `bytes.strip` takes off.
unfoldable pub is_space : ℕ → Bool
is_space c = c == 32 || leb 9 c && leb c 13

-- The lines from here on that are not blank; `seen` tells that the current one is not.
unfoldable pub count_from : Bool → String → ℕ
unfolding is_space
count_from seen String.[] = if seen then 1 else 0
count_from seen (String.◌∷◌ c s) =
    let next = count_from false s in
    let same_line = count_from (seen || not (is_space (code c))) s in
    if code c == 10 then (if seen then 1 else 0) + next else same_line

unfoldable pub count_jsonl_lines : Option String → ℕ
unfolding count_from
count_jsonl_lines none = 0
count_jsonl_lines (some text) = count_from false text

-- The characters that `str.strip` takes off.
unfoldable pub is_str_space : ℕ → Bool
is_str_space c =
    leb 9 c && leb c 13
    || leb 28 c && leb c 32
    || c == 133
    || c == 160
    || c == 5760
    || leb 8192 c && leb c 8202
    || c == 8232
    || c == 8233
    || c == 8239
    || c == 8287
    || c == 12288

unfoldable pub is_blank : String → Bool
unfolding is_str_space
is_blank String.[] = true
is_blank (String.◌∷◌ c s) = is_str_space (code c) && is_blank s

-- What is parsed: an object, or any other value.
pub data Json (Obj : Type 0) : Type 0 where
  object : Obj → Json Obj
  other : Json Obj

pub data Parsed (Obj : Type 0) : Type 0 where
  blank : Parsed Obj
  parse_error : Parsed Obj
  parsed : Obj → Parsed Obj

unfoldable pub parse_jsonl_line :
    {Obj : Type 0} → (String → Option (Json Obj)) → String → Parsed Obj
unfolding is_blank
parse_jsonl_line loads line = if is_blank line then blank else elim (loads line) [
  | none ↦ parse_error
  | some other ↦ parse_error
  | some (object obj) ↦ parsed obj
]

-- What `resolve_jsonl_line_count` reads of the record beside a source.
pub record RawMeta : Type 0 where
  pub path : String
  pub line_count : Option ℕ
  pub bytes : ℕ

-- A source and the record beside it, whose text is a `T`.
pub record SourceFiles (T : Type 0) : Type 0 where
  pub name : String
  pub source : Option String
  pub meta : Option T

-- `abs(stored - actual) < max(4096, actual // 200)`
unfoldable pub close_to : ℕ → ℕ → Bool
close_to stored actual = ltb ((stored - actual) + (actual - stored)) (max 4096 (actual / 200))

-- The count that the record gives, where it is used.
unfoldable pub stored_count : String → ℕ → RawMeta → Option ℕ
unfolding close_to
stored_count name actual raw =
    if raw.path == name && (raw.bytes == 0 || close_to raw.bytes actual)
    then raw.line_count
    else none

module _ {T : Type 0} (loads_meta : T → Option RawMeta) (dumps_meta : SourceMeta → T) where
  unfoldable pub meta_count : SourceFiles T → String → Option ℕ
  unfolding stored_count
  meta_count files text = elim files.meta [
    | none ↦ none
    | some raw ↦ elim (loads_meta raw) [
      | none ↦ none
      | some m ↦ stored_count files.name (len text) m
    ]
  ]

  -- The lines are counted, and the record is written.
  unfoldable pub recount : SourceFiles T → String → ℕ × SourceFiles T
  unfolding write_source_line_meta count_jsonl_lines
  recount files text =
      let n = count_jsonl_lines (some text) in
      (
        n,
        record files {
          meta = some (dumps_meta (write_source_line_meta files.name n 0 (len text)));
        },
      )

  unfoldable pub resolve_text : Bool → SourceFiles T → String → ℕ × SourceFiles T
  unfolding recount meta_count
  resolve_text true files text = recount files text
  resolve_text false files text = elim (meta_count files text) [
    | none ↦ recount files text
    | some n ↦ (n, files)
  ]

  unfoldable pub resolve_jsonl_line_count : Bool → SourceFiles T → ℕ × SourceFiles T
  unfolding resolve_text
  resolve_jsonl_line_count recompute files = elim files.source [
    | none ↦ (0, files)
    | some text ↦ resolve_text recompute files text
  ]
