-- ===== src/ApplyPatch/Chunks.antt =====
-- nexau/archs/tool/builtin/file_tools/apply_patch.py: `_parse_update_file_chunk`, which reads one
-- chunk of an update from the lines of a patch.
pub mod RoundTrip
use nex_au.Prelude.{
  ℕ, zero, suc, ◌+◌, Bool, true, false, not, Option, none, some, List, [], ◌∷◌, ◌++◌, ◌==◌, nat_eq,
  list_eq, drop, if◌then◌else◌,
}
use nex_au.Prelude.Results.{Result, ok, raise}
use nex_au.Prelude.Text.{Text, text, starts_with}
use nex_au.ApplyPatch.{UpdateFileChunk}

-- InvalidHunkError, by its causes, with its line number.
pub data InvalidHunkError : Type 0 where
  no_lines : ℕ → InvalidHunkError
  expected_context : Text → ℕ → InvalidHunkError
  unexpected_line : Text → ℕ → InvalidHunkError

abbrev eof_marker : Text
eof_marker = text "*** End of File"

-- What a line of a chunk is: the marker, a context line, an added one, a removed one, or none.
pub data Kind : Type 0 where
  eof : Kind
  context added removed : Text → Kind
  other : Kind

unfoldable pub line_kind : Text → Kind
line_kind [] = context []
line_kind (c ∷ cs) =
    if c ∷ cs == eof_marker
    then eof
    else if c == b' '
    then context cs
    else if c == b'+'
    then added cs
    else if c == b'-'
    then removed cs
    else other

-- The loop over the lines, with `chunk` and `parsed_lines`.
pub parse_lines :
    (line_number : ℕ)
    → UpdateFileChunk
    → (parsed_lines : ℕ) → List Text
    → Result InvalidHunkError (UpdateFileChunk × ℕ)
parse_lines number chunk parsed [] = ok (chunk, parsed)
parse_lines number chunk parsed (line ∷ lines) = elim (line_kind line) [
  | eof ↦
      if parsed == 0
      then raise (no_lines (number + 1))
      else ok (record chunk { is_end_of_file = true }, parsed + 1)
  | context l ↦
      parse_lines number
        (record chunk {
          old_lines = chunk.old_lines ++ l ∷ [];
          new_lines = chunk.new_lines ++ l ∷ [];
        })
        (suc parsed) lines
  | added l ↦
      parse_lines number (record chunk { new_lines = chunk.new_lines ++ l ∷ [] }) (suc parsed) lines
  | removed l ↦
      parse_lines number (record chunk { old_lines = chunk.old_lines ++ l ∷ [] }) (suc parsed) lines
  | other ↦ if parsed == 0 then raise (unexpected_line line (number + 1)) else ok (chunk, parsed)
]

-- The number of lines that were read, with the line of the context.
count_from :
    ℕ
    → Result InvalidHunkError (UpdateFileChunk × ℕ)
    → Result InvalidHunkError (UpdateFileChunk × ℕ)
count_from n (ok (chunk, parsed)) = ok (chunk, parsed + n)
count_from n (raise e) = raise e

-- Behind the context line, of which there are `start_index`.
pub parse_behind :
    ℕ → Option Text → (start_index : ℕ) → List Text → Result InvalidHunkError (UpdateFileChunk × ℕ)
unfolding count_from parse_lines
parse_behind number change_context start [] = raise (no_lines (number + 1))
parse_behind number change_context start (l ∷ ls) = count_from start (
    parse_lines number
      (record {
        change_context = change_context;
        old_lines = [];
        new_lines = [];
        is_end_of_file = false;
      })
      0 (l ∷ ls))

-- `_parse_update_file_chunk`
pub parse_update_file_chunk :
    (lines : List Text)
    → (line_number : ℕ) → (allow_missing_context : Bool)
    → Result InvalidHunkError (UpdateFileChunk × ℕ)
unfolding parse_behind
parse_update_file_chunk [] number allow = raise (no_lines number)
parse_update_file_chunk (line ∷ lines) number allow =
    if line == text "@@"
    then parse_behind number none 1 lines
    else if starts_with line (text "@@ ")
    then parse_behind number (some (drop 3 line)) 1 lines
    else if not allow
    then raise (expected_context line number)
    else parse_behind number none 0 (line ∷ lines)
