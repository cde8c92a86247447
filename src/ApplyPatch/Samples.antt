-- ===== src/ApplyPatch/Samples.antt =====
-- The theorems on patches at sample lines.
use nex_au.Prelude.{ℕ, ◌≤◌, ◌≡◌, refl, false, some, List, [], ◌∷◌, ◌++◌, map, arith, All}
use nex_au.Prelude.Text.{Text, text}
use nex_au.ApplyPatch.{
  UpdateFileChunk, Replacement, exact_at, search, first_index, seek_sequence, compute_replacements,
  replacement_loop, apply_replacements,
}
use nex_au.Prelude.Results.{ok}
use nex_au.ApplyPatch.Chunks.{line_kind, parse_update_file_chunk}
use nex_au.ApplyPatch.Chunks.RoundTrip.{
  keep, add, remove, render, at_other, parse_update_file_chunk-render,
}
use nex_au.ApplyPatch.Seek.{FirstFrom, seek_sequence-exact}
use nex_au.ApplyPatch.Replace.{splice, apply_replacements-splice}
use nex_au.ApplyPatch.Ranges.{Within, compute_replacements-Within}

abbrev lines : List Text
lines = text "a" ∷ text " b" ∷ text "b" ∷ text "c" ∷ []

abbrev chunk : UpdateFileChunk
chunk = record {
  change_context = some (text "a");
  old_lines = text "b" ∷ [];
  new_lines = text "x" ∷ text "y" ∷ [];
  is_end_of_file = false;
}

abbrev replacement : Replacement
replacement = record { start_index = 2; old_length = 1; new_segment = text "x" ∷ text "y" ∷ [] }

seek_sequence-exact_example :
    (j : ℕ) × (seek_sequence lines (text "b" ∷ []) 0 false ≡ some j)
    × j ≤ 2
    × FirstFrom (exact_at lines (text "b" ∷ [])) 0 j
unfolding exact_at
seek_sequence-exact_example =
    seek_sequence-exact lines (text "b") [] 0 false 2 refl (omega arith) (omega arith)

compute_replacements-Within_example : All (Within lines) (replacement ∷ [])
unfolding compute_replacements replacement_loop seek_sequence search first_index exact_at
compute_replacements-Within_example = compute_replacements-Within lines (chunk ∷ []) refl

apply_replacements-splice_example :
    apply_replacements lines (replacement ∷ []) ≡ splice 0 lines (replacement ∷ [])
apply_replacements-splice_example =
    apply_replacements-splice lines (replacement ∷ []) (omega arith, omega arith, tt)

abbrev ending : List Text
ending = text "*** End Patch" ∷ []

parse_update_file_chunk-render_example :
    parse_update_file_chunk
      ((text "@@ " ++ text "a")
          ∷ map render (keep (text "a") ∷ remove (text "b") ∷ add (text "x") ∷ [])
        ++ ending)
      7
      false
    ≡ ok (
      record {
        change_context = some (text "a");
        old_lines = text "a" ∷ text "b" ∷ [];
        new_lines = text "a" ∷ text "x" ∷ [];
        is_end_of_file = false;
      },
      4,
    )
unfolding line_kind
parse_update_file_chunk-render_example =
    parse_update_file_chunk-render 7 false (text "a") (keep (text "a"))
      (remove (text "b") ∷ add (text "x") ∷ []) ending (at_other _ _ refl)
