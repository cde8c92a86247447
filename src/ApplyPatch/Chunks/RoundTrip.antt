-- ===== src/ApplyPatch/Chunks/RoundTrip.antt =====
-- nexau/archs/tool/builtin/file_tools/apply_patch.py: chunks that are written out, and
-- `_parse_update_file_chunk`.
use nex_au.Prelude.{
  ℕ, suc, ◌+◌, ◌≡◌, refl, ap, sym, ◌∙◌, Bool, false, some, List, [], ◌∷◌, ◌++◌, ◌==◌, nat_eq,
  list_eq, length, map, arith,
}
use mathlib.Core.List.{append_assoc, append-nil}
use nex_au.Prelude.Results.{Result, ok}
use nex_au.Prelude.Text.{Text, text, starts_with}
use nex_au.ApplyPatch.{UpdateFileChunk}
use nex_au.ApplyPatch.Chunks.{
  line_kind, other, parse_lines, count_from, parse_behind, parse_update_file_chunk,
  InvalidHunkError,
}

-- One line of a change.
pub data Edit : Type 0 where
  keep add remove : Text → Edit

-- How a patch spells it.
abbrev pub render : Edit → Text
render (keep l) = b' ' ∷ l
render (add l) = b'+' ∷ l
render (remove l) = b'-' ∷ l

-- The lines before the change, and behind it.
abbrev pub before : List Edit → List Text
before [] = []
before (keep l ∷ es) = l ∷ before es
before (add l ∷ es) = before es
before (remove l ∷ es) = l ∷ before es

abbrev pub after : List Edit → List Text
after [] = []
after (keep l ∷ es) = l ∷ after es
after (add l ∷ es) = l ∷ after es
after (remove l ∷ es) = after es

-- What follows the change: nothing, or a line that is none of a chunk's.
pub data Ends : List Text → Type 0 where
  at_end : Ends []
  at_other : (l : Text) (ls : List Text) → line_kind l ≡ other → Ends (l ∷ ls)

abbrev grown : UpdateFileChunk → List Edit → UpdateFileChunk
grown c es = record c { old_lines = c.old_lines ++ before es; new_lines = c.new_lines ++ after es }

abbrev answer : UpdateFileChunk → ℕ → Result InvalidHunkError (UpdateFileChunk × ℕ)
answer c m = ok (c, m)

same_answer :
    (c : UpdateFileChunk) {a a' b b' : List Text} {m m' : ℕ}
    → a ≡ a'
    → b ≡ b'
    → m ≡ m'
    → answer (record c { old_lines = a; new_lines = b }) m
      ≡ answer (record c { old_lines = a'; new_lines = b' }) m'
same_answer c p q r = rw (p, q, r)

edit_step :
    (n : ℕ) (c : UpdateFileChunk) (parsed : ℕ) (e : Edit) (es : List Edit) (rest : List Text)
    → ((c' : UpdateFileChunk)
        → parse_lines n c' (suc parsed) (map render es ++ rest)
          ≡ ok (grown c' es, suc parsed + length es))
    → parse_lines n c parsed (map render (e ∷ es) ++ rest)
      ≡ ok (grown c (e ∷ es), parsed + suc (length es))
unfolding parse_lines line_kind
edit_step n c parsed (keep l) es rest h =
    h _
    ∙ same_answer c (append_assoc c.old_lines (l ∷ []) (before es))
        (append_assoc c.new_lines (l ∷ []) (after es)) (omega arith)
edit_step n c parsed (add l) es rest h =
    h _ ∙ same_answer c refl (append_assoc c.new_lines (l ∷ []) (after es)) (omega arith)
edit_step n c parsed (remove l) es rest h =
    h _ ∙ same_answer c (append_assoc c.old_lines (l ∷ []) (before es)) refl (omega arith)

parse_lines-render :
    (n : ℕ) (c : UpdateFileChunk) (parsed : ℕ) (es : List Edit) (rest : List Text)
    → Ends rest
    → parse_lines n c (suc parsed) (map render es ++ rest) ≡ ok (grown c es, suc parsed + length es)
unfolding parse_lines
parse_lines-render n c parsed [] [] at_end =
    same_answer c (sym (append-nil c.old_lines)) (sym (append-nil c.new_lines)) (omega arith)
parse_lines-render n c parsed [] (l ∷ ls) (at_other _ _ k) =
    let z : (suc parsed == 0) ≡ false = ground arith in
    rw (k, parse_lines, z)
      (same_answer c (sym (append-nil c.old_lines)) (sym (append-nil c.new_lines)) (omega arith))
parse_lines-render n c parsed (e ∷ es) rest h =
    edit_step n c (suc parsed) e es rest (λ c'. parse_lines-render n c' (suc parsed) es rest h)

-- A change that is written out line by line, with its context line, is read back from the patch: the
-- chunk has the lines before the change and those behind it, and the lines that were read are the
-- written ones, whatever line that is none of a chunk's follows.
pub parse_update_file_chunk-render :
    (number : ℕ) (allow : Bool) (ctx : Text) (e : Edit) (es : List Edit) (rest : List Text)
    → Ends rest
    → parse_update_file_chunk ((text "@@ " ++ ctx) ∷ map render (e ∷ es) ++ rest) number allow
      ≡ ok (
        record {
          change_context = some ctx;
          old_lines = before (e ∷ es);
          new_lines = after (e ∷ es);
          is_end_of_file = false;
        },
        suc (length es) + 1,
      )
unfolding parse_update_file_chunk parse_behind count_from starts_with
parse_update_file_chunk-render number allow ctx e es rest h =
    ap (count_from 1) (
      edit_step number
        (record {
          change_context = some ctx;
          old_lines = [];
          new_lines = [];
          is_end_of_file = false;
        })
        0 e es rest (λ c'. parse_lines-render number c' 0 es rest h))
    ∙ ap
        (λ m.
          answer
            (grown
              (record {
                change_context = some ctx;
                old_lines = [];
                new_lines = [];
                is_end_of_file = false;
              })
              (e ∷ es))
            (m + 1))
        (omega arith)
