-- ===== src/ApplyPatch/Ranges.antt =====
-- nexau/archs/tool/builtin/file_tools/apply_patch.py: which lines `_compute_replacements` replaces.
use nex_au.Prelude.{
  ℕ, ◌+◌, ◌≤◌, ◌≡◌, refl, Bool, false, Option, none, some, List, [], ◌∷◌, ◌==◌, nat_eq, length,
  arith, leb, if◌then◌else◌, Bool-cases, Option-cases, inl, inr, All, subst,
}
use nex_au.Prelude.Results.{Result, ok, raise}
use nex_au.Prelude.Text.{Text}
use nex_au.ApplyPatch.{
  UpdateFileChunk, Replacement, PatchApplicationError, seek_sequence, ends_blank, drop_last,
  move_to_context, replace_at, find_shorter, find_lines, insertion_index, chunk_replacement,
  then_next, replacement_loop, insert_sorted, sort_replacements, compute_replacements,
}
use nex_au.ApplyPatch.Seek.{seek_sequence-found}

-- The lines that are replaced are lines of the file.
abbrev pub Within : List Text → Replacement → Type 0
Within lines r = r.start_index + r.old_length ≤ length lines

seek_sequence-within :
    (lines pattern : List Text) (start : ℕ) (eof : Bool) {i : ℕ}
    → start ≤ length lines
    → seek_sequence lines pattern start eof ≡ some i
    → i + length pattern ≤ length lines
unfolding seek_sequence
seek_sequence-within lines [] start eof {i} h e = let p : start ≡ i = cc e in omega (arith, p)
seek_sequence-within lines (p ∷ ps) start eof h e =
    let (_, _, b) = seek_sequence-found lines p ps start eof e in b

then_next-ok :
    {A B : Type 0} (r : Result PatchApplicationError A) (f : A → Result PatchApplicationError B)
    {b : B}
    → then_next r f ≡ ok b
    → (a : A) × (r ≡ ok a) × (f a ≡ ok b)
unfolding then_next
then_next-ok (ok a) f h = (a, refl, h)
then_next-ok (raise e) f h = cc

move_to_context-within :
    (lines : List Text) (context : Option Text) (index : ℕ) {i : ℕ}
    → index ≤ length lines
    → move_to_context lines context index ≡ ok i
    → i ≤ length lines
unfolding move_to_context
move_to_context-within lines none index {i} h e = let p : index ≡ i = cc e in omega (arith, p)
move_to_context-within lines (some c) index {i} h e =
    elim (Option-cases (seek_sequence lines (c ∷ []) index false)) [
      | inl p ↦ let q = rw (p, move_to_context) at e in absurd (cc q)
      | inr (j, p) ↦
          let q = rw (p, move_to_context) at e in
          let w = seek_sequence-within lines (c ∷ []) index false h p in
          let s : j + 1 ≡ i = cc q in omega (arith, w, s)
    ]

-- A replacement within the lines, and behind it a place within them.
abbrev Fits : List Text → Replacement × ℕ → Type 0
Fits lines x = Within lines x.0 × x.1 ≤ length lines

found-Fits :
    (lines pattern new : List Text) (start : ℕ) (eof : Bool) {i : ℕ}
    → start ≤ length lines
    → seek_sequence lines pattern start eof ≡ some i
    → Fits lines (replace_at pattern new i)
unfolding replace_at
found-Fits lines pattern new start eof h e =
    let w = seek_sequence-within lines pattern start eof h e in (w, w)

find_shorter-Fits :
    (lines : List Text) (c : UpdateFileChunk) (index : ℕ) {x : Replacement × ℕ}
    → index ≤ length lines
    → find_shorter lines c index ≡ ok x
    → Fits lines x
unfolding find_shorter
find_shorter-Fits lines c index {x} h e = elim (Bool-cases (ends_blank c.old_lines)) [
  | inl b ↦
      let shorter = rw (b, find_shorter) at e in
      elim (Option-cases (seek_sequence lines (drop_last c.old_lines) index c.is_end_of_file)) [
        | inl p ↦ let q = rw p at shorter in absurd (cc q)
        | inr (i, p) ↦
            let r =
              replace_at (drop_last c.old_lines)
                (if ends_blank c.new_lines then drop_last c.new_lines else c.new_lines) i in
            let q : r ≡ x = (let q = rw p at shorter in cc q) in
            subst (Fits lines) q (
              found-Fits lines (drop_last c.old_lines)
                (if ends_blank c.new_lines then drop_last c.new_lines else c.new_lines) index
                c.is_end_of_file h p)
      ]
  | inr b ↦ let q = rw (b, find_shorter) at e in absurd (cc q)
]

find_lines-Fits :
    (lines : List Text) (c : UpdateFileChunk) (index : ℕ) {x : Replacement × ℕ}
    → index ≤ length lines
    → find_lines lines c index ≡ ok x
    → Fits lines x
unfolding find_lines
find_lines-Fits lines c index {x} h e =
    elim (Option-cases (seek_sequence lines c.old_lines index c.is_end_of_file)) [
      | inl p ↦ find_shorter-Fits lines c index h (rw (p, find_lines) at e)
      | inr (i, p) ↦
          let q : replace_at c.old_lines c.new_lines i ≡ x =
            (let q = rw (p, find_lines) at e in cc q) in
          subst (Fits lines) q (found-Fits lines c.old_lines c.new_lines index c.is_end_of_file h p)
    ]

chunk_replacement-Fits :
    (lines : List Text) (c : UpdateFileChunk) (index : ℕ) {x : Replacement × ℕ}
    → index ≤ length lines
    → chunk_replacement lines c index ≡ ok x
    → Fits lines x
unfolding chunk_replacement insertion_index
chunk_replacement-Fits lines c index {x} h e = elim (Bool-cases (length c.old_lines == 0)) [
  | inl b ↦
      let r : Replacement = record {
        start_index = insertion_index lines;
        old_length = 0;
        new_segment = c.new_lines;
      } in
      let q : (r, index) ≡ x = (let q = rw b at e in cc q) in subst (Fits lines) q (ground arith, h)
  | inr b ↦ find_lines-Fits lines c index h (rw b at e)
]

replacement_loop-Within :
    (lines : List Text) (index : ℕ) (cs : List UpdateFileChunk) {rs : List Replacement}
    → index ≤ length lines
    → replacement_loop lines index cs ≡ ok rs
    → All (Within lines) rs
unfolding replacement_loop
replacement_loop-Within lines index [] {rs} h e =
    let q : [] ≡ rs = cc e in subst (All (Within lines)) q tt
replacement_loop-Within lines index (c ∷ cs) {rs} h e =
    let (i, p, e1) = then_next-ok (move_to_context lines c.change_context index) _ e in
    let (x, p', e2) = then_next-ok (chunk_replacement lines c i) _ e1 in
    let (rs', p'', e3) = then_next-ok (replacement_loop lines x.1 cs) _ e2 in
    let (w, b) =
      chunk_replacement-Fits lines c i (move_to_context-within lines c.change_context index h p)
        p' in
    let q : x.0 ∷ rs' ≡ rs = cc e3 in
    subst (All (Within lines)) q (w, replacement_loop-Within lines x.1 cs b p'')

insert_sorted-All :
    (lines : List Text) (r : Replacement) (rs : List Replacement)
    → Within lines r
    → All (Within lines) rs
    → All (Within lines) (insert_sorted r rs)
unfolding insert_sorted
insert_sorted-All lines r [] h hs = (h, tt)
insert_sorted-All lines r (q ∷ qs) h hs = elim (Bool-cases (leb r.start_index q.start_index)) [
  | inl e ↦ rw e (h, hs)
  | inr e ↦ rw e (hs.0, insert_sorted-All lines r qs h hs.1)
]

sort_replacements-All :
    (lines : List Text) (rs : List Replacement)
    → All (Within lines) rs
    → All (Within lines) (sort_replacements rs)
unfolding sort_replacements
sort_replacements-All lines [] h = tt
sort_replacements-All lines (r ∷ rs) h =
    insert_sorted-All lines r _ h.0 (sort_replacements-All lines rs h.1)

-- Whatever the chunks are, the replacements that are computed replace lines of the file only.
pub compute_replacements-Within :
    (lines : List Text) (chunks : List UpdateFileChunk) {rs : List Replacement}
    → compute_replacements lines chunks ≡ ok rs
    → All (Within lines) rs
unfolding compute_replacements
compute_replacements-Within lines chunks {rs} h =
    let (rs', e, p) = then_next-ok (replacement_loop lines 0 chunks) _ h in
    let q : sort_replacements rs' ≡ rs = cc p in
    subst (All (Within lines)) q
      (sort_replacements-All lines rs' (replacement_loop-Within lines 0 chunks (omega arith) e))
