-- ===== src/ApplyPatch.antt =====
-- nexau/archs/tool/builtin/file_tools/apply_patch.py: how the chunks of an update change the lines
-- of a file.
pub mod Seek
pub mod Replace
pub mod Ranges
pub mod Chunks
mod Samples
use nex_au.Prelude.{
  ℕ, zero, suc, ◌+◌, ◌-◌, ◌≡◌, refl, Bool, true, false, not, ◌&&◌, ◌||◌, Option, none, some, List,
  [], ◌∷◌, ◌++◌, ◌==◌, nat_eq, list_eq, ltb, leb, length, take, drop, map, contains, if◌then◌else◌,
}
use nex_au.Prelude.Results.{Result, ok, raise}
use nex_au.Prelude.Text.{Text, strip, rstrip}

-- UpdateFileChunk
pub record UpdateFileChunk : Type 0 where
  pub change_context : Option Text
  pub old_lines : List Text
  pub new_lines : List Text
  pub is_end_of_file : Bool

-- What is replaced: `old_length` lines from `start_index` on, by `new_segment`.
pub record Replacement : Type 0 where
  pub start_index : ℕ
  pub old_length : ℕ
  pub new_segment : List Text

-- PatchApplicationError, by its two causes.
pub data PatchApplicationError : Type 0 where
  context_not_found : Text → PatchApplicationError
  lines_not_found : List Text → PatchApplicationError

-- UNICODE_NORMALIZATION_MAP
abbrev dashes : List ℕ
dashes = 0x2010 ∷ 0x2011 ∷ 0x2012 ∷ 0x2013 ∷ 0x2014 ∷ 0x2015 ∷ 0x2212 ∷ []

abbrev single_quotes : List ℕ
single_quotes = 0x2018 ∷ 0x2019 ∷ 0x201a ∷ 0x201b ∷ []

abbrev double_quotes : List ℕ
double_quotes = 0x201c ∷ 0x201d ∷ 0x201e ∷ 0x201f ∷ []

abbrev blanks : List ℕ
blanks =
    0xa0 ∷ 0x2002 ∷ 0x2003 ∷ 0x2004 ∷ 0x2005 ∷ 0x2006 ∷ 0x2007 ∷ 0x2008 ∷ 0x2009 ∷ 0x200a ∷ 0x202f
    ∷ 0x205f ∷ 0x3000 ∷ []

normalize_char : ℕ → ℕ
normalize_char c =
    if contains dashes c
    then b'-'
    else if contains single_quotes c
    then 39
    else if contains double_quotes c
    then 34
    else if contains blanks c
    then b' '
    else c

-- `_normalize_unicode_line`
pub normalize_unicode_line : Text → Text
unfolding normalize_char
normalize_unicode_line value = map normalize_char (strip value)

-- `all(… for offset, item in enumerate(pattern))`, of the lines from the index on.
pub all_same : (Text → Text → Bool) → List Text → List Text → Bool
all_same same lines [] = true
all_same same [] (p ∷ ps) = false
all_same same (l ∷ lines) (p ∷ ps) = same l p && all_same same lines ps

-- `for index in range(start, start + n)`: the first index that passes the test.
pub first_index : (ℕ → Bool) → (start n : ℕ) → Option ℕ
first_index test start zero = none
first_index test start (suc n) =
    let rest = first_index test (suc start) n in if test start then some start else rest

pub or_else : Option ℕ → Option ℕ → Option ℕ
or_else none other = other
or_else (some i) other = some i

-- The four tests, from the strict one to the most permissive one.
pub exact_at : List Text → List Text → ℕ → Bool
exact_at lines pattern i = take (length pattern) (drop i lines) == pattern

pub rstrip_at : List Text → List Text → ℕ → Bool
rstrip_at lines pattern i = all_same (λ l p. rstrip l == rstrip p) (drop i lines) pattern

pub strip_at : List Text → List Text → ℕ → Bool
strip_at lines pattern i = all_same (λ l p. strip l == strip p) (drop i lines) pattern

pub unicode_at : List Text → List Text → ℕ → Bool
unicode_at lines pattern i =
    all_same (λ l p. normalize_unicode_line l == normalize_unicode_line p) (drop i lines) pattern

-- The four loops over `range(search_start, max_index + 1)`, which has `n` elements.
pub search : List Text → List Text → (start n : ℕ) → Option ℕ
unfolding or_else
search lines pattern start n = or_else (first_index (exact_at lines pattern) start n) (
    or_else (first_index (rstrip_at lines pattern) start n) (
      or_else (first_index (strip_at lines pattern) start n)
        (first_index (unicode_at lines pattern) start n)))

abbrev pub search_start : List Text → List Text → (start : ℕ) → (eof : Bool) → ℕ
search_start lines pattern start eof = if eof then length lines - length pattern else start

-- `_seek_sequence`
pub seek_sequence : (lines pattern : List Text) → (start : ℕ) → (eof : Bool) → Option ℕ
unfolding search
seek_sequence lines [] start eof = some start
seek_sequence lines (p ∷ ps) start eof =
    if ltb (length lines) (length (p ∷ ps))
    then none
    else search lines (p ∷ ps) (search_start lines (p ∷ ps) start eof)
        (length lines - length (p ∷ ps) + 1 - search_start lines (p ∷ ps) start eof)

-- `lines and lines[-1] == ""`, and `lines[:-1]`.
pub ends_blank : List Text → Bool
ends_blank [] = false
ends_blank (l ∷ []) = l == []
ends_blank (l ∷ m ∷ ls) = ends_blank (m ∷ ls)

pub drop_last : List Text → List Text
drop_last [] = []
drop_last (l ∷ []) = []
drop_last (l ∷ m ∷ ls) = l ∷ drop_last (m ∷ ls)

-- The context line of a chunk moves the line from which its lines are looked for.
pub move_to_context : List Text → Option Text → ℕ → Result PatchApplicationError ℕ
move_to_context lines none index = ok index
move_to_context lines (some context) index = elim (seek_sequence lines (context ∷ []) index false) [
  | none ↦ raise (context_not_found context)
  | some i ↦ ok (i + 1)
]

-- A replacement, and the line behind it.
pub replace_at : (pattern new_slice : List Text) → ℕ → Replacement × ℕ
replace_at pattern new_slice i = (
  record { start_index = i; old_length = length pattern; new_segment = new_slice },
  i + length pattern,
)

-- The second attempt, without the last line of the pattern, where that is empty.
pub find_shorter : List Text → UpdateFileChunk → ℕ → Result PatchApplicationError (Replacement × ℕ)
unfolding replace_at
find_shorter lines c index =
    if ends_blank c.old_lines
    then elim (seek_sequence lines (drop_last c.old_lines) index c.is_end_of_file) [
      | none ↦ raise (lines_not_found c.old_lines)
      | some i ↦ ok (
          replace_at (drop_last c.old_lines)
            (if ends_blank c.new_lines then drop_last c.new_lines else c.new_lines) i)
    ]
    else raise (lines_not_found c.old_lines)

pub find_lines : List Text → UpdateFileChunk → ℕ → Result PatchApplicationError (Replacement × ℕ)
unfolding replace_at find_shorter
find_lines lines c index = elim (seek_sequence lines c.old_lines index c.is_end_of_file) [
  | none ↦ find_shorter lines c index
  | some i ↦ ok (replace_at c.old_lines c.new_lines i)
]

pub insertion_index : List Text → ℕ
insertion_index lines = if ends_blank lines then length lines - 1 else length lines

-- The body of the loop of `_compute_replacements`, behind the context.
pub chunk_replacement :
    List Text → UpdateFileChunk → ℕ → Result PatchApplicationError (Replacement × ℕ)
unfolding insertion_index find_lines
chunk_replacement lines c index =
    if length c.old_lines == 0
    then ok (
      record { start_index = insertion_index lines; old_length = 0; new_segment = c.new_lines },
      index,
    )
    else find_lines lines c index

then_next :
    {A B : Type 0}
    → Result PatchApplicationError A
    → (A → Result PatchApplicationError B)
    → Result PatchApplicationError B
then_next (ok a) f = f a
then_next (raise e) f = raise e

pub replacement_loop :
    List Text → ℕ → List UpdateFileChunk → Result PatchApplicationError (List Replacement)
unfolding then_next chunk_replacement move_to_context
replacement_loop lines index [] = ok []
replacement_loop lines index (c ∷ cs) =
    then_next (move_to_context lines c.change_context index) λ i.
      then_next (chunk_replacement lines c i)
        λ r. then_next (replacement_loop lines r.1 cs) λ rs. ok (r.0 ∷ rs)

-- `replacements.sort(key=lambda item: item[0])`, which is stable.
insert_sorted : Replacement → List Replacement → List Replacement
insert_sorted r [] = r ∷ []
insert_sorted r (q ∷ qs) =
    let rest = insert_sorted r qs in
    if leb r.start_index q.start_index then r ∷ q ∷ qs else q ∷ rest

sort_replacements : List Replacement → List Replacement
unfolding insert_sorted
sort_replacements [] = []
sort_replacements (r ∷ rs) = insert_sorted r (sort_replacements rs)

-- `_compute_replacements`
pub compute_replacements :
    List Text → List UpdateFileChunk → Result PatchApplicationError (List Replacement)
unfolding sort_replacements replacement_loop then_next
compute_replacements lines chunks =
    then_next (replacement_loop lines 0 chunks) λ rs. ok (sort_replacements rs)

-- `updated_lines.pop(i)`, where there is a line `i`; and `n` times.
pop_at : ℕ → List Text → List Text
pop_at i [] = []
pop_at zero (l ∷ ls) = ls
pop_at (suc i) (l ∷ ls) = l ∷ pop_at i ls

pop_times : ℕ → ℕ → List Text → List Text
unfolding pop_at
pop_times zero i ls = ls
pop_times (suc n) i ls = pop_times n i (pop_at i ls)

-- `updated_lines.insert(i, line)`: at the end where `i` is beyond it.
insert_at : ℕ → Text → List Text → List Text
insert_at zero line ls = line ∷ ls
insert_at (suc i) line [] = line ∷ []
insert_at (suc i) line (l ∷ ls) = l ∷ insert_at i line ls

insert_all : ℕ → List Text → List Text → List Text
unfolding insert_at
insert_all i [] ls = ls
insert_all i (line ∷ lines) ls = insert_all (suc i) lines (insert_at i line ls)

apply_one : Replacement → List Text → List Text
unfolding pop_times insert_all
apply_one r lines =
    insert_all r.start_index r.new_segment (pop_times r.old_length r.start_index lines)

-- `_apply_replacements`, the last one first.
pub apply_replacements : List Text → List Replacement → List Text
unfolding apply_one
apply_replacements lines [] = lines
apply_replacements lines (r ∷ rs) = apply_one r (apply_replacements lines rs)
