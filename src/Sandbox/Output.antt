-- ===== src/Sandbox/Output.antt =====
-- nexau/archs/sandbox/output_utils.py: the output of a command, cleaned for the model. The one
-- parameter is `digit`, the table of `\d` in the standard library's `re`.
pub mod Unchanged
pub mod Cleaned
pub mod Repeated
mod Samples
use nex_au.Prelude.{
  ℕ, zero, suc, ◌+◌, ◌-◌, Bool, true, false, not, ◌&&◌, ◌||◌, List, [], ◌∷◌, ◌++◌, ◌==◌, nat_eq,
  list_eq, contains, ltb, leb, length, take, map, if◌then◌else◌,
}
use nex_au.Prelude.Text.{Text, text, starts_with}
use nex_au.Team.Slug.{decimal}

-- `sub("", text)` of a pattern. `match` is how many characters the pattern takes at the beginning of a
-- text, zero where it does not match there; `left` are those of a match that are still to go.
pub remove : (match : Text → ℕ) (left : ℕ) → Text → Text
remove match left [] = []
remove match left (c ∷ s) =
    let n = if left == 0 then match (c ∷ s) else left in
    let rest = remove match (n - 1) s in if n == 0 then c ∷ rest else rest

between : ℕ → ℕ → ℕ → Bool
between low high c = leb low c && leb c high

-- How many characters of a class a text begins with.
prefix : (ℕ → Bool) → Text → ℕ
prefix p [] = 0
prefix p (c ∷ s) = let n = suc (prefix p s) in if p c then n else 0

behind : ℕ → Text → Text
behind zero s = s
behind (suc n) [] = []
behind (suc n) (c ∷ s) = behind n s

final_byte : Text → Bool
unfolding between
final_byte [] = false
final_byte (c ∷ s) = between 64 126 c

-- `_ANSI_CSI_RE`; its three classes have no character in common.
csi_body : Text → ℕ
unfolding between prefix behind final_byte
csi_body s =
    let params = prefix (between 48 63) s in
    let middle = prefix (between 32 47) (behind params s) in
    if final_byte (behind (params + middle) s) then 3 + (params + middle) else 0

csi : Text → ℕ
unfolding behind csi_body
csi s = if starts_with s (27 ∷ 91 ∷ []) then csi_body (behind 2 s) else 0

-- `.*?(?:\x1b\\|\x07)` behind `\x1b\]`: how many characters up to the end of the first terminator,
-- where no line ends before it.
osc_body : ℕ → Text → ℕ
osc_body n [] = 0
osc_body n (c ∷ s) =
    let further = osc_body (suc n) s in
    if starts_with (c ∷ s) (27 ∷ 92 ∷ [])
    then n + 2
    else (if c == 7 then n + 1 else (if c == 10 then 0 else further))

osc : Text → ℕ
unfolding behind osc_body
osc s = if starts_with s (27 ∷ 93 ∷ []) then osc_body 2 (behind 2 s) else 0

other_escape : Text → ℕ
other_escape [] = 0
other_escape (c ∷ []) = 0
other_escape (c ∷ d ∷ s) = if (c == 27) && not (d == 91 || d == 93) then 2 else 0

pub strip_ansi : Text → Text
unfolding remove csi osc other_escape
strip_ansi s = remove other_escape 0 (remove osc 0 (remove csi 0 s))

-- `split(c)` of a character, and `"\n".join`
abbrev pub onto : ℕ → List Text → List Text
onto c [] = (c ∷ []) ∷ []
onto c (w ∷ ws) = (c ∷ w) ∷ ws

pub split_at : ℕ → Text → List Text
split_at c [] = [] ∷ []
split_at c (d ∷ s) = let rest = split_at c s in if d == c then [] ∷ rest else onto d rest

unfoldable pub join_lines : List Text → Text
join_lines [] = []
join_lines (l ∷ []) = l
join_lines (l ∷ m ∷ ls) = l ++ 10 ∷ join_lines (m ∷ ls)

-- `replace("\r\n", "\n")`
pub replace_crlf : Text → Text
replace_crlf [] = []
replace_crlf (c ∷ s) =
    let rest = replace_crlf s in if (c == 13) && starts_with s (10 ∷ []) then rest else c ∷ rest

-- `rsplit("\r", 1)[-1]`
pub after_last_cr : Text → Text
after_last_cr [] = []
after_last_cr (c ∷ s) =
    let rest = after_last_cr s in if contains s 13 then rest else (if c == 13 then s else c ∷ s)

pub overwritten : Text → Text
unfolding after_last_cr
overwritten line = if contains line 13 then after_last_cr line else line

pub resolve_cr : Text → Text
unfolding overwritten split_at join_lines replace_crlf
resolve_cr s = join_lines (map overwritten (split_at 10 (replace_crlf s)))

pub summary_of : ℕ → Text
unfolding decimal
summary_of (suc zero) = text "... [-1 similar lines collapsed]"
summary_of n = text "... [" ++ decimal (n - 2) ++ text " similar lines collapsed]"

abbrev pub last_of : Text → List Text → Text
last_of l [] = l
last_of l (m ∷ ls) = last_of m ls

-- What is shown of a run, its first line and the others.
pub shown : (min_run : ℕ) → Text → List Text → List Text
unfolding summary_of
shown min_run l more =
    if leb min_run (suc (length more))
    then l ∷ summary_of (suc (length more)) ∷ last_of l more ∷ []
    else l ∷ more

module _ (digit : ℕ → Bool) where
  digits_as_n : (inside : Bool) → Text → Text
  digits_as_n inside [] = []
  digits_as_n inside (c ∷ s) =
      let rest = digits_as_n (digit c) s in
      if digit c then (if inside then rest else 78 ∷ rest) else c ∷ rest

  pub normalize_for_similarity : Text → Text
  unfolding digits_as_n
  normalize_for_similarity line = digits_as_n false line

  -- How many lines have the given form, up to the first that has not.
  pub similar : Text → List Text → ℕ
  unfolding normalize_for_similarity
  similar normalized [] = 0
  similar normalized (l ∷ ls) =
      let n = suc (similar normalized ls) in
      if normalize_for_similarity l == normalized then n else 0

  -- The loop over the runs. `left` are the lines of the present run that are still ahead.
  pub collapse_from : (min_run left : ℕ) → List Text → List Text
  unfolding similar shown normalize_for_similarity
  collapse_from min_run left [] = []
  collapse_from min_run left (l ∷ ls) =
      let n = if left == 0 then similar (normalize_for_similarity l) ls else left - 1 in
      let rest = collapse_from min_run n ls in
      if left == 0 then shown min_run l (take n ls) ++ rest else rest

  pub collapse_repetitive : (min_run : ℕ) → Text → Text
  unfolding collapse_from split_at join_lines
  collapse_repetitive min_run s =
      let lines = split_at 10 s in
      if ltb (length lines) min_run then s else join_lines (collapse_from min_run 0 lines)

  pub clean_shell_output : Text → Text
  unfolding collapse_repetitive resolve_cr strip_ansi
  clean_shell_output [] = []
  clean_shell_output (c ∷ s) = collapse_repetitive 4 (resolve_cr (strip_ansi (c ∷ s)))
