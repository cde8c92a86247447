-- ===== src/Team/Slug.antt =====
-- nexau/archs/main_sub/team/task_board.py: `_slugify`, which names a deliverable's file, and the
-- numbers of `_next_task_id`.
pub mod Safe
use nex_au.Prelude.{
  ℕ, zero, suc, ◌+◌, ◌/◌, ◌%◌, ◌≡◌, refl, Bool, true, false, not, ◌&&◌, ◌||◌, List, [], ◌∷◌, ◌++◌,
  ◌==◌, nat_eq, ltb, leb, length, take, if◌then◌else◌,
}
use nex_au.Prelude.Text.{Text, text}

-- `[a-z0-9]`
abbrev pub is_alnum : ℕ → Bool
is_alnum c = (leb b'a' c && leb c b'z') || (leb b'0' c && leb c b'9')

-- `re.sub(r"[^a-z0-9]+", "-", s)`; in a run that has begun, nothing more is written.
squash : (in_run : Bool) → Text → Text
squash in_run [] = []
squash in_run (c ∷ s) =
    let keep = c ∷ squash false s in
    let skip = squash true s in if is_alnum c then keep else if in_run then skip else b'-' ∷ skip

-- `s.lstrip("-")` and `s.rstrip("-")`
drop_dashes : Text → Text
drop_dashes [] = []
drop_dashes (c ∷ s) = let rest = drop_dashes s in if c == b'-' then rest else c ∷ s

cons_unless_dash : ℕ → Text → Text
cons_unless_dash c [] = if c == b'-' then [] else c ∷ []
cons_unless_dash c (d ∷ s) = c ∷ d ∷ s

trim_dashes : Text → Text
unfolding cons_unless_dash
trim_dashes [] = []
trim_dashes (c ∷ s) = cons_unless_dash c (trim_dashes s)

or_task : Text → Text
or_task [] = text "task"
or_task (c ∷ s) = c ∷ s

-- `_slugify`; `lower` is `str.lower`.
pub slugify : (lower : Text → Text) → ℕ → Text → Text
unfolding squash drop_dashes trim_dashes or_task
slugify lower max_length s =
    let slug = trim_dashes (drop_dashes (squash false (lower s))) in
    or_task (if ltb max_length (length slug) then trim_dashes (take max_length slug) else slug)

-- The decimal digits of a number, `fuel` of them at most.
unfoldable pub decimal_from : ℕ → ℕ → Text → Text
decimal_from zero n ds = ds
decimal_from (suc fuel) n ds =
    let more = decimal_from fuel (n / 10) ((b'0' + n % 10) ∷ ds) in
    if ltb n 10 then (b'0' + n) ∷ ds else more

-- A number has no more digits than it has units, and one at least.
unfoldable pub decimal : ℕ → Text
unfolding decimal_from
decimal n = decimal_from (suc n) n []

-- `f"{n:03d}"`
pub pad_three : ℕ → Text
unfolding decimal
pad_three n =
    if ltb n 10 then b'0' ∷ b'0' ∷ decimal n else if ltb n 100 then b'0' ∷ decimal n else decimal n

slugify_sample : slugify (λ s. s) 8 (text "..fix: the bug!") ≡ text "fix-the"
unfolding slugify
slugify_sample = refl

pad_sample : pad_three 42 ≡ text "042"
unfolding pad_three
pad_sample = refl
