-- ===== src/Sandbox/Output/Cleaned.antt =====
-- nexau/archs/sandbox/output_utils.py: what is left in a cleaned output.
use nex_au.Prelude.{
  ℕ, zero, suc, ◌+◌, ◌-◌, ◌/◌, ◌%◌, ◌≡◌, refl, ◌∙◌, inl, inr, Bool, false, ◌||◌, List, [], ◌∷◌,
  ◌++◌, ◌==◌, nat_eq, list_eq, arith, contains, ltb, leb, length, take, map, All, All-append,
  Bool-cases, or-eq-false,
}
use nex_au.Prelude.Text.{Text, text}
use nex_au.Team.Slug.{decimal_from, decimal}
use nex_au.Sandbox.Output.{
  strip_ansi, onto, split_at, join_lines, replace_crlf, after_last_cr, overwritten, resolve_cr,
  summary_of, last_of, shown, collapse_from, collapse_repetitive, clean_shell_output,
}

-- A text with no carriage return.
abbrev pub NoCr : Text → Type 0
NoCr s = contains s 13 ≡ false

after_last_cr-NoCr : (s : Text) → NoCr (after_last_cr s)
unfolding after_last_cr
after_last_cr-NoCr [] = refl
after_last_cr-NoCr (c ∷ s) = ground (arith, after_last_cr-NoCr s)

overwritten-NoCr : (line : Text) → NoCr (overwritten line)
unfolding overwritten
overwritten-NoCr line = ground (arith, after_last_cr-NoCr line)

overwritten_all : (ls : List Text) → All NoCr (map overwritten ls)
overwritten_all [] = tt
overwritten_all (l ∷ ls) = (overwritten-NoCr l, overwritten_all ls)

contains-append : (s t : Text) (c : ℕ) → contains (s ++ t) c ≡ (contains s c || contains t c)
contains-append [] t c = refl
contains-append (x ∷ s) t c = ground (arith, contains-append s t c)

join_lines-NoCr : (ls : List Text) → All NoCr ls → NoCr (join_lines ls)
unfolding join_lines
join_lines-NoCr [] h = refl
join_lines-NoCr (l ∷ []) h = h.0
join_lines-NoCr (l ∷ m ∷ ls) h =
    contains-append l (10 ∷ join_lines (m ∷ ls)) 13 ∙ rw (h.0, join_lines-NoCr (m ∷ ls) h.1) refl

onto-NoCr : (c : ℕ) (ls : List Text) → (13 == c) ≡ false → All NoCr ls → All NoCr (onto c ls)
onto-NoCr c [] e h = (rw e refl, tt)
onto-NoCr c (l ∷ ls) e h = (rw (e, h.0) refl, h.1)

pub split_at-NoCr : (d : ℕ) (s : Text) → NoCr s → All NoCr (split_at d s)
unfolding split_at
split_at-NoCr d [] h = (refl, tt)
split_at-NoCr d (c ∷ s) h =
    let (e, h') = or-eq-false (13 == c) (contains s 13) h in
    let rest = split_at-NoCr d s h' in
    elim (Bool-cases (c == d)) [
      | inl b ↦ rw b (refl, rest)
      | inr b ↦ rw b (onto-NoCr c (split_at d s) e rest)
    ]

-- A text in which carriage returns have been resolved has none.
resolve_cr-NoCr : (s : Text) → NoCr (resolve_cr s)
unfolding resolve_cr
resolve_cr-NoCr s = join_lines-NoCr _ (overwritten_all (split_at 10 (replace_crlf s)))

last_of-NoCr : (l : Text) (more : List Text) → NoCr l → All NoCr more → NoCr (last_of l more)
last_of-NoCr l [] e h = e
last_of-NoCr l (m ∷ more) e h = last_of-NoCr m more h.0 h.1

All-take : (n : ℕ) (ls : List Text) → All NoCr ls → All NoCr (take n ls)
All-take zero ls h = tt
All-take (suc n) [] h = tt
All-take (suc n) (l ∷ ls) h = (h.0, All-take n ls h.1)

decimal_from-NoCr : (fuel n : ℕ) (ds : Text) → NoCr ds → NoCr (decimal_from fuel n ds)
unfolding decimal_from
decimal_from-NoCr zero n ds h = h
decimal_from-NoCr (suc fuel) n ds h =
    ground (arith, decimal_from-NoCr fuel (n / 10) ((b'0' + n % 10) ∷ ds))

summary_of-NoCr : (n : ℕ) → NoCr (summary_of n)
unfolding summary_of decimal
summary_of-NoCr zero = refl
summary_of-NoCr (suc zero) = refl
summary_of-NoCr (suc (suc n)) =
    contains-append (decimal (suc (suc n) - 2)) (text " similar lines collapsed]") 13
    ∙ rw (decimal_from-NoCr (suc (suc (suc n) - 2)) (suc (suc n) - 2) [] refl) refl

shown-NoCr :
    (min_run : ℕ) (l : Text) (more : List Text)
    → NoCr l
    → All NoCr more
    → All NoCr (shown min_run l more)
unfolding shown
shown-NoCr min_run l more e h = elim (Bool-cases (leb min_run (suc (length more)))) [
  | inl b ↦ rw b (e, (summary_of-NoCr (suc (length more)), (last_of-NoCr l more e h, tt)))
  | inr b ↦ rw b (e, h)
]

module _ (digit : ℕ → Bool) where
  collapse_from-NoCr :
      (min_run left : ℕ) (ls : List Text)
      → All NoCr ls
      → All NoCr (collapse_from digit min_run left ls)
  unfolding collapse_from
  collapse_from-NoCr min_run left [] h = tt
  collapse_from-NoCr min_run left (l ∷ ls) h = elim (Bool-cases (left == 0)) [
    | inl b ↦ rw b (
        All-append NoCr _ _ (shown-NoCr min_run l _ h.0 (All-take _ ls h.1))
          (collapse_from-NoCr min_run _ ls h.1))
    | inr b ↦ rw b (collapse_from-NoCr min_run (left - 1) ls h.1)
  ]

  collapse_repetitive-NoCr :
      (min_run : ℕ) (s : Text) → NoCr s → NoCr (collapse_repetitive digit min_run s)
  unfolding collapse_repetitive
  collapse_repetitive-NoCr min_run s h = elim (Bool-cases (ltb (length (split_at 10 s)) min_run)) [
    | inl b ↦ rw b h
    | inr b ↦
        rw b
          (join_lines-NoCr _ (collapse_from-NoCr min_run 0 (split_at 10 s) (split_at-NoCr 10 s h)))
  ]

  -- A cleaned output has no carriage return, whatever the command has written.
  pub clean_shell_output-NoCr : (s : Text) → contains (clean_shell_output digit s) 13 ≡ false
  unfolding clean_shell_output
  clean_shell_output-NoCr [] = refl
  clean_shell_output-NoCr (c ∷ s) =
      collapse_repetitive-NoCr 4 (resolve_cr (strip_ansi (c ∷ s)))
        (resolve_cr-NoCr (strip_ansi (c ∷ s)))
