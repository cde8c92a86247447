-- ===== src/Sandbox/Output/Unchanged.antt =====
-- nexau/archs/sandbox/output_utils.py: the outputs that the cleaning leaves alone.
use nex_au.Prelude.{
  ℕ, ◌<◌, ◌≡◌, refl, ap, sym, ◌∙◌, beq_path, inl, inr, Bool, false, List, [], ◌∷◌, ◌==◌, nat_eq,
  list_eq, arith, contains, length, map, All, Bool-cases, or-eq-false, lt→ltb,
}
use nex_au.Prelude.Text.{Text, starts_with}
use nex_au.Sandbox.Output.{
  remove, csi, osc, other_escape, strip_ansi, onto, split_at, join_lines, replace_crlf, overwritten,
  resolve_cr, collapse_repetitive, clean_shell_output,
}
use nex_au.Sandbox.Output.Cleaned.{NoCr, split_at-NoCr}

join_lines-onto : (c : ℕ) (ls : List Text) → join_lines (onto c ls) ≡ c ∷ join_lines ls
unfolding join_lines
join_lines-onto c [] = refl
join_lines-onto c (l ∷ []) = refl
join_lines-onto c (l ∷ m ∷ ls) = refl

join_lines-empty :
    (c : ℕ) (ls : List Text) → join_lines ([] ∷ onto c ls) ≡ 10 ∷ join_lines (onto c ls)
unfolding join_lines
join_lines-empty c [] = refl
join_lines-empty c (l ∷ ls) = refl

join_lines-new : (s : Text) → join_lines ([] ∷ split_at 10 s) ≡ 10 ∷ join_lines (split_at 10 s)
unfolding join_lines split_at
join_lines-new [] = refl
join_lines-new (c ∷ s) = elim (Bool-cases (c == 10)) [
  | inl b ↦ rw b refl
  | inr b ↦ rw b (join_lines-empty c (split_at 10 s))
]

-- Splitting a text into lines and joining them gives it back.
join_lines-split_at : (s : Text) → join_lines (split_at 10 s) ≡ s
unfolding split_at join_lines
join_lines-split_at [] = refl
join_lines-split_at (c ∷ s) = elim (Bool-cases (c == 10)) [
  | inl b ↦ rw b (
      join_lines-new s
      ∙ ap (λ t. 10 ∷ t) (join_lines-split_at s)
      ∙ ap (λ d. d ∷ s) (sym (beq_path c 10 b)))
  | inr b ↦ rw b (join_lines-onto c (split_at 10 s) ∙ ap (λ t. c ∷ t) (join_lines-split_at s))
]

overwritten-same : (l : Text) → NoCr l → overwritten l ≡ l
unfolding overwritten
overwritten-same l h = rw h refl

overwritten_all-same : (ls : List Text) → All NoCr ls → map overwritten ls ≡ ls
overwritten_all-same [] h = refl
overwritten_all-same (l ∷ ls) h = rw (overwritten-same l h.0, overwritten_all-same ls h.1) refl

replace_crlf-same : (s : Text) → NoCr s → replace_crlf s ≡ s
unfolding replace_crlf
replace_crlf-same [] h = refl
replace_crlf-same (c ∷ s) h = grind (arith, replace_crlf-same s)

-- Resolving carriage returns changes nothing in a text that has none.
resolve_cr-same : (s : Text) → NoCr s → resolve_cr s ≡ s
unfolding resolve_cr
resolve_cr-same s h =
    ap (λ t. join_lines (map overwritten (split_at 10 t))) (replace_crlf-same s h)
    ∙ ap join_lines (overwritten_all-same (split_at 10 s) (split_at-NoCr 10 s h))
    ∙ join_lines-split_at s

remove-same :
    (match : Text → ℕ) (s : Text)
    → ((c : ℕ) (t : Text) → (27 == c) ≡ false → match (c ∷ t) ≡ 0)
    → contains s 27 ≡ false
    → remove match 0 s ≡ s
unfolding remove
remove-same match [] h e = refl
remove-same match (c ∷ s) h e =
    let (e', rest) = or-eq-false (27 == c) (contains s 27) e in
    rw (h c s e') (ap (λ t. c ∷ t) (remove-same match s h rest))

beq_false : (c d : ℕ) → (d == c) ≡ false → (c == d) ≡ false
beq_false c d h = ground arith

csi-plain : (c : ℕ) (t : Text) → (27 == c) ≡ false → csi (c ∷ t) ≡ 0
unfolding csi starts_with
csi-plain c t h = rw (beq_false c 27 h) refl

osc-plain : (c : ℕ) (t : Text) → (27 == c) ≡ false → osc (c ∷ t) ≡ 0
unfolding osc starts_with
osc-plain c t h = rw (beq_false c 27 h) refl

other_escape-plain : (c : ℕ) (t : Text) → (27 == c) ≡ false → other_escape (c ∷ t) ≡ 0
unfolding other_escape
other_escape-plain c [] h = refl
other_escape-plain c (d ∷ t) h = ground arith

strip_ansi-same : (s : Text) → contains s 27 ≡ false → strip_ansi s ≡ s
unfolding strip_ansi
strip_ansi-same s e =
    rw (remove-same csi s csi-plain e, remove-same osc s osc-plain e)
      (remove-same other_escape s other_escape-plain e)

module _ (digit : ℕ → Bool) where
  -- An output of fewer than four lines that has no escape character and no carriage return comes
  -- through the cleaning unchanged.
  clean_shell_output-same :
      (s : Text)
      → contains s 27 ≡ false
      → contains s 13 ≡ false
      → length (split_at 10 s) < 4
      → clean_shell_output digit s ≡ s
  unfolding clean_shell_output collapse_repetitive
  clean_shell_output-same [] e h few = refl
  clean_shell_output-same (c ∷ s) e h few =
      let same : resolve_cr (strip_ansi (c ∷ s)) ≡ c ∷ s =
        ap resolve_cr (strip_ansi-same (c ∷ s) e) ∙ resolve_cr-same (c ∷ s) h in
      ap (collapse_repetitive digit 4) same ∙ rw (lt→ltb (length (split_at 10 (c ∷ s))) 4 few) refl
