-- ===== src/Permissions/Shell/Fuel.antt =====
-- Nested shells: the check of a command ends, since the command of a `-c` is shorter.
use nex_au.Prelude.{
  ℕ, zero, suc, ◌+◌, ◌≤◌, ◌<◌, ◌≡◌, ◌≢◌, refl, ap, ◌⊎◌, inl, inr, Bool, true, false, Option, some,
  List, [], ◌∷◌, arith, length, All, Bool-cases, Option-cases, beq_path, if◌then◌else◌, ◌==◌,
  list_eq, nat_eq,
}
use nex_au.Prelude.Text.{Text, text, strip, length-strip, total_length, total_length-split_words}
use nex_au.Permissions.{Rules}
use nex_au.Permissions.Split.{split_shell_commands}
use nex_au.Permissions.Split.Bounds.{total_length-split_shell_commands}
use nex_au.Permissions.Wrappers.{strip_process_wrappers}
use nex_au.Permissions.Wrappers.Suffix.{IsSuffix-total_length, strip_process_wrappers-IsSuffix}
use nex_au.Permissions.Shell.{
  Verdict, allowed, ask, denied, too_deep, Tokens, rule_verdict, dash_c, words_of, check_words,
  check_sub, keep_first, asked, inner_loop, inner_step, check_shell_c_inner, is_interpreter,
  check_stripped, check_single_command,
}

-- The documented behaviour of `shlex.split` that is relied on: the words are made of characters of
-- the text, so together they are no longer than it.
pub record Fits (std : Tokens) : Type 0 where
  pub fits : (s : Text) (ts : List Text) → std.shlex_split s ≡ some ts → total_length ts ≤ length s

total_length-words_of :
    (std : Tokens) → Fits std → (s : Text) → total_length (words_of std s) ≤ length s
unfolding words_of
total_length-words_of std f s = elim (Option-cases (std.shlex_split s)) [
  | inl e ↦ rw (e, words_of) (total_length-split_words s)
  | inr (ts, e) ↦ rw (e, words_of) (f.fits s ts e)
]

if_some :
    (b : Bool) (v u : Text) (rest : Option Text)
    → (if b then some v else rest) ≡ some u
    → (b ≡ true) × (v ≡ u) ⊎ (rest ≡ some u)
if_some true v u rest h = inl (refl, cc)
if_some false v u rest h = inr h

length-dash_c : (ts : List Text) (u : Text) → dash_c ts ≡ some u → length u + 2 ≤ total_length ts
unfolding dash_c
length-dash_c [] u h = cc
length-dash_c (t ∷ []) u h = cc
length-dash_c (t ∷ v ∷ ts) u h = elim (if_some (t == text "-c") v u (dash_c (v ∷ ts)) h) [
  | inl (e, p) ↦ omega (arith, ap length (beq_path t (text "-c") e), ap length p)
  | inr p ↦ omega (arith, length-dash_c (v ∷ ts) u p)
]

-- Every part of a bounded list is bounded.
All-bounded :
    (P : Text → Type 0) (n : ℕ)
    → ((s : Text) → length s ≤ n → P s)
    → (ss : List Text) → total_length ss ≤ n
    → All P ss
All-bounded P n h [] b = tt
All-bounded P n h (s ∷ ss) b = (h s (omega arith), All-bounded P n h ss (omega arith))

rule_verdict-ne-too_deep :
    (rules : Rules) (head : Text) (rest : List Text) → rule_verdict rules head rest ≢ too_deep
unfolding rule_verdict
rule_verdict-ne-too_deep rules head rest = ground arith

check_sub-ne-too_deep :
    (std : Tokens) (f : Fits std) (check : List Text → Verdict) (s : Text)
    → ((ts : List Text) → total_length ts ≤ length s → check ts ≢ too_deep)
    → check_sub std check s ≢ too_deep
unfolding check_sub
check_sub-ne-too_deep std f check s h = elim (Bool-cases (strip s == [])) [
  | inl e ↦ rw e (λ p. cc)
  | inr e ↦ rw e (
      words (words_of std (strip s))
        (omega (arith, total_length-words_of std f (strip s), length-strip s)))
]
  where
    words : (ts : List Text) → total_length ts ≤ length s → check_words check ts ≢ too_deep
    words [] b = λ p. cc
    words (t ∷ ts) b = h (t ∷ ts) b

inner_step-ne-too_deep :
    (go : Text → Verdict) (key : Text) (v : Verdict)
    → v ≢ too_deep
    → ((k : Text) → go k ≢ too_deep)
    → inner_step go key v ≢ too_deep
unfolding inner_step
inner_step-ne-too_deep go key (allowed _) h hs = hs key
inner_step-ne-too_deep go key (ask k) h hs = hs (keep_first key k)
inner_step-ne-too_deep go key (denied k) h hs = λ p. cc
inner_step-ne-too_deep go key too_deep h hs = h

inner_loop-ne-too_deep :
    (check : Text → Verdict) (key : Text) (subs : List Text)
    → All (λ s. check s ≢ too_deep) subs
    → inner_loop check key subs ≢ too_deep
unfolding inner_loop asked
inner_loop-ne-too_deep check [] [] h = λ p. cc
inner_loop-ne-too_deep check (c ∷ k) [] h = λ p. cc
inner_loop-ne-too_deep check key (s ∷ subs) h =
    inner_step-ne-too_deep _ key (check s) h.0 (λ k. inner_loop-ne-too_deep check k subs h.1)

module _ (rules : Rules) (std : Tokens) (f : Fits std) where
  check_inner-ne-too_deep :
      (check : List Text → Verdict) (inner : Text)
      → ((ts : List Text) → total_length ts ≤ length inner → check ts ≢ too_deep)
      → check_shell_c_inner std check inner ≢ too_deep
  unfolding check_shell_c_inner
  check_inner-ne-too_deep check inner h = inner_loop-ne-too_deep _ [] (split_shell_commands inner) (
      All-bounded _ (length inner)
        (λ s b. check_sub-ne-too_deep std f check s (λ ts c. h ts (omega arith)))
        (split_shell_commands inner) (total_length-split_shell_commands inner))

  check_stripped-ne-too_deep :
      (check : List Text → Verdict) (tokens : List Text)
      → ((ts : List Text) → total_length ts < total_length tokens → check ts ≢ too_deep)
      → check_stripped rules std check tokens ≢ too_deep
  unfolding check_stripped
  check_stripped-ne-too_deep check [] h = λ p. cc
  check_stripped-ne-too_deep check (head ∷ rest) h = elim (Bool-cases (is_interpreter head)) [
    | inr e ↦ rw e (rule_verdict-ne-too_deep rules head rest)
    | inl e ↦ elim (Option-cases (dash_c (head ∷ rest))) [
      | inl d ↦ rw (e, d) (rule_verdict-ne-too_deep rules head rest)
      | inr (inner, d) ↦
          rw (e, d)
            (check_inner-ne-too_deep check inner
              (λ ts b. h ts (omega (arith, length-dash_c (head ∷ rest) inner d))))
    ]
  ]

  check_single_command-ne-too_deep :
      (depth : ℕ) (tokens : List Text)
      → total_length tokens < depth
      → check_single_command rules std depth tokens ≢ too_deep
  unfolding check_single_command
  check_single_command-ne-too_deep zero tokens b = absurd (omega arith)
  check_single_command-ne-too_deep (suc depth) [] b = λ p. cc
  check_single_command-ne-too_deep (suc depth) (t ∷ ts) b = elim (Bool-cases (t == [])) [
    | inl e ↦ rw e (λ p. cc)
    | inr e ↦ rw e (
        check_stripped-ne-too_deep (check_single_command rules std depth)
          (strip_process_wrappers std.is_float (t ∷ ts))
          (λ us c. check_single_command-ne-too_deep depth us (
            omega (
              arith,
              IsSuffix-total_length (strip_process_wrappers-IsSuffix std.is_float (t ∷ ts)),
            ))))
  ]

  -- The check of every part of a command, at the depth that `check_shell_permission` gives.
  pub parts-ne-too_deep :
      (command : Text)
      → All
          (λ s. check_sub std (check_single_command rules std (suc (length command))) s ≢ too_deep)
          (split_shell_commands command)
  parts-ne-too_deep command =
      All-bounded _ (length command)
        (λ s b.
          check_sub-ne-too_deep std f _ s
            (λ ts c. check_single_command-ne-too_deep (suc (length command)) ts (omega arith)))
        (split_shell_commands command) (total_length-split_shell_commands command)

  -- The check of every part of the command of a `-c`.
  pub inner_parts-ne-too_deep :
      (depth : ℕ) (t : Text) (ts : List Text) (head inner : Text) (rest : List Text)
      → strip_process_wrappers std.is_float (t ∷ ts) ≡ head ∷ text "-c" ∷ inner ∷ rest
      → total_length (t ∷ ts) < suc depth
      → All
          (λ s. check_sub std (check_single_command rules std depth) s ≢ too_deep)
          (split_shell_commands inner)
  inner_parts-ne-too_deep depth t ts head inner rest e b =
      All-bounded _ (length inner)
        (λ s l. check_sub-ne-too_deep std f _ s (λ us c. check_single_command-ne-too_deep depth us (
          omega (
            arith,
            IsSuffix-total_length (strip_process_wrappers-IsSuffix std.is_float (t ∷ ts)),
            ap total_length e,
          ))))
        (split_shell_commands inner) (total_length-split_shell_commands inner)
